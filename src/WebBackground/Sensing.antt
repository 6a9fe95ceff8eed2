-- ===== src/WebBackground/Sensing.antt =====
-- The stall condition (`_stall_condition_holds` and `_worker_pods_healthy` of
-- src/openstudio_operator/handlers/web_background_monitor.py): work is queued, no worker's heartbeat
-- is fresh, and Kubernetes finds the worker pods healthy.
use openstudio_server_operat.Base.{
  String, Bool, true, false, Option, none, some, List, [], ◌∷◌, ◌&&◌, ◌||◌, not, leb, ltb, length,
  any, if◌then◌else◌, ◌==◌,
}
use openstudio_server_operat.Clock.{Time, seconds}
use openstudio_server_operat.Config.{OperatorConfig}
use openstudio_server_operat.World.{
  Call, Pod, Leg2SafeguardState, Env, M, ◌>>=◌, ◌>>◌, ⊤, pure, update, ask,
}
use openstudio_server_operat.Resque.{queue_depth, worker_heartbeats, stale_workers}
use openstudio_server_operat.Kube.{deployment_label_selector}
use openstudio_server_operat.Recycler.{worker_deployment}
use openstudio_server_operat.WebBackground.Window.{or_now}

abbrev pub set_leg2 : (Leg2SafeguardState → Leg2SafeguardState) → M ⊤
set_leg2 f = update (λ w. record w { leg2 = f w.leg2 })

-- `Running`, with a condition `Ready=True`
abbrev pub is_healthy : Pod → Bool
is_healthy pod =
    pod.phase == "Running" && any (λ c. c.kind == "Ready" && c.status == "True") pod.conditions

abbrev pub all_healthy : List Pod → Bool
all_healthy [] = true
all_healthy (pod ∷ pods) = is_healthy pod && all_healthy pods

-- At least one pod, and all of them healthy.
abbrev pub fleet_healthy : List Pod → Bool
fleet_healthy [] = false
fleet_healthy (pod ∷ pods) = all_healthy (pod ∷ pods)

module _ (env : Env) (config : OperatorConfig) (now : Time) where
  unfoldable pub pods_healthy : Option String → M Bool
  pods_healthy none = pure false
  pods_healthy (some selector) = do
    pods ← ask env (Call.list_pods_of selector) (λ t. env.pods_of t selector)
    pure (fleet_healthy pods)

  -- Leg C
  unfoldable pub worker_pods_healthy : M Bool
  worker_pods_healthy = do
    selector ← deployment_label_selector env (worker_deployment config)
    pods_healthy selector

  -- Leg B, after noting since when the registry is empty.
  unfoldable pub nobody_processes : List (String × Option Time) → M Bool
  nobody_processes registered = do
    set_leg2 (λ l. record l {
      empty_registry_since =
          if leb (length registered) 0 then some (or_now now l.empty_registry_since) else none;
    })
    stale ← stale_workers env (seconds 300)
    if ltb (length stale) (length registered) then pure false else worker_pods_healthy

  unfoldable pub stall_condition_holds : M Bool
  stall_condition_holds = do
    registered ← worker_heartbeats env
    set_leg2 (λ l. record l {
      max_workers_seen =
          if ltb l.max_workers_seen (length registered)
          then length registered
          else l.max_workers_seen;
    })
    simulations ← queue_depth env "resque:queue:simulations"
    requeued ← queue_depth env "resque:queue:requeued"
    if not (ltb 0 simulations || ltb 0 requeued) then pure false else nobody_processes registered
