-- ===== src/Sla/Escalation.antt =====
-- Escalation of an analysis to worker-pod eviction (`_resque_matched_worker_pods` and
-- `_escalate_analysis` of src/openstudio_operator/handlers/analysis_sla.py). A refused pod deletion
-- is an `ApiException`, which is what the code catches; a transport error that is none would end the loop and is
-- not modelled.
use openstudio_server_operat.Base.{
  ℕ, ◌+◌, String, Bool, Option, none, some, List, [], ◌∷◌, ◌&&◌, ◌||◌, not, leb, ltb, member,
  if◌then◌else◌, ◌==◌, keep,
}
use openstudio_server_operat.Clock.{Time}
use openstudio_server_operat.Config.{OperatorConfig}
use openstudio_server_operat.World.{
  Call, Severity, Reason, Env, Error, M, ◌>>=◌, ◌>>◌, ⊤, pure, throw, ask, attempt,
}
use openstudio_server_operat.Store.{mark_soft_stop_escalated}
use openstudio_server_operat.Emitter.{emit}
use openstudio_server_operat.Resque.{pod_name_for_worker, workers_for_analysis}

-- The workers whose pod is one of the namespace's, each with its pod.
unfoldable pub add_match :
    List String → String → Option String → List (String × String) → List (String × String)
add_match pods worker_id none rest = rest
add_match pods worker_id (some pod) rest = if member pod pods then (pod, worker_id) ∷ rest else rest

unfoldable pub match_pods : List String → List String → List (String × String)
match_pods pods [] = []
match_pods pods (worker_id ∷ workers) =
    add_match pods worker_id (pod_name_for_worker worker_id) (match_pods pods workers)

-- How many pods are gone and how many deletions failed, with the last failure: the deletion and its
-- HTTP status.
pub record Tally : Type 0 where
  pub evicted : ℕ
  pub failed : ℕ
  pub last_failure : Option (Call × ℕ)

abbrev pub no_tally : Tally
no_tally = record { evicted = 0; failed = 0; last_failure = none }

abbrev pub tally_one : Call → Option ℕ → Tally → Tally
tally_one c none t = record t { evicted = t.evicted + 1 }
tally_one c (some status) t = record t { failed = t.failed + 1; last_failure = some (c, status) }

unfoldable pub escalation_outcome_of : Bool → Tally → String
escalation_outcome_of dry_run t =
    if dry_run
    then "dry-run"
    else if leb t.evicted 0
    then "no-matching-pods"
    else if ltb 0 t.failed
    then "evicted-partial"
    else "evicted"

-- Whether the last failure is raised: unless it is a 404 beside a successful eviction.
unfoldable pub raised_failure : Tally → Option (Call × ℕ)
raised_failure t = elim t.last_failure [
  | none ↦ none
  | some (c, status) ↦
      if not (leb status 404 && leb 404 status) || leb t.evicted 0 then some (c, status) else none
]

module _ (env : Env) where
  -- With no worker of the analysis the pods are not listed.
  unfoldable pub match_workers : List String → M (List (String × String))
  match_workers [] = pure []
  match_workers (worker_id ∷ workers) = do
    pods ← ask env Call.list_pods env.pods
    pure (match_pods (keep (λ p. not (p == "")) pods) (worker_id ∷ workers))

  unfoldable pub resque_matched_worker_pods : String → M (List (String × String))
  resque_matched_worker_pods analysis_id = do
    workers ← workers_for_analysis env analysis_id
    match_workers workers

-- `grace_period_seconds`: 0 kills at once, none leaves the pod its own grace.
abbrev pub grace_seconds : OperatorConfig → Option ℕ
grace_seconds config = if config.analysis_policy.force_delete_on_escalation then some 0 else none

unfoldable pub raise_failure : Option (Call × ℕ) → M ⊤
raise_failure none = pure tt
raise_failure (some (c, status)) = throw (Error.refused c status)

module _ (env : Env) (config : OperatorConfig) where
  unfoldable pub evict_one : String → M (Option ℕ)
  evict_one pod =
      if config.dry_run then pure none else attempt env (Call.delete_pod pod (grace_seconds config))

  unfoldable pub evict_pods : List (String × String) → Tally → M Tally
  evict_pods [] t = pure t
  evict_pods (v ∷ victims) t = do
    failure ← evict_one v.0
    evict_pods victims (tally_one (Call.delete_pod v.0 (grace_seconds config)) failure t)

  unfoldable pub escalate_analysis : Time → String → M ⊤
  escalate_analysis now analysis_id = do
    victims ← resque_matched_worker_pods env analysis_id
    t ← evict_pods victims no_tally
    raise_failure (raised_failure t)
    emit env config Severity.warning Reason.analysis_escalated analysis_id
    mark_soft_stop_escalated env analysis_id now (escalation_outcome_of config.dry_run t)
