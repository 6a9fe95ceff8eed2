-- ===== src/WebBackground/Senses.antt =====
-- Sensing leaves the status and the window tracker alone.
use openstudio_server_operat.Base.{String, Option, none, some, List, [], ◌∷◌, refl}
use openstudio_server_operat.Base.Dict.{Dict}
use openstudio_server_operat.Clock.{Time}
use openstudio_server_operat.Config.{OperatorConfig}
use openstudio_server_operat.World.{Env, Severity, Reason}
use openstudio_server_operat.World.Triple.{returns}
use openstudio_server_operat.World.Keeps.{
  Keeps, Keeps-pure, Keeps-throw, Keeps-gets, Keeps-bind, Keeps-if, Keeps-when, Keeps-call,
  Keeps-ask,
}
use openstudio_server_operat.Emitter.{emit}
use openstudio_server_operat.Kube.{deployment_label_selector}
use openstudio_server_operat.Resque.{
  queue_depth, parsed_beat, beats_of, heartbeats_of, worker_heartbeats, stale_workers,
}
use openstudio_server_operat.WebBackground.{warn_layout_unknown}
use openstudio_server_operat.WebBackground.Sensing.{
  pods_healthy, worker_pods_healthy, nobody_processes, stall_condition_holds,
}

module _ (env : Env) where
  parsed_beat-Keeps : (b : Option (Option Time)) → Keeps (parsed_beat env b)
  unfolding parsed_beat
  parsed_beat-Keeps none = Keeps-pure _
  parsed_beat-Keeps (some none) = Keeps-throw _
  parsed_beat-Keeps (some (some at)) = Keeps-pure _

  beats_of-Keeps :
      (beats : Dict (Option Time)) (worker_ids : List String)
      → Keeps (beats_of env beats worker_ids)
  unfolding beats_of
  beats_of-Keeps beats [] = Keeps-pure _
  beats_of-Keeps beats (worker_id ∷ worker_ids) =
      Keeps-bind _ (parsed_beat-Keeps _)
        (λ _. Keeps-bind _ (beats_of-Keeps beats worker_ids) (λ _. Keeps-pure _))

  heartbeats_of-Keeps : (worker_ids : List String) → Keeps (heartbeats_of env worker_ids)
  unfolding heartbeats_of
  heartbeats_of-Keeps [] = Keeps-pure _
  heartbeats_of-Keeps (worker_id ∷ worker_ids) =
      Keeps-bind _ (Keeps-ask env _ _) (λ beats. beats_of-Keeps beats _)

  worker_heartbeats-Keeps : Keeps (worker_heartbeats env)
  unfolding worker_heartbeats
  worker_heartbeats-Keeps = Keeps-bind _ (Keeps-ask env _ _) (λ ids. heartbeats_of-Keeps ids)

  stale_workers-Keeps : (threshold : Time) → Keeps (stale_workers env threshold)
  unfolding stale_workers
  stale_workers-Keeps threshold =
      Keeps-bind _ (Keeps-gets _) (λ now. Keeps-bind _ worker_heartbeats-Keeps (λ _. Keeps-pure _))

  queue_depth-Keeps : (queue : String) → Keeps (queue_depth env queue)
  unfolding queue_depth
  queue_depth-Keeps queue = Keeps-ask env _ _

  deployment_label_selector-Keeps :
      (deployment : String) → Keeps (deployment_label_selector env deployment)
  unfolding deployment_label_selector
  deployment_label_selector-Keeps deployment = Keeps-bind _ (Keeps-ask env _ _) (λ _. Keeps-pure _)

  module _ (config : OperatorConfig) (now : Time) where
    pods_healthy-Keeps : (selector : Option String) → Keeps (pods_healthy env config now selector)
    unfolding pods_healthy
    pods_healthy-Keeps none = Keeps-pure _
    pods_healthy-Keeps (some selector) = Keeps-bind _ (Keeps-ask env _ _) (λ _. Keeps-pure _)

    worker_pods_healthy-Keeps : Keeps (worker_pods_healthy env config now)
    unfolding worker_pods_healthy
    worker_pods_healthy-Keeps =
        Keeps-bind _ (deployment_label_selector-Keeps _) (λ selector. pods_healthy-Keeps selector)

    nobody_processes-Keeps :
        (registered : List (String × Option Time))
        → Keeps (nobody_processes env config now registered)
    unfolding nobody_processes
    nobody_processes-Keeps registered =
        Keeps-bind _ (λ w. returns (record { status_kept = refl; tracker_kept = refl }))
          (λ _.
            Keeps-bind _ (stale_workers-Keeps _)
              (λ stale. Keeps-if _ (Keeps-pure _) worker_pods_healthy-Keeps))

    pub stall_condition_holds-Keeps : Keeps (stall_condition_holds env config now)
    unfolding stall_condition_holds
    stall_condition_holds-Keeps = Keeps-bind _ worker_heartbeats-Keeps (λ registered.
        Keeps-bind _ (λ w. returns (record { status_kept = refl; tracker_kept = refl }))
          (λ _. Keeps-bind _ (queue_depth-Keeps _) (λ simulations.
            Keeps-bind _ (queue_depth-Keeps _)
              (λ requeued. Keeps-if _ (Keeps-pure _) (nobody_processes-Keeps registered)))))

    pub emit-Keeps :
        (severity : Severity) (reason : Reason) (subject : String)
        → Keeps (emit env config severity reason subject)
    unfolding emit
    emit-Keeps severity reason subject = Keeps-when _ _ (Keeps-call env _)

    pub warn_layout_unknown-Keeps : Keeps (warn_layout_unknown env config now)
    unfolding warn_layout_unknown
    warn_layout_unknown-Keeps = Keeps-bind _ (Keeps-gets _) (λ warns. Keeps-when _ _ (
        Keeps-bind _ (λ w. returns (record { status_kept = refl; tracker_kept = refl }))
          (λ _. emit-Keeps _ _ _)))
