-- ===== src/Tests/SlaTests.antt =====
-- The SLA monitor at work.
use openstudio_server_operat.Base.{String, none, [], ◌∷◌, ◌≡◌, refl, str_dec, ℕ_discrete, true}
use openstudio_server_operat.Base.Dict.{lookup, insert, has, erase, erase_all, keys}
use openstudio_server_operat.Clock.{minutes, seconds}
use openstudio_server_operat.Config.{OperatorConfig, default_config}
use openstudio_server_operat.Status.{soft_stop_dec, stop_dec}
use openstudio_server_operat.World.{World, ok, ◌>>=◌, when, call, ask, attempt}
use openstudio_server_operat.World.Grows.{Grows, count_done}
use openstudio_server_operat.World.Triple.{After}
use openstudio_server_operat.World.Adds.{Adds, quiet}
use openstudio_server_operat.Store.{
  read, is_entry, write_map, set_soft_stop, clear_soft_stop, mark_soft_stop_escalated,
  stamp_escalated, set_stop_record, prune_stop_record,
}
use openstudio_server_operat.Store.Cap.{capped_insert}
use openstudio_server_operat.Emitter.{emit}
use openstudio_server_operat.Watchdog.{run_watchdog_tick}
use openstudio_server_operat.Recycler.{run_recycler_tick}
use openstudio_server_operat.Sla.{
  body_is_started, status_is_started, observe, soft_stop, escalate, wait_for_stop,
  after_stop_record, issue_stop, stop_phase, act, check_started, check_anchor, walk_anchors,
  grace_and_escalate, run_sla_tick,
}
use openstudio_server_operat.Resque.{
  cut, split_colon, pod_of_segments, pod_name_for_worker, workers_for_analysis, matching_workers,
  record_matches,
}
use openstudio_server_operat.Sla.Escalation.{
  add_match, match_pods, match_workers, resque_matched_worker_pods, evict_one, evict_pods,
  raised_failure, raise_failure, escalation_outcome_of, escalate_analysis, no_tally,
}
use openstudio_server_operat.Sla.Ticks.{tick_allows, run_sla_tick-tick_allows}
use openstudio_server_operat.Sla.Eviction.{pods_deleted, Accounted, evict_pods-Accounted, All}
use openstudio_server_operat.Sla.Matches.{Victim, resque_matched_worker_pods-Victim}
use openstudio_server_operat.Sla.Stamp.{Stamped, SameStatus, escalate_analysis-Stamped}
use openstudio_server_operat.WebBackground.{run_stall_tick}
use openstudio_server_operat.DryRun.{dry_run-quiet}
use openstudio_server_operat.Tests.Samples.{server, start}

program : Unit {0}
unfolding workers_for_analysis matching_workers record_matches lookup insert has erase erase_all
    keys minutes seconds soft_stop_dec stop_dec ◌>>=◌ when call ask attempt count_done read is_entry
    write_map set_soft_stop clear_soft_stop mark_soft_stop_escalated stamp_escalated set_stop_record
    prune_stop_record capped_insert emit body_is_started status_is_started observe soft_stop
    escalate wait_for_stop after_stop_record issue_stop stop_phase act check_started check_anchor
    walk_anchors grace_and_escalate run_sla_tick cut split_colon pod_of_segments pod_name_for_worker
    add_match match_pods match_workers resque_matched_worker_pods evict_one evict_pods
    raised_failure raise_failure escalation_outcome_of escalate_analysis str_dec ℕ_discrete
program = tt

-- An analysis that has been watched since time 0.
abbrev watched : String → World
watched outcome = record start {
  status = record start.status {
    soft_stop_map =
        (
          "a1",
          record {
            issued_at = 0;
            outcome = outcome;
            escalated_at = none;
            escalation_outcome = none;
          },
        )
        ∷ [];
  };
}

-- After 181 minutes it is soft-stopped.
soft_stops :
    (run_sla_tick server default_config 10860000000 (watched "watching")).0
    ≡ ok (record { soft_stopped = "a1" ∷ []; escalated = []; stopped = [] })
unfolding program
soft_stops = refl

-- After an issued soft stop that did not work it is stopped, and escalated in the same tick.
escalates :
    (run_sla_tick server default_config 10860000000 (watched "issued")).0
    ≡ ok (record { soft_stopped = []; escalated = "a1" ∷ []; stopped = "a1" ∷ [] })
unfolding program
escalates = refl

-- After 16 minutes, with 180 allowed and no soft stop issued, its worker's pod is deleted.
evicts_early :
    pods_deleted (run_sla_tick server default_config 960000000 (watched "watching")).1 ≡ 1
unfolding program
evicts_early = refl

run_sla_tick-tick_allows_example :
    After
      (λ _ w'.
        Grows
          (tick_allows server default_config 10860000000 (watched "issued").status.soft_stop_map)
          []
          w'.trace)
      (λ w'.
        Grows
          (tick_allows server default_config 10860000000 (watched "issued").status.soft_stop_map)
          []
          w'.trace)
      (run_sla_tick server default_config 10860000000 (watched "issued"))
run_sla_tick-tick_allows_example =
    run_sla_tick-tick_allows server default_config 10860000000 (watched "issued")

abbrev audit : OperatorConfig
audit = record default_config { dry_run = true }

dry_run-quiet_example :
    Adds quiet (run_watchdog_tick server audit 5)
    × Adds quiet (run_recycler_tick server audit 5)
    × Adds quiet (run_sla_tick server audit 5)
    × Adds quiet (run_stall_tick server audit 5)
dry_run-quiet_example = dry_run-quiet server audit 5 refl

evict_pods-Accounted_example :
    After
      (λ t' w'. Accounted 1 no_tally start t' w')
      (λ _. Unit)
      (evict_pods server default_config (("pod1", "pod1:7:simulations") ∷ []) no_tally start)
evict_pods-Accounted_example =
    evict_pods-Accounted server default_config refl (("pod1", "pod1:7:simulations") ∷ []) no_tally
      start

resque_matched_worker_pods-Victim_example :
    After
      (λ victims w'. All (Victim server "a1" start w') victims)
      (λ _. Unit)
      (resque_matched_worker_pods server "a1" start)
resque_matched_worker_pods-Victim_example = resque_matched_worker_pods-Victim server "a1" start

-- The pod of the one worker that processes the analysis.
one_victim :
    (resque_matched_worker_pods server "a1" start).0 ≡ ok (("pod1", "pod1:7:simulations") ∷ [])
unfolding program
one_victim = refl

escalate_analysis-Stamped_example :
    After
      (λ _ w'. Stamped "a1" 9 (watched "issued") w')
      (SameStatus (watched "issued"))
      (escalate_analysis server default_config 9 "a1" (watched "issued"))
escalate_analysis-Stamped_example =
    escalate_analysis-Stamped server "a1" 9 default_config (watched "issued")
