-- ===== src/DryRun.antt =====
-- `spec.dryRun`, the audit-only mode, over the timer handlers: a tick reads, and writes the custom
-- resource's status, and does nothing else.
use openstudio_server_operat.Base.{
  String, Bool, true, false, Option, none, some, List, [], ◌∷◌, ◌≡◌, refl, arith, ◌||◌, any,
}
use openstudio_server_operat.Base.Dict.{Dict}
use openstudio_server_operat.Clock.{Time}
use openstudio_server_operat.Config.{OperatorConfig}
use openstudio_server_operat.Status.{RequeueRecord, SoftStopRecord}
use openstudio_server_operat.World.{Call, Env, for_each}
use openstudio_server_operat.World.Grows.{Grows-weaken, same}
use openstudio_server_operat.World.Triple.{returns, After-mono}
use openstudio_server_operat.World.Adds.{
  quiet, Adds, Adds-pure, Adds-throw, Adds-gets, Adds-bind, Adds-when, Adds-ask,
}
use openstudio_server_operat.Store.{protect_anchor_keys, clear_started_since}
use openstudio_server_operat.Store.Quiet.{
  Adds-read, Adds-set_requeue, Adds-set_started_since, Adds-clear_started_since, Adds-prune,
  Adds-set_last_recycle_at,
}
use openstudio_server_operat.Emitter.{Adds-emit, not_dry}
use openstudio_server_operat.Watchdog.{
  warn_exhausted, requeue, judge, watch_clock, watch_one, watch_loop, start_clocks, watch,
  run_watchdog_tick,
}
use openstudio_server_operat.Watchdog.Hygiene.{
  prune_confirmed, check_anchors, run_anchor_hygiene, anchor_hygiene,
}
use openstudio_server_operat.Recycler.{
  Trigger, recycle, recycle_if, after_gate, gate, run_recycler_tick,
}
use openstudio_server_operat.Sla.{run_sla_tick}
use openstudio_server_operat.WebBackground.{run_stall_tick}
use openstudio_server_operat.WebBackground.Quiet.{run_stall_tick-Adds}
use openstudio_server_operat.Sla.Warrants.{allows}
use openstudio_server_operat.Sla.Ticks.{run_sla_tick-tick_allows}

module _ (env : Env) (config : OperatorConfig) (now : Time) (dry : config.dry_run ≡ true) where
  passes : (c : Call) → quiet c ≡ true → quiet c ≡ true
  passes c h = h

  -- What only happens outside a dry run.
  never : {P : Type 0} → config.dry_run ≡ false → P
  never wet = cc

  warn_exhausted-Adds : (dp_id : String) → Adds quiet (warn_exhausted env config now dp_id)
  unfolding warn_exhausted
  warn_exhausted-Adds dp_id = Adds-bind _ (Adds-gets _) (λ seen.
      Adds-when _ _
        (λ _. Adds-bind _ (λ w. returns same) (λ _. Adds-emit env config _ _ dp_id never)))

  requeue-Adds : (dp_id : String) (budget : _) → Adds quiet (requeue env config now dp_id budget)
  unfolding requeue
  requeue-Adds dp_id budget = Adds-bind _ (Adds-when _ _ (λ wet. never (not_dry wet))) (λ _.
      Adds-bind _ (Adds-emit env config _ _ dp_id never) (λ _.
        Adds-bind _ (Adds-set_requeue env passes dp_id _)
          (λ _. Adds-set_started_since env passes dp_id now)))

  judge-Adds :
      (dp_id : String) (budget : _) (over exhausted : Bool)
      → Adds quiet (judge env config now dp_id budget over exhausted)
  unfolding judge
  judge-Adds dp_id budget false exhausted = Adds-pure _
  judge-Adds dp_id budget true true = Adds-bind _ (warn_exhausted-Adds dp_id) (λ _. Adds-pure _)
  judge-Adds dp_id budget true false = Adds-bind _ (requeue-Adds dp_id budget) (λ _. Adds-pure _)

  watch_clock-Adds :
      (budget : _) (dp_id : String) (clock : Option Time)
      → Adds quiet (watch_clock env config now budget dp_id clock)
  unfolding watch_clock
  watch_clock-Adds budget dp_id none = Adds-throw _
  watch_clock-Adds budget dp_id (some since) = judge-Adds dp_id budget _ _

  watch_loop-Adds :
      (requeues : Dict RequeueRecord) (clocks : Dict Time) (ids : List String)
      → Adds quiet (watch_loop env config now requeues clocks ids)
  unfolding watch_loop watch_one
  watch_loop-Adds requeues clocks [] = Adds-pure _
  watch_loop-Adds requeues clocks (dp_id ∷ ids) =
      Adds-bind _ (watch_clock-Adds _ dp_id _)
        (λ _. Adds-bind _ (watch_loop-Adds requeues clocks ids) (λ _. Adds-pure _))

  start_clocks-Adds :
      (ids : List String) (clocks : Dict Time) → Adds quiet (start_clocks env config now ids clocks)
  unfolding start_clocks
  start_clocks-Adds [] clocks = Adds-pure _
  start_clocks-Adds (dp_id ∷ ids) clocks =
      Adds-bind _ (Adds-when _ _ (λ _. Adds-set_started_since env passes dp_id now))
        (λ _. start_clocks-Adds ids _)

  clear_clocks-Adds : (ids : List String) → Adds quiet (for_each ids (clear_started_since env))
  unfolding for_each
  clear_clocks-Adds [] = Adds-pure _
  clear_clocks-Adds (dp_id ∷ ids) =
      Adds-bind _ (Adds-clear_started_since env passes dp_id) (λ _. clear_clocks-Adds ids)

  prune_confirmed-Adds :
      (datapoints analyses : List String)
      → Adds quiet (prune_confirmed env config datapoints analyses)
  unfolding prune_confirmed protect_anchor_keys
  prune_confirmed-Adds datapoints analyses = Adds-bind _ (Adds-gets _) (λ state.
      Adds-bind _ (λ w. returns same)
        (λ _.
          Adds-bind _ (λ w. returns same)
            (λ _.
              Adds-bind _ (λ w. returns same)
                (λ _.
                  Adds-bind _ (λ w. returns same)
                    (λ _. Adds-when _ _ (λ _. Adds-bind _ (Adds-prune env passes _ _) (λ pruned.
                      Adds-bind _ (λ w. returns same)
                        (λ _. Adds-when _ _ (λ _. Adds-emit env config _ _ _ never)))))))))

  check_anchors-Adds :
      (datapoints analyses started : List String) (tracked : Bool)
      → Adds quiet (check_anchors env config datapoints analyses started tracked)
  unfolding check_anchors
  check_anchors-Adds datapoints analyses started false = λ w. returns same
  check_anchors-Adds datapoints analyses started true = Adds-bind _ (Adds-ask env _ _ refl) (λ _.
      Adds-bind _ (Adds-ask env _ _ refl)
        (λ _. Adds-bind _ (λ w. returns same) (λ _. prune_confirmed-Adds _ _)))

  anchor_hygiene-Adds : (started : List String) → Adds quiet (anchor_hygiene env config started)
  unfolding anchor_hygiene run_anchor_hygiene
  anchor_hygiene-Adds started =
      Adds-bind _ (λ w. returns same)
        (λ _. Adds-bind _ (Adds-gets _) (λ ticks. Adds-when _ _ (λ _.
          Adds-bind _ (Adds-read env passes _) (λ _.
            Adds-bind _ (Adds-read env passes _) (λ _.
              Adds-bind _ (Adds-read env passes _) (λ _. check_anchors-Adds _ _ started _))))))

  run_watchdog_tick-Adds : Adds quiet (run_watchdog_tick env config now)
  unfolding run_watchdog_tick watch
  run_watchdog_tick-Adds = Adds-bind _ (Adds-ask env _ _ refl) (λ docs.
      Adds-bind _
        (Adds-bind _ (Adds-read env passes _) (λ clocks. Adds-bind _ (clear_clocks-Adds _) (λ _.
          Adds-bind _ (start_clocks-Adds _ _)
            (λ _. Adds-bind _ (Adds-read env passes _) (λ _. watch_loop-Adds _ _ _)))))
        (λ requeued. Adds-bind _ (anchor_hygiene-Adds _) (λ _. Adds-pure _)))

  recycle_if-Adds : (t : Option Trigger) → Adds quiet (recycle_if env config now t)
  unfolding recycle_if recycle
  recycle_if-Adds none = Adds-pure _
  recycle_if-Adds (some trigger) = Adds-bind _ (Adds-when _ _ (λ wet. never (not_dry wet))) (λ _.
      Adds-bind _ (Adds-emit env config _ _ _ never)
        (λ _. Adds-bind _ (Adds-set_last_recycle_at env passes now) (λ _. Adds-pure _)))

  gate-Adds : (last : Option Time) (is_open : Bool) → Adds quiet (gate env config now last is_open)
  unfolding gate after_gate
  gate-Adds last true = Adds-bind _ (Adds-ask env _ _ refl) (λ _. recycle_if-Adds _)
  gate-Adds last false = Adds-pure _

  run_recycler_tick-Adds : Adds quiet (run_recycler_tick env config now)
  unfolding run_recycler_tick
  run_recycler_tick-Adds = Adds-bind _ (Adds-read env passes _) (λ last. gate-Adds last _)

  allows-quiet :
      (anchors : Dict SoftStopRecord) (c : Call)
      → quiet c || any (λ e. allows config now e c) anchors ≡ true
      → quiet c ≡ true
  allows-quiet [] c h = ground arith
  allows-quiet (e ∷ anchors) c h = ground (arith, allows-quiet anchors c)

  run_sla_tick-Adds : Adds quiet (run_sla_tick env config now)
  run_sla_tick-Adds w =
      After-mono (run_sla_tick-tick_allows env config now w)
        (λ _ w' g. Grows-weaken (λ c h. allows-quiet w.status.soft_stop_map c (ground arith)) g)
        (λ w' g. Grows-weaken (λ c h. allows-quiet w.status.soft_stop_map c (ground arith)) g)

-- In a dry run a tick of the watchdog, the recycler, the SLA monitor or the web-background monitor
-- makes no call but reads and status writes, whatever the services answer or refuse and whether it returns or raises: nothing is
-- requeued, restarted, stopped or deleted, and no Event reaches the cluster, one that is marked as a
-- dry run's neither: the emitter only logs and counts it.
pub dry_run-quiet :
    (env : Env) (config : OperatorConfig) (now : Time)
    → config.dry_run ≡ true
    → Adds quiet (run_watchdog_tick env config now)
      × Adds quiet (run_recycler_tick env config now)
      × Adds quiet (run_sla_tick env config now)
      × Adds quiet (run_stall_tick env config now)
dry_run-quiet env config now dry = (
  run_watchdog_tick-Adds env config now dry,
  run_recycler_tick-Adds env config now dry,
  run_sla_tick-Adds env config now dry,
  run_stall_tick-Adds env config now dry,
)
