-- ===== src/WebBackground/Quiet.antt =====
-- The web-background monitor in a dry run.
use openstudio_server_operat.Base.{
  Bool, true, false, String, Option, none, some, List, ◌≡◌, refl, not, ltb, ◌||◌, length,
}
use openstudio_server_operat.Clock.{Time}
use openstudio_server_operat.Config.{OperatorConfig}
use openstudio_server_operat.World.{Call, Env, pure}
use openstudio_server_operat.World.Grows.{same}
use openstudio_server_operat.World.Triple.{returns}
use openstudio_server_operat.World.Adds.{
  quiet, Adds, Adds-pure, Adds-gets, Adds-bind, Adds-if, Adds-when, Adds-ask, Adds-on_raise,
  Adds-ignoring,
}
use openstudio_server_operat.Store.Quiet.{
  Adds-read, Adds-set_last_web_background_restart_at, Adds-set_stall_window_started_at,
  Adds-set_ineffective_restarts,
}
use openstudio_server_operat.Emitter.{Adds-emit, not_dry}
use openstudio_server_operat.Kube.{deployment_label_selector}
use openstudio_server_operat.Resque.{queue_depth-Adds, worker_heartbeats-Adds, stale_workers-Adds}
use openstudio_server_operat.WebBackground.{
  warn_layout_unknown, blind, restore_from, restore, observe, checkpoint, is_armed, disarm,
  conclude_clean, count_ineffective, fire, fire_unless_deferred, decide, sense, after_cooldown,
  cooldown, run_stall_tick, is_deferred, stall_window,
}
use openstudio_server_operat.WebBackground.Sensing.{
  pods_healthy, worker_pods_healthy, nobody_processes, stall_condition_holds,
}

module _ (env : Env) (config : OperatorConfig) (now : Time) (dry : config.dry_run ≡ true) where
  passes : (c : Call) → quiet c ≡ true → quiet c ≡ true
  passes c h = h

  never : {P : Type 0} → config.dry_run ≡ false → P
  never wet = cc

  pods_healthy-Adds : (selector : Option String) → Adds quiet (pods_healthy env config now selector)
  unfolding pods_healthy
  pods_healthy-Adds none = Adds-pure _
  pods_healthy-Adds (some selector) = Adds-bind _ (Adds-ask env _ _ refl) (λ _. Adds-pure _)

  worker_pods_healthy-Adds : Adds quiet (worker_pods_healthy env config now)
  unfolding worker_pods_healthy deployment_label_selector
  worker_pods_healthy-Adds =
      Adds-bind _ (Adds-bind _ (Adds-ask env _ _ refl) (λ _. Adds-pure _))
        (λ selector. pods_healthy-Adds selector)

  nobody_processes-Adds :
      (registered : List (String × Option Time))
      → Adds quiet (nobody_processes env config now registered)
  unfolding nobody_processes
  nobody_processes-Adds registered =
      Adds-bind _ (λ w. returns same)
        (λ _. Adds-bind _ (stale_workers-Adds env passes _) (λ stale.
          Adds-if (ltb (length stale) (length registered)) {m = pure false}
            {n = worker_pods_healthy env config now} (λ _. Adds-pure _)
            (λ _. worker_pods_healthy-Adds)))

  stall_condition_holds-Adds : Adds quiet (stall_condition_holds env config now)
  unfolding stall_condition_holds
  stall_condition_holds-Adds = Adds-bind _ (worker_heartbeats-Adds env passes) (λ registered.
      Adds-bind _ (λ w. returns same)
        (λ _. Adds-bind _ (queue_depth-Adds env passes _) (λ simulations.
          Adds-bind _ (queue_depth-Adds env passes _) (λ requeued.
            Adds-if (not (ltb 0 simulations || ltb 0 requeued)) {m = pure false}
              {n = nobody_processes env config now registered} (λ _. Adds-pure _)
              (λ _. nobody_processes-Adds registered)))))

  sense-Adds : Adds quiet (sense env config now)
  unfolding sense blind
  sense-Adds =
      Adds-on_raise _ _ stall_condition_holds-Adds
        (Adds-bind _ (λ w. returns same) (λ _. Adds-set_stall_window_started_at env passes none))

  warn_layout_unknown-Adds : Adds quiet (warn_layout_unknown env config now)
  unfolding warn_layout_unknown
  warn_layout_unknown-Adds = Adds-bind _ (Adds-gets _) (λ _.
      Adds-when _ _ (λ _. Adds-bind _ (λ w. returns same) (λ _. Adds-emit env config _ _ _ never)))

  restore_from-Adds : (o : Option Time) → Adds quiet (restore_from env config now o)
  unfolding restore_from
  restore_from-Adds none = Adds-pure _
  restore_from-Adds (some t) = λ w. returns same

  checkpoint-Adds :
      (window_began holds : Bool) → Adds quiet (checkpoint env config now window_began holds)
  unfolding checkpoint
  checkpoint-Adds true holds =
      Adds-bind _ (Adds-gets _) (λ _. Adds-set_stall_window_started_at env passes _)
  checkpoint-Adds false holds = Adds-when _ _ (λ _. Adds-set_stall_window_started_at env passes _)

  is_armed-Adds : (last : Option Time) → Adds quiet (is_armed env config now last)
  unfolding is_armed
  is_armed-Adds none = Adds-bind _ (Adds-read env passes _) (λ _. Adds-pure _)
  is_armed-Adds (some last) = Adds-pure _

  conclude_clean-Adds :
      (last : Option Time) (holds : Bool) → Adds quiet (conclude_clean env config now last holds)
  unfolding conclude_clean disarm
  conclude_clean-Adds last holds = Adds-bind _ (Adds-gets _) (λ _. Adds-when _ _ (λ _.
      Adds-bind _ (is_armed-Adds last) (λ _. Adds-when _ _ (λ _.
        Adds-bind _ (Adds-set_ineffective_restarts env passes _)
          (λ _. Adds-when _ _ (λ _. Adds-set_last_web_background_restart_at env passes _))))))

  count_ineffective-Adds : (last : Option Time) → Adds quiet (count_ineffective env config now last)
  unfolding count_ineffective
  count_ineffective-Adds none = Adds-pure _
  count_ineffective-Adds (some last) = Adds-bind _ (Adds-read env passes _) (λ _.
      Adds-bind _ (Adds-set_ineffective_restarts env passes _)
        (λ _. Adds-when _ _ (λ _. Adds-emit env config _ _ _ never)))

  fire-Adds : (last : Option Time) → Adds quiet (fire env config now last)
  unfolding fire
  fire-Adds last = Adds-bind _ (Adds-when _ _ (λ wet. never (not_dry wet))) (λ _.
      Adds-bind _ (Adds-emit env config _ _ _ never) (λ _.
        Adds-bind _ (Adds-set_stall_window_started_at env passes _) (λ _.
          Adds-bind _ (Adds-set_last_web_background_restart_at env passes _) (λ _.
            Adds-bind _ (count_ineffective-Adds last)
              (λ _. Adds-bind _ (λ w. returns same) (λ _. Adds-pure _))))))

  fire_unless_deferred-Adds :
      (last : Option Time) → Adds quiet (fire_unless_deferred env config now last)
  unfolding fire_unless_deferred
  fire_unless_deferred-Adds none = fire-Adds none
  fire_unless_deferred-Adds (some last) = Adds-bind _ (Adds-read env passes _) (λ ineffective.
      Adds-if (is_deferred now (stall_window config) last ineffective) {m = pure false}
        {n = fire env config now (some last)} (λ _. Adds-pure _) (λ _. fire-Adds (some last)))

  decide-Adds : (last : Option Time) (holds : Bool) → Adds quiet (decide env config now last holds)
  unfolding decide restore observe
  decide-Adds last holds = Adds-bind _ (Adds-gets _) (λ _.
      Adds-bind _
        (Adds-when _ _ (λ _. Adds-bind _ (Adds-read env passes _) (λ o. restore_from-Adds o)))
        (λ _.
          Adds-bind _
            (Adds-bind _ (Adds-gets _) (λ t. Adds-bind _ (λ w. returns same) (λ _. Adds-pure _)))
            (λ sustained. Adds-bind _ (checkpoint-Adds _ holds) (λ _.
              Adds-bind _ (conclude_clean-Adds last holds) (λ _.
                Adds-if sustained {m = fire_unless_deferred env config now last} {n = pure false}
                  (λ _. fire_unless_deferred-Adds last) (λ _. Adds-pure _))))))

  cooldown-Adds :
      (last : Option Time) (over : Bool) → Adds quiet (cooldown env config now last over)
  unfolding cooldown after_cooldown
  cooldown-Adds last true = Adds-bind _ sense-Adds (λ holds.
      Adds-bind _ (Adds-ignoring _ warn_layout_unknown-Adds) (λ _. decide-Adds last holds))
  cooldown-Adds last false = Adds-pure _

  pub run_stall_tick-Adds : Adds quiet (run_stall_tick env config now)
  unfolding run_stall_tick
  run_stall_tick-Adds = Adds-bind _ (Adds-read env passes _) (λ last. cooldown-Adds last _)
