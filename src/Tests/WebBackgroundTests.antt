-- ===== src/Tests/WebBackgroundTests.antt =====
-- The web-background monitor at work.
use openstudio_server_operat.Base.{
  none, some, [], ◌∷◌, ◌≡◌, refl, arith, str_dec, ℕ_discrete, true, false, List,
}
use openstudio_server_operat.Base.Texts.{append, join}
use openstudio_server_operat.Base.Dict.{lookup}
use openstudio_server_operat.Clock.{Time, minutes, seconds}
use openstudio_server_operat.Config.{default_config}
use openstudio_server_operat.World.{World, ◌>>=◌, when, call, ask, on_raise, ignoring}
use openstudio_server_operat.World.Triple.{After}
use openstudio_server_operat.Store.{
  read, set_scalar, set_last_web_background_restart_at, set_stall_window_started_at,
  set_ineffective_restarts,
}
use openstudio_server_operat.Store.Cap.{sorted}
use openstudio_server_operat.Emitter.{emit}
use openstudio_server_operat.Kube.{
  deployment_label_selector, label_selector, selector_terms, add_terms,
}
use openstudio_server_operat.Resque.{
  queue_depth, parsed_beat, beats_of, heartbeats_of, worker_heartbeats, stale_workers,
}
use openstudio_server_operat.WebBackground.{
  backoff_windows, warn_layout_unknown, blind, restore_from, restore, observe, checkpoint, is_armed,
  disarm, conclude_clean, count_ineffective, fire, fire_unless_deferred, decide, sense,
  after_cooldown, cooldown, run_stall_tick, stall_window,
}
use openstudio_server_operat.WebBackground.Sensing.{
  pods_healthy, worker_pods_healthy, nobody_processes, stall_condition_holds,
}
use openstudio_server_operat.WebBackground.Window.{track}
use openstudio_server_operat.WebBackground.Streak.{
  History, tracked, tracked-streak, sustained-streak,
}
use openstudio_server_operat.WebBackground.Ticks.{Settled, Broken, run_stall_tick-Settled}
use openstudio_server_operat.WebBackground.Runs.{Spaced, restart_times, restart_times-Spaced}
use openstudio_server_operat.Tests.Samples.{server, start}

program : Unit {0}
unfolding minutes seconds ◌>>=◌ when call ask on_raise ignoring read set_scalar
    set_last_web_background_restart_at set_stall_window_started_at set_ineffective_restarts emit
    deployment_label_selector label_selector selector_terms add_terms queue_depth parsed_beat
    beats_of heartbeats_of worker_heartbeats stale_workers backoff_windows warn_layout_unknown blind
    restore_from restore observe checkpoint is_armed disarm conclude_clean count_ineffective fire
    fire_unless_deferred decide sense after_cooldown cooldown run_stall_tick pods_healthy
    worker_pods_healthy nobody_processes stall_condition_holds track restart_times str_dec
    ℕ_discrete append join lookup sorted
program = tt

-- The default window is ten minutes and the queue is stalled at every tick: the restart comes once
-- the window is full, and again once it has filled up anew after the cooldown.
abbrev nows : List Time
nows = 0 ∷ 600000000 ∷ 900000000 ∷ 1300000000 ∷ 1900000000 ∷ []

two_restarts : restart_times server default_config nows start ≡ 600000000 ∷ 1900000000 ∷ []
unfolding program
two_restarts = refl

-- The world after the first of them.
abbrev restarted : World
restarted = record start {
  status = record start.status { last_web_background_restart_at = some 600000000 };
}

restart_times-Spaced_example :
    Spaced
      (stall_window default_config)
      (some 600000000)
      (restart_times server default_config (900000000 ∷ 1300000000 ∷ 1900000000 ∷ []) restarted)
restart_times-Spaced_example =
    restart_times-Spaced server default_config (900000000 ∷ 1300000000 ∷ 1900000000 ∷ []) restarted
      (omega arith, (omega arith, (omega arith, tt)))

run_stall_tick-Settled_example :
    After
      (Settled server default_config 600000000 start)
      (Broken server default_config 600000000 start)
      (run_stall_tick server default_config 600000000 start)
run_stall_tick-Settled_example = run_stall_tick-Settled server default_config 600000000 start

-- A stall of three ticks after a clean one, newest first.
abbrev history : History
history = (true, 30) ∷ (true, 20) ∷ (true, 10) ∷ (false, 5) ∷ []

tracked-streak_example :
    ((tracked 20 history).first_observed ≡ some 10) × ((tracked 20 history).first_clean ≡ none)
tracked-streak_example = tracked-streak 20 history

sustained-streak_example :
    (track (tracked 20 ((true, 20) ∷ (true, 10) ∷ (false, 5) ∷ [])) true 30 20).1 ≡ true
sustained-streak_example =
    sustained-streak 20 30 true ((true, 20) ∷ (true, 10) ∷ (false, 5) ∷ [])
      (omega arith, (omega arith, (omega arith, tt)))
