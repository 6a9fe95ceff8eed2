-- ===== src/Tests/WatchdogTests.antt =====
-- The watchdog at work.
use openstudio_server_operat.Base.{◌+◌, ◌≤◌, List, [], ◌∷◌, ◌≡◌, refl, arith, str_dec, ℕ_discrete}
use openstudio_server_operat.Base.Dict.{lookup, insert, erase, erase_all, keys, has}
use openstudio_server_operat.Clock.{Time, minutes}
use openstudio_server_operat.Config.{default_config}
use openstudio_server_operat.Status.{requeue_dec}
use openstudio_server_operat.World.{World, ◌>>=◌, when, call, ask, for_each}
use openstudio_server_operat.World.Grows.{count_done}
use openstudio_server_operat.Store.{
  read, is_entry, write_map, set_requeue, set_started_since, clear_started_since,
}
use openstudio_server_operat.Store.Cap.{capped_insert}
use openstudio_server_operat.Emitter.{emit}
use openstudio_server_operat.Watchdog.{
  run_watchdog_tick, watch, watch_loop, watch_one, watch_clock, judge, requeue, warn_exhausted,
  start_clocks, budget_of,
}
use openstudio_server_operat.Watchdog.Hygiene.{datapoint_ids, anchor_hygiene, run_anchor_hygiene}
use openstudio_server_operat.World.Triple.{After}
use openstudio_server_operat.Watchdog.Budget.{requeued, limit, Within}
use openstudio_server_operat.Watchdog.Prune.{KeepsCount, anchor_hygiene-KeepsCount}
use openstudio_server_operat.Watchdog.Ticks.{
  run_ticks, requeued-le_limit, AllRoomy, run_watchdog_tick-Within,
}
use openstudio_server_operat.Tests.Samples.{server, start}

program : Unit {0}
unfolding lookup insert erase erase_all keys has minutes requeue_dec ◌>>=◌ when call ask for_each
    count_done read is_entry write_map set_requeue set_started_since clear_started_since
    capped_insert emit run_watchdog_tick watch watch_loop watch_one watch_clock judge requeue
    warn_exhausted start_clocks budget_of datapoint_ids anchor_hygiene run_anchor_hygiene run_ticks
    str_dec ℕ_discrete
program = tt

-- First sight, a tick one minute past the runtime limit, and one much later.
abbrev nows : List Time
nows = 0 ∷ 2760000000 ∷ 9000000000 ∷ []

-- Two requeues, both counted.
two_requeues : requeued "d1" (run_ticks server default_config nows start).1 ≡ 2
unfolding program
two_requeues = refl

nows-AllRoomy : AllRoomy server default_config nows start
unfolding program
nows-AllRoomy = omega arith

requeued-le_limit_example :
    requeued "d1" (run_ticks server default_config nows start).1
    ≤ limit default_config + (run_ticks server default_config nows start).0
unfolding program
requeued-le_limit_example =
    requeued-le_limit server default_config "d1" nows start nows-AllRoomy (λ t. refl) refl refl

run_watchdog_tick-Within_example :
    After
      (λ _ w'. Within (limit default_config) 0 start w' "d1")
      (λ w'. Within (limit default_config) 1 start w' "d1")
      (run_watchdog_tick server default_config 5 start)
unfolding datapoint_ids str_dec
run_watchdog_tick-Within_example =
    run_watchdog_tick-Within server default_config 5 "d1" start nows-AllRoomy.0 (λ t. refl)

-- The tenth tick of the process runs the pass.
abbrev ninth : World
ninth = record start { prune_state = record start.prune_state { ticks = 9 } }

anchor_hygiene-KeepsCount_example :
    After
      (λ _ w'. KeepsCount "d1" ninth w')
      (KeepsCount "d1" ninth)
      (anchor_hygiene server default_config ("d1" ∷ []) ninth)
unfolding datapoint_ids str_dec
anchor_hygiene-KeepsCount_example =
    anchor_hygiene-KeepsCount server "d1" default_config ("d1" ∷ []) ninth (λ t. refl)
