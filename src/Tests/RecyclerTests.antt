-- ===== src/Tests/RecyclerTests.antt =====
-- The recycler at work.
use openstudio_server_operat.Base.{
  none, some, List, [], ◌∷◌, ◌≡◌, ◌⊎◌, refl, str_dec, ℕ_discrete, true, false,
}
use openstudio_server_operat.Clock.{Time, minutes, hours}
use openstudio_server_operat.Config.{default_config}
use openstudio_server_operat.World.{Call, World, ◌>>=◌, when, call, ask, Env}
use openstudio_server_operat.World.Triple.{After}
use openstudio_server_operat.Store.{read, set_last_recycle_at}
use openstudio_server_operat.Emitter.{emit}
use openstudio_server_operat.Recycler.{
  due, run_recycler_tick, after_gate, recycle_if, recycle, gate, armed_trigger,
}
use openstudio_server_operat.Recycler.Gate.{cooldown, Settled, run_recycler_tick-Settled}
use openstudio_server_operat.Recycler.Runs.{fired_times, SpacedRecycles, fired_times-Spaced}
use openstudio_server_operat.World.Grows.{count_done}
use openstudio_server_operat.Tests.Samples.{server, start}

program : Unit {0}
unfolding minutes hours ◌>>=◌ when call ask read set_last_recycle_at emit run_recycler_tick
    after_gate recycle_if recycle gate armed_trigger fired_times count_done str_dec ℕ_discrete
program = tt

-- The default cooldown is 30 minutes: the second tick comes too early, the third fires.
abbrev nows : List Time
nows = 60000000 ∷ 1000000000 ∷ 1900000000 ∷ []

two_recycles :
    fired_times server default_config nows start ≡ (60000000, true) ∷ (1900000000, true) ∷ []
unfolding program
two_recycles = refl

-- A server that never takes the anchor: each tick makes a restart and raises.
abbrev forgetful : Env
forgetful = record server {
  refuses = λ t c. elim c [ Call.patch_last_recycle_at ↦ some 500 | _ ↦ none ];
}

two_unreported :
    fired_times forgetful default_config (60000000 ∷ 120000000 ∷ []) start
    ≡ (60000000, false) ∷ (120000000, false) ∷ []
unfolding program
two_unreported = refl

-- The world after the first of them.
abbrev recycled : World
recycled = record start { status = record start.status { last_recycle_at = some 60000000 } }

fired_times-Spaced_example :
    SpacedRecycles
      (cooldown default_config)
      (some 60000000)
      (fired_times server default_config nows recycled)
fired_times-Spaced_example = fired_times-Spaced server default_config nows recycled

run_recycler_tick-Settled_example :
    After
      (λ r w'.
        Settled server default_config 60000000 start r w'
        × ((r ≡ none) ⊎ (due 60000000 none (cooldown default_config) ≡ true)))
      (λ w'. w'.status ≡ start.status)
      (run_recycler_tick server default_config 60000000 start)
run_recycler_tick-Settled_example = run_recycler_tick-Settled server default_config 60000000 start
