-- ===== src/Recycler/Runs.antt =====
-- A series of recycler ticks, each at its own time, with a server that may refuse any call.
use openstudio_server_operat.Base.{
  Bool, true, false, Option, none, some, List, [], ◌∷◌, ◌≡◌, ◌⊎◌, refl, inl, inr, arith, ltb,
  if◌then◌else◌,
}
use openstudio_server_operat.Clock.{Time}
use openstudio_server_operat.Config.{OperatorConfig}
use openstudio_server_operat.World.{Env, World, Outcome, ok, raise}
use openstudio_server_operat.World.Triple.{After, returns, raises, After-and}
use openstudio_server_operat.Recycler.{Trigger, run_recycler_tick, due}
use openstudio_server_operat.Recycler.Gate.{
  cooldown, restarts, Settled, Behind, run_recycler_tick-Settled, run_recycler_tick-Behind,
}

-- A recycle: its time, and whether its tick has reported it.
abbrev pub Recycle : Type 0
Recycle = Time × Bool

-- Each recycle comes more than `span` after the latest reported one before it, or after `last`.
abbrev pub SpacedRecycles : Time → Option Time → List Recycle → Type 0
SpacedRecycles span last [] = Unit
SpacedRecycles span last ((t, reported) ∷ rs) =
    (due t last span ≡ true) × SpacedRecycles span (if reported then some t else last) rs

abbrev note_unreported : Bool → Time → List Recycle → List Recycle
note_unreported true now rs = (now, false) ∷ rs
note_unreported false now rs = rs

-- The recycle of a tick, before the later ones: a reported one, or a restart that the cluster has accepted in a tick
-- that did not report it.
abbrev pub note_fired : Outcome (Option Trigger) → Bool → Time → List Recycle → List Recycle
note_fired (ok (some _)) restarted now rs = (now, true) ∷ rs
note_fired (ok none) restarted now rs = note_unreported restarted now rs
note_fired (raise _) restarted now rs = note_unreported restarted now rs

abbrev has_restarted : World → World → Bool
has_restarted w w' = ltb (restarts w) (restarts w')

module _ (env : Env) (config : OperatorConfig) where
  -- The timer calls the tick again and again, after a tick that raises too.
  unfoldable pub fired_times : List Time → World → List Recycle
  fired_times [] w = []
  fired_times (now ∷ later) w =
      let (r, w') = run_recycler_tick env config now w in
      note_fired r (has_restarted w w') now (fired_times later w')

  -- What is known of one tick.
  abbrev Known : Time → World → Option Trigger → World → Type 0
  Known now w r w' =
      (Settled env config now w r w'
        × ((r ≡ none) ⊎ (due now w.status.last_recycle_at (cooldown config) ≡ true)))
      × Behind env config now w w'

  Spaced-restart :
      (now : Time) (w w' : World) (b : Bool) (rs : List Recycle)
      → has_restarted w w' ≡ b
      → Behind env config now w w'
      → SpacedRecycles (cooldown config) w.status.last_recycle_at rs
      → SpacedRecycles (cooldown config) w.status.last_recycle_at (note_unreported b now rs)
  Spaced-restart now w w' false rs e h ih = ih
  Spaced-restart now w w' true rs e (inl unchanged) ih = absurd (ground arith)
  Spaced-restart now w w' true rs e (inr ready) ih = (ready, ih)

  Spaced-step :
      (now : Time) (w : World) (x : Outcome (Option Trigger) × World) (later : List Recycle)
      → After (Known now w) (λ w'. (w'.status ≡ w.status) × Behind env config now w w') x
      → SpacedRecycles (cooldown config) x.1.status.last_recycle_at later
      → SpacedRecycles
          (cooldown config)
          w.status.last_recycle_at
          (note_fired x.0 (has_restarted w x.1) now later)
  Spaced-step now w x later (returns {a = none} {w = w'} h) ih =
      Spaced-restart now w w' _ later refl h.1 (rw h.0.0 at ih)
  Spaced-step now w x later (returns {a = some trigger} h) ih = (ground arith, rw h.0.0 at ih)
  Spaced-step now w x later (raises {w = w'} h) ih =
      Spaced-restart now w w' _ later refl h.1 (rw h.0 at ih)

  -- Whatever the server answers or refuses, and whatever the times of the ticks: every recycle - one that a tick
  -- reports, or a restart that the cluster accepted in a tick that then raised - comes more than the cooldown after
  -- the latest reported one before it, the first ones after the anchor at the start. A restart of a tick that raised
  -- does not move the anchor, and so does not hold back the next one.
  pub fired_times-Spaced :
      (nows : List Time) (w : World)
      → SpacedRecycles (cooldown config) w.status.last_recycle_at (fired_times nows w)
  unfolding fired_times
  fired_times-Spaced [] w = tt
  fired_times-Spaced (now ∷ later) w =
      Spaced-step now w _ _
        (After-and (run_recycler_tick-Settled env config now w)
          (run_recycler_tick-Behind env config now w))
        (fired_times-Spaced later _)
