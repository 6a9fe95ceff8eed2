-- ===== src/WebBackground/Runs.antt =====
-- A series of ticks of the web-background monitor, with services that may refuse any call.
use openstudio_server_operat.Base.{
  ◌+◌, ◌≤◌, ◌<◌, Bool, true, false, Option, none, some, List, [], ◌∷◌, ◌≡◌, ◌⊎◌, inl, inr, refl,
  ◌∙◌, arith,
}
use openstudio_server_operat.Clock.{Time}
use openstudio_server_operat.Config.{OperatorConfig}
use openstudio_server_operat.World.{Env, World, Outcome, ok, raise}
use openstudio_server_operat.World.Triple.{After, returns, raises}
use openstudio_server_operat.Recycler.{due}
use openstudio_server_operat.WebBackground.{run_stall_tick, stall_window}
use openstudio_server_operat.WebBackground.Steps.{Moved, stays}
use openstudio_server_operat.WebBackground.Ticks.{Settled, Broken, run_stall_tick-Settled}

-- Each time is at or after the one before it, the first at or after `low`.
abbrev pub Rising : Time → List Time → Type 0
Rising low [] = Unit
Rising low (t ∷ ts) = (low ≤ t) × Rising t ts

-- Each time lies more than `span` after the one before it, the first after `last`.
abbrev pub Spaced : Time → Option Time → List Time → Type 0
Spaced span last [] = Unit
Spaced span last (t ∷ ts) = (due t last span ≡ true) × Spaced span (some t) ts

-- The time of a tick that reports a restart, before the times of the later ones.
abbrev pub note_restart : Outcome Bool → Time → List Time → List Time
note_restart (ok true) now ts = now ∷ ts
note_restart (ok false) now ts = ts
note_restart (raise _) now ts = ts

-- The anchor accounts for the last reported restart, or the cooldown after that restart is over for
-- every tick to come.
abbrev Covers : Time → Option Time → World → Time → Type 0
Covers span none w low = Unit
Covers span (some l) w low =
    ((at : Time) × (w.status.last_web_background_restart_at ≡ some at) × (l ≤ at))
    ⊎ (l + span < low)

Covers-due :
    (span : Time) (prev : Option Time) (w : World) (now : Time)
    → Covers span prev w now
    → due now w.status.last_web_background_restart_at span ≡ true
    → due now prev span ≡ true
Covers-due span none w now c d = refl
Covers-due span (some l) w now (inl (at, e, h)) d = ground arith
Covers-due span (some l) w now (inr h) d = ground arith

Covers-kept :
    (span : Time) (prev : Option Time) (w w' : World) (low now : Time)
    → low ≤ now
    → w'.status.last_web_background_restart_at ≡ w.status.last_web_background_restart_at
    → Covers span prev w low
    → Covers span prev w' now
Covers-kept span none w w' low now h e c = tt
Covers-kept span (some l) w w' low now h e (inl (at, p, q)) = inl (at, e ∙ p, q)
Covers-kept span (some l) w w' low now h e (inr q) = inr (omega arith)

Covers-over :
    (span : Time) (prev : Option Time) (w : World) (now : Time)
    → due now prev span ≡ true
    → Covers span prev w now
Covers-over span none w now d = tt
Covers-over span (some l) w now d = inr (ground arith)

module _ (env : Env) (config : OperatorConfig) where
  -- The timer calls the tick again and again; a tick that raises is skipped.
  unfoldable pub restart_times : List Time → World → List Time
  restart_times [] w = []
  restart_times (now ∷ later) w =
      let (r, w') = run_stall_tick env config now w in note_restart r now (restart_times later w')

  abbrev span : Time
  span = stall_window config

  Spaced-tick :
      (prev : Option Time) (low now : Time) (w : World) (x : Outcome Bool × World)
      (later : List Time)
      → low ≤ now
      → Covers span prev w low
      → After (Settled env config now w) (Broken env config now w) x
      → ((p : Option Time) → Covers span p x.1 now → Spaced span p later)
      → Spaced span prev (note_restart x.0 now later)
  Spaced-tick prev low now w x later h c (returns {a = true} (inl (e, _))) rest = cc
  Spaced-tick prev low now w x later h c (returns {a = true} {w = w'} (inr (d, fired))) rest = (
    Covers-due span prev w now (Covers-kept span prev w w low now h refl c) d,
    rest (some now) (inl (now, ground (arith, fired.after.status_after), omega arith)),
  )
  Spaced-tick prev low now w x later h c (returns {a = false} {w = w'} (inl (_, e))) rest =
      rest prev (Covers-kept span prev w w' low now h (ground (arith, e)) c)
  Spaced-tick prev low now w x later h c (returns {a = false} {w = w'} (inr (d, inl e))) rest =
      rest prev (Covers-kept span prev w w' low now h e c)
  Spaced-tick prev low now w x later h c (returns {a = false} {w = w'} (inr (d, inr e))) rest =
      rest prev (
        Covers-over span prev w' now
          (Covers-due span prev w now (Covers-kept span prev w w low now h refl c) d))
  Spaced-tick prev low now w x later h c (raises {w = w'} (inl e)) rest =
      rest prev (Covers-kept span prev w w' low now h (ground (arith, e)) c)
  Spaced-tick prev low now w x later h c (raises {w = w'} (inr (d, m))) rest =
      rest prev (Covers-moved m)
    where
      Covers-moved : Moved env config now w.status w' → Covers span prev w' now
      Covers-moved (stays e) = Covers-kept span prev w w' low now h e c
      Covers-moved _ =
          Covers-over span prev w' now
            (Covers-due span prev w now (Covers-kept span prev w w low now h refl c) d)

  Spaced-run :
      (nows : List Time) (prev : Option Time) (low : Time) (w : World)
      → Rising low nows
      → Covers span prev w low
      → Spaced span prev (restart_times nows w)
  unfolding restart_times
  Spaced-run [] prev low w h c = tt
  Spaced-run (now ∷ later) prev low w h c =
      Spaced-tick prev low now w _ _ h.0 c (run_stall_tick-Settled env config now w)
        (λ p c'. Spaced-run later p now _ h.1 c')

  Covers-anchor : (w : World) → Covers span w.status.last_web_background_restart_at w 0
  Covers-anchor w = split w.status.last_web_background_restart_at refl
    where
      split : (o : Option Time) → w.status.last_web_background_restart_at ≡ o → Covers span o w 0
      split none e = tt
      split (some l) e = inl (l, e, omega arith)

  -- Over any series of ticks whose times do not fall, whatever the services answer or refuse: two
  -- reported restarts are always more than a stall window apart, the first one counted from the anchor
  -- at the start.
  pub restart_times-Spaced :
      (nows : List Time) (w : World)
      → Rising 0 nows
      → Spaced span w.status.last_web_background_restart_at (restart_times nows w)
  restart_times-Spaced nows w h = Spaced-run nows _ 0 w h (Covers-anchor w)
