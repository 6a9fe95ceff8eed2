-- ===== src/WebBackground/Streak.antt =====
-- What the window tracker knows after any history of ticks, newest first, each by its verdict and
-- its time.
use openstudio_server_operat.Base.{
  ◌+◌, ◌≤◌, Bool, true, false, not, Option, none, some, List, [], ◌∷◌, ◌≡◌, refl, ap, sym, ◌∙◌,
  arith, leb, any, ◌||◌, if◌then◌else◌,
}
use openstudio_server_operat.Clock.{Time}
use openstudio_server_operat.World.{StallWindowTracker}
use openstudio_server_operat.WebBackground.Window.{or_now, no_window, track}

abbrev pub History : Type 0
History = List (Bool × Time)

-- The tracker once the whole history has been observed.
unfoldable pub tracked : Time → History → StallWindowTracker
tracked window [] = no_window
tracked window ((holds, now) ∷ earlier) = (track (tracked window earlier) holds now window).0

abbrev pub same_verdict : Bool → Bool → Bool
same_verdict true holds = holds
same_verdict false holds = not holds

-- The times of the newest ticks, as long as they have the verdict.
abbrev pub streak : Bool → History → List Time
streak verdict [] = []
streak verdict ((holds, now) ∷ earlier) =
    if same_verdict verdict holds then now ∷ streak verdict earlier else []

abbrev pub oldest : List Time → Option Time
oldest [] = none
oldest (t ∷ ts) = some (or_now t (oldest ts))

-- No tick is older than one that comes before it.
abbrev pub Falling : List Time → Type 0
Falling [] = Unit
Falling (t ∷ ts) = (or_now t (oldest ts) ≤ t) × Falling ts

-- The ticks that are a whole window old.
abbrev pub reached : Time → Time → Time → Bool
reached now window t = leb (t + window) now

-- The tracker holds the begin of the current streak of stalled ticks, and of clean ones.
pub tracked-streak :
    (window : Time) (history : History)
    → ((tracked window history).first_observed ≡ oldest (streak true history))
      × ((tracked window history).first_clean ≡ oldest (streak false history))
unfolding tracked track
tracked-streak window [] = (refl, refl)
tracked-streak window ((true, now) ∷ earlier) =
    (ap (λ o. some (or_now now o)) (tracked-streak window earlier).0, refl)
tracked-streak window ((false, now) ∷ earlier) =
    (refl, ap (λ o. some (or_now now o)) (tracked-streak window earlier).1)

or_false : (b : Bool) → b || false ≡ b
or_false b = ground arith

-- What an older time has reached decides for all of them.
reached_older :
    (now window old t : Time)
    → old ≤ t
    → reached now window t || reached now window old ≡ reached now window old
reached_older now window old t h = ground arith

any-reached :
    (now window t : Time) (ts : List Time)
    → Falling (t ∷ ts)
    → any (reached now window) (t ∷ ts) ≡ reached now window (or_now t (oldest ts))
any-reached now window t [] f = or_false (reached now window t)
any-reached now window t (u ∷ us) f =
    ap (λ b. reached now window t || b) (any-reached now window u us f.1)
    ∙ reached_older now window (or_now u (oldest us)) t f.0

-- With ticks in the order of their times, the window is sustained exactly when some tick of the
-- current stalled streak, this one included, is a whole window old; a clean tick never sustains it.
pub sustained-streak :
    (window now : Time) (holds : Bool) (earlier : History)
    → Falling (streak true ((holds, now) ∷ earlier))
    → (track (tracked window earlier) holds now window).1
      ≡ any (reached now window) (streak true ((holds, now) ∷ earlier))
unfolding track
sustained-streak window now false earlier f = refl
sustained-streak window now true earlier f =
    ap (λ o. leb (or_now now o + window) now) (tracked-streak window earlier).0
    ∙ sym (any-reached now window now (streak true earlier) f)
