-- ===== src/WebBackground/Steps.antt =====
-- What each step of a tick of the web-background monitor leaves behind.
use openstudio_server_operat.Base.{
  ℕ, ◌+◌, Bool, true, false, not, Option, none, some, ◌≡◌, refl, ◌∙◌, arith, is_none, ◌&&◌,
}
use openstudio_server_operat.Clock.{Time}
use openstudio_server_operat.Config.{OperatorConfig}
use openstudio_server_operat.Status.{Status}
use openstudio_server_operat.World.{Env, World, ◌>>=◌, ◌>>◌, pure, when}
use openstudio_server_operat.World.Triple.{
  After, returns, exec_gets, exec_update, After-if, After-step, After-when, After-mono,
  After-on_raise,
}
use openstudio_server_operat.World.Keeps.{Sensed, Sensed-trans, Keeps-when, Keeps-call}
use openstudio_server_operat.Store.{
  or_zero, set_stall_window_started_at, set_last_web_background_restart_at,
}
use openstudio_server_operat.Store.Scalars.{
  read-After, exec_read, set_last_web_background_restart_at-After,
  set_stall_window_started_at-After, set_ineffective_restarts-After,
}
use openstudio_server_operat.WebBackground.{
  blind, restore_from, restore, observe, checkpoint, count_ineffective, set_tracker, fire,
  fire_unless_deferred, sense, stall_window, is_deferred,
}
use openstudio_server_operat.WebBackground.Window.{no_window, track}
use openstudio_server_operat.WebBackground.Senses.{stall_condition_holds-Keeps, emit-Keeps}

-- The status has changed in the window's begin only.
pub record Near (w w' : World) : Type 0 where
  pub near :
      w'.status ≡ record w.status { stall_window_started_at = w'.status.stall_window_started_at }

-- Where the window of a stalled tick begins: as the tracker has it, or as the status has it.
abbrev pub begun : World → Option Time
begun w = elim w.tracker.first_observed [
  | none ↦ w.status.stall_window_started_at
  | some t ↦ some t
]

-- The count of ineffective restarts once a restart has fired on the anchor that was read.
abbrev pub counted : Option Time → Option ℕ → Option ℕ
counted none count = count
counted (some last) count = some (or_zero count + 1)

-- The backoff that the count asks for is running.
abbrev pub deferred : Time → Time → Option Time → Option ℕ → Bool
deferred now window none count = false
deferred now window (some last) count = is_deferred now window last (or_zero count)

module _ {w w' : World} where
  pub Near-Sensed : Sensed w w' → Near w w'
  Near-Sensed h = record { near = ground (arith, h.status_kept) }

pub Near-trans : {u v w : World} → Near u v → Near v w → Near u w
Near-trans g h = record { near = ground (arith, g.near, h.near) }

module _ (env : Env) (config : OperatorConfig) (now : Time) where
  blind-Near : (w : World) → After (λ _. Near w) (Near w) (blind env config now w)
  unfolding blind ◌>>=◌
  blind-Near w =
      After-mono (set_stall_window_started_at-After env (record w { tracker = no_window }) none)
        (λ _ w' h. record { near = ground (arith, h.0) })
        (λ w' h. record { near = ground (arith, h.status_kept) })

  pub sense-After : (w : World) → After (λ _. Sensed w) (Near w) (sense env config now w)
  unfolding sense
  sense-After w = After-on_raise _ _ w (stall_condition_holds-Keeps env config now w) (λ w' h.
      After-mono (blind-Near w') (λ _ w'' h'. Near-trans (Near-Sensed h) h')
        (λ w'' h'. Near-trans (Near-Sensed h) h'))

  -- The tracker before it observes a stalled tick.
  pub record Restored (w w' : World) : Type 0 where
    pub status_same : w'.status ≡ w.status
    pub begun_here : w'.tracker.first_observed ≡ begun w

  restore_from-After :
      (o : Option Time) (w : World)
      → w.tracker.first_observed ≡ none
      → o ≡ w.status.stall_window_started_at
      → After (λ _. Restored w) (Near w) (restore_from env config now o w)
  unfolding restore_from
  restore_from-After none w e p = returns (record { status_same = refl; begun_here = ground arith })
  restore_from-After (some t) w e p =
      returns (record { status_same = refl; begun_here = ground arith })

  pub restore_if_begun-After :
      (w : World)
      → After
          (λ _. Restored w)
          (Near w)
          (when (true && is_none w.tracker.first_observed) (restore env config now) w)
  unfolding restore when
  restore_if_begun-After w = split w.tracker.first_observed refl
    where
      split :
          (o : Option Time)
          → w.tracker.first_observed ≡ o
          → After (λ _. Restored w) (Near w) (when (true && is_none o) (restore env config now) w)
      split none e =
          After-step _ w (read-After env _ w)
            (λ o w' h.
              After-mono (restore_from-After o w' (ground (arith, h.1)) (ground (arith, h.0, h.1)))
                (λ _ w'' h'. record {
                  status_same = ground (arith, h.1, h'.status_same);
                  begun_here = ground (arith, h'.begun_here, h.1);
                })
                (λ w'' h'. record { near = ground (arith, h.1, h'.near) }))
            (λ w' h. record { near = ground (arith, h) })
      split (some t) e = returns (record { status_same = refl; begun_here = ground (arith, e) })

  -- The anchor of the last restart after a tick that raises.
  pub data Moved (s : Status) (w' : World) : Type 0 where
    stays : w'.status.last_web_background_restart_at ≡ s.last_web_background_restart_at → Moved s w'
    moved : w'.status.last_web_background_restart_at ≡ some now → Moved s w'

  pub Moved-Near : {w w' : World} → Near w w' → Moved w.status w'
  Moved-Near h = stays (ground (arith, h.near))

  pub Near-Moved : {u v w : World} → Near u v → Moved v.status w → Moved u.status w
  Near-Moved g (stays h) = stays (ground (arith, g.near, h))
  Near-Moved g (moved h) = moved h

  count_ineffective-After :
      (last : Option Time) (w : World)
      → After
          (λ _ w'.
            w'.status
            ≡ record w.status { ineffective_restarts = counted last w.status.ineffective_restarts })
          (λ w'. w'.status.last_web_background_restart_at ≡ w.status.last_web_background_restart_at)
          (count_ineffective env config now last w)
  unfolding count_ineffective
  count_ineffective-After none w = returns refl
  count_ineffective-After (some last) w =
      exec_read env _ _ w
        (After-step _ _ (set_ineffective_restarts-After env _ _)
          (λ _ w' h.
            After-mono (Keeps-when _ _ (emit-Keeps env config now _ _ _) w')
              (λ _ w'' h'. h'.status_kept ∙ h.0) (λ w'' h'. ground (arith, h'.status_kept, h.0)))
          (λ w' h. ground (arith, h.status_kept)))
        refl

  -- A restart that has fired.
  pub record Restarted (last : Option Time) (s : Status) (w' : World) : Type 0 where
    pub status_after : w'.status ≡ record s {
      last_web_background_restart_at = some now;
      stall_window_started_at = none;
      ineffective_restarts = counted last s.ineffective_restarts;
    }
    pub tracker_after : w'.tracker ≡ no_window

  fire-After :
      (last : Option Time) (w : World)
      → After
          (λ r w'. (r ≡ true) × Restarted last w.status w')
          (Moved w.status)
          (fire env config now last w)
  unfolding fire
  fire-After last w =
      After-step _ w (Keeps-when (not config.dry_run) _ (Keeps-call env _) w)
        (λ _ w₁ k₁.
          After-step _ w₁ (emit-Keeps env config now _ _ _ w₁)
            (λ _ w₂ k₂. spent w₂ (Sensed-trans k₁ k₂))
            (λ w₂ k₂. stays (ground (arith, k₁.status_kept, k₂.status_kept))))
        (λ w₁ k₁. stays (ground (arith, k₁.status_kept)))
    where
      spent :
          (w₂ : World)
          → Sensed w w₂
          → After
              (λ r w'. (r ≡ true) × Restarted last w.status w')
              (Moved w.status)
              ((do
                set_stall_window_started_at env none
                set_last_web_background_restart_at env (some now)
                count_ineffective env config now last
                set_tracker (λ _. no_window)
                pure true)
                w₂)
      spent w₂ k =
          After-step _ w₂ (set_stall_window_started_at-After env w₂ none)
            (λ _ w₃ h₃.
              After-step _ w₃ (set_last_web_background_restart_at-After env w₃ (some now))
                (λ _ w₄ h₄.
                  After-step _ w₄ (count_ineffective-After last w₄)
                    (λ _ w₅ h₅. exec_update _ _ w₅ (
                      returns (
                        refl,
                        record {
                          status_after = ground (arith, k.status_kept, h₃.0, h₄.0, h₅);
                          tracker_after = refl;
                        },
                      )))
                    (λ w₅ h₅. moved (ground (arith, h₄.0, h₅))))
                (λ w₄ h₄. stays (ground (arith, k.status_kept, h₃.0, h₄.status_kept))))
            (λ w₃ h₃. stays (ground (arith, k.status_kept, h₃.status_kept)))

  abbrev pub window : Time
  window = stall_window config

  -- What the decision does about a sustained stall.
  abbrev pub Acted : Option Time → Status → Bool → World → Type 0
  Acted last s true w' =
      Restarted last s w' × (deferred now window last s.ineffective_restarts ≡ false)
  Acted last s false w' = w'.status ≡ s

  fire-Acted :
      (last : Option Time) (w : World)
      → deferred now window last w.status.ineffective_restarts ≡ false
      → After (Acted last w.status) (Moved w.status) (fire env config now last w)
  fire-Acted last w d = After-mono (fire-After last w) (λ r w' h. rw h.0 (h.1, d)) (λ w' h. h)

  pub fire_unless_deferred-After :
      (last : Option Time) (w : World)
      → After (Acted last w.status) (Moved w.status) (fire_unless_deferred env config now last w)
  unfolding fire_unless_deferred
  fire_unless_deferred-After none w = fire-Acted none w refl
  fire_unless_deferred-After (some last) w =
      exec_read env _ _ w (After-if _ _ _ _ (λ d. returns refl) (λ d. fire-Acted (some last) _ d))
        (stays refl)

  pub observe-After :
      (holds : Bool) (w : World) {E : World → Type 0}
      → After
          (λ r w'.
            (r ≡ (track w.tracker holds now window).1)
            × (w' ≡ record w { tracker = (track w.tracker holds now window).0 }))
          E
          (observe env config now holds w)
  unfolding observe ◌>>=◌
  observe-After holds w = returns (refl, refl)

  pub checkpoint-Near :
      (window_began holds : Bool) (w : World)
      → After (λ _. Near w) (Near w) (checkpoint env config now window_began holds w)
  unfolding checkpoint
  checkpoint-Near true holds w = exec_gets _ _ w (
      After-mono (set_stall_window_started_at-After env w _)
        (λ _ w' h. record { near = ground (arith, h.0) }) (λ w' h. Near-Sensed h))
  checkpoint-Near false holds w =
      After-when (not holds) _ w
        (λ _.
          After-mono (set_stall_window_started_at-After env w _)
            (λ _ w' h. record { near = ground (arith, h.0) }) (λ w' h. Near-Sensed h))
        (λ _. record { near = refl })
