-- ===== src/WebBackground/Ticks.antt =====
-- What one tick of the web-background monitor does.
use openstudio_server_operat.Base.{
  ◌+◌, Bool, true, false, Option, none, some, ◌≡◌, ◌⊎◌, inl, inr, refl, arith, leb, if◌then◌else◌,
}
use openstudio_server_operat.Clock.{Time}
use openstudio_server_operat.Config.{OperatorConfig}
use openstudio_server_operat.Status.{Status}
use openstudio_server_operat.World.{Env, World, pure, when}
use openstudio_server_operat.World.Triple.{
  After, returns, exec_gets, exec_update, After-if, After-step, After-when, After-mono,
  After-ignoring,
}
use openstudio_server_operat.World.Keeps.{Sensed, Sensed-refl, Sensed-trans}
use openstudio_server_operat.Store.Scalars.{
  exec_read, set_last_web_background_restart_at-After, set_ineffective_restarts-After,
}
use openstudio_server_operat.Recycler.{due}
use openstudio_server_operat.WebBackground.{
  is_armed, disarm, conclude_clean, fire_unless_deferred, decide, after_cooldown, cooldown,
  run_stall_tick, stall_window,
}
use openstudio_server_operat.WebBackground.Window.{or_now, track}
use openstudio_server_operat.WebBackground.Senses.{warn_layout_unknown-Keeps}
use openstudio_server_operat.WebBackground.Steps.{
  Near, Near-Sensed, begun, deferred, Moved, stays, Moved-Near, Near-Moved, Restarted, Acted,
  sense-After, restore_if_begun-After, fire_unless_deferred-After, observe-After, checkpoint-Near,
}

module _ (env : Env) (config : OperatorConfig) (now : Time) where
  abbrev window : Time
  window = stall_window config

  is_armed-After :
      (last : Option Time) (w : World)
      → After (λ _. Sensed w) (Sensed w) (is_armed env config now last w)
  unfolding is_armed
  is_armed-After none w =
      exec_read env _ _ w (returns (record { status_kept = refl; tracker_kept = refl }))
        (record { status_kept = refl; tracker_kept = refl })
  is_armed-After (some at) w = returns Sensed-refl

  -- The anchor is kept or cleared.
  abbrev Kept : Status → World → Type 0
  Kept s w' =
      (w'.status.last_web_background_restart_at ≡ s.last_web_background_restart_at)
      ⊎ (w'.status.last_web_background_restart_at ≡ none)

  -- The anchor is kept.
  abbrev Held : Status → World → Type 0
  Held s w' = w'.status.last_web_background_restart_at ≡ s.last_web_background_restart_at

  disarm-After :
      (last : Option Time) (armed : Bool) (w : World)
      → After (λ _. Kept w.status) (Held w.status) (disarm env config now last armed w)
  unfolding disarm
  disarm-After last armed w =
      After-when armed _ w
        (λ _.
          After-step _ w (set_ineffective_restarts-After env w 0)
            (λ _ w₁ h₁.
              After-when _ _ w₁
                (λ _.
                  After-mono (set_last_web_background_restart_at-After env w₁ none)
                    (λ _ w₂ h₂. inr (ground (arith, h₂.0)))
                    (λ w₂ h₂. ground (arith, h₁.0, h₂.status_kept)))
                (λ _. inl (ground (arith, h₁.0))))
            (λ w₁ h₁. ground (arith, h₁.status_kept)))
        (λ _. inl refl)

  conclude_clean-Kept :
      (last : Option Time) (holds : Bool) (w : World)
      → After (λ _. Kept w.status) (Held w.status) (conclude_clean env config now last holds w)
  unfolding conclude_clean
  conclude_clean-Kept last holds w = exec_gets _ _ w (
      After-when _ _ w
        (λ _.
          After-step _ w (is_armed-After last w)
            (λ armed w₁ h₁.
              After-mono (disarm-After last armed w₁)
                (λ _ w₂ h₂. ground (arith, h₁.status_kept, h₂))
                (λ w₂ h₂. ground (arith, h₁.status_kept, h₂)))
            (λ w₁ h₁. ground (arith, h₁.status_kept)))
        (λ _. inl refl))

  conclude_clean-stalled :
      (last : Option Time) (w : World) {E : World → Type 0}
      → After (λ _ w'. w' ≡ w) E (conclude_clean env config now last true w)
  unfolding conclude_clean when
  conclude_clean-stalled last w = exec_gets _ _ w (returns refl)

  -- A restart that the tick has reported.
  pub record Fired (last : Option Time) (w w' : World) : Type 0 where
    pub sustained : leb (or_now now (begun w) + window) now ≡ true
    pub allowed : deferred now window last w.status.ineffective_restarts ≡ false
    pub after : Restarted env config now last w.status w'

  -- What is known of a decision when it returns.
  abbrev pub Ticked : Option Time → World → Bool → World → Type 0
  Ticked last w true w' = Fired last w w'
  Ticked last w false w' = Kept w.status w'

  act-Ticked :
      (last : Option Time) (r : Bool) (w w' w'' : World)
      → Near w w'
      → leb (or_now now (begun w) + window) now ≡ true
      → Acted env config now last w'.status r w''
      → Ticked last w r w''
  act-Ticked last true w w' w'' n sustained (after, allowed) = record {
    sustained = sustained;
    allowed = ground (arith, n.near, allowed);
    after = record {
      status_after = ground (arith, n.near, after.status_after);
      tracker_after = after.tracker_after;
    };
  }
  act-Ticked last false w w' w'' n sustained e = inl (ground (arith, n.near, e))

  act-After :
      (last : Option Time) (sustained : Bool) (w w' : World)
      → Near w w'
      → (sustained ≡ true → leb (or_now now (begun w) + window) now ≡ true)
      → After
          (Ticked last w)
          (Moved env config now w.status)
          ((if sustained then fire_unless_deferred env config now last else pure false) w')
  act-After last sustained w w' n reached =
      After-if sustained _ _ w'
        (λ e.
          After-mono (fire_unless_deferred-After env config now last w')
            (λ r w'' h. act-Ticked last r w w' w'' n (reached e) h)
            (λ w'' h. Near-Moved env config now n h))
        (λ _. returns (inl (ground (arith, n.near))))

  decide-stalled :
      (last : Option Time) (w : World)
      → After (Ticked last w) (Moved env config now w.status) (decide env config now last true w)
  unfolding decide track
  decide-stalled last w = exec_gets _ _ w (
      After-step _ w (restore_if_begun-After env config now w)
        (λ _ w₁ h₁.
          After-step _ w₁ (observe-After env config now true w₁)
            (λ sustained w₂ h₂.
              After-step _ w₂ (checkpoint-Near env config now _ true w₂)
                (λ _ w₃ h₃.
                  After-step _ w₃ (conclude_clean-stalled last w₃)
                    (λ _ w₄ h₄.
                      act-After last sustained w w₄
                        (record { near = ground (arith, h₁.status_same, h₂.1, h₃.near, h₄) })
                        (λ e. ground (arith, e, h₁.begun_here, h₂.0)))
                    (λ w₄ e. e))
                (λ w₃ h₃. stays (ground (arith, h₁.status_same, h₂.1, h₃.near))))
            (λ w₂ e. e))
        (λ w₁ h₁. Moved-Near env config now h₁))

  decide-clean :
      (last : Option Time) (w : World)
      → After (Ticked last w) (Moved env config now w.status) (decide env config now last false w)
  unfolding decide track when
  decide-clean last w = exec_gets _ _ w (
      exec_update (λ w. w) _ w
        (After-step _ w (observe-After env config now false w)
          (λ sustained w₂ h₂.
            After-step _ w₂ (checkpoint-Near env config now _ false w₂)
              (λ _ w₃ h₃.
                After-step _ w₃ (conclude_clean-Kept last false w₃)
                  (λ _ w₄ h₄.
                    After-if sustained _ _ w₄ (λ e. cc)
                      (λ _. returns (ground (arith, h₂.1, h₃.near, h₄))))
                  (λ w₄ h₄. stays (ground (arith, h₂.1, h₃.near, h₄))))
              (λ w₃ h₃. stays (ground (arith, h₂.1, h₃.near))))
          (λ w₂ e. e)))

  decide-After :
      (last : Option Time) (holds : Bool) (w : World)
      → After (Ticked last w) (Moved env config now w.status) (decide env config now last holds w)
  decide-After last true w = decide-stalled last w
  decide-After last false w = decide-clean last w

  Ticked-Sensed :
      (last : Option Time) (r : Bool) (w w' w'' : World)
      → Sensed w w'
      → Ticked last w' r w''
      → Ticked last w r w''
  Ticked-Sensed last true w w' w'' k fired = record {
    sustained = ground (arith, k.status_kept, k.tracker_kept, fired.sustained);
    allowed = ground (arith, k.status_kept, fired.allowed);
    after = record {
      status_after = ground (arith, k.status_kept, fired.after.status_after);
      tracker_after = fired.after.tracker_after;
    };
  }
  Ticked-Sensed last false w w' w'' k kept = ground (arith, k.status_kept, kept)

  after_cooldown-After :
      (last : Option Time) (w : World)
      → After (Ticked last w) (Moved env config now w.status) (after_cooldown env config now last w)
  unfolding after_cooldown
  after_cooldown-After last w =
      After-step _ w (sense-After env config now w)
        (λ holds w₁ k₁.
          After-step _ w₁
            (After-ignoring {F = Sensed w₁} _ w₁ (warn_layout_unknown-Keeps env config now w₁))
            (λ _ w₂ k₂.
              After-mono (decide-After last holds w₂)
                (λ r w' h. Ticked-Sensed last r w w₂ w' (Sensed-trans k₁ k₂) h)
                (λ w' h. Near-Moved env config now (Near-Sensed (Sensed-trans k₁ k₂)) h))
            (λ w₂ k₂. stays (ground (arith, k₁.status_kept, k₂.status_kept))))
        (λ w₁ n. Moved-Near env config now n)

  -- What is known of a tick when it returns, and when it raises.
  abbrev pub Settled : World → Bool → World → Type 0
  Settled w r w' =
      ((r ≡ false) × (w'.status ≡ w.status))
      ⊎ ((due now w.status.last_web_background_restart_at window ≡ true)
          × Ticked w.status.last_web_background_restart_at w r w')

  abbrev pub Broken : World → World → Type 0
  Broken w w' =
      (w'.status ≡ w.status)
      ⊎ ((due now w.status.last_web_background_restart_at window ≡ true)
          × Moved env config now w.status w')

  cooldown-Settled :
      (w w' : World)
      → Sensed w w'
      → After (Settled w) (Broken w) (
          cooldown env config now w.status.last_web_background_restart_at
            (due now w.status.last_web_background_restart_at window)
            w')
  unfolding cooldown
  cooldown-Settled w w' k = split (due now w.status.last_web_background_restart_at window) refl
    where
      split :
          (b : Bool)
          → due now w.status.last_web_background_restart_at window ≡ b
          → After
              (Settled w)
              (Broken w)
              (cooldown env config now w.status.last_web_background_restart_at b w')
      split true e =
          After-mono (after_cooldown-After _ w')
            (λ r w'' h. inr (e, Ticked-Sensed _ r w w' w'' k h))
            (λ w'' h. inr (e, Near-Moved env config now (Near-Sensed k) h))
      split false e = returns (inl (refl, k.status_kept))

  -- A tick that reports a restart has found its cooldown over, its stall window full - as the tracker
  -- or else the status has its begin - and no backoff running; it has anchored its time, spent the
  -- window and counted the restart before it as ineffective. A tick that returns without one has
  -- kept or cleared the anchor, and a tick that raises has kept it or moved it to its own time, never
  -- cleared it; both leave it alone while the cooldown is running.
  pub run_stall_tick-Settled :
      (w : World) → After (Settled w) (Broken w) (run_stall_tick env config now w)
  unfolding run_stall_tick
  run_stall_tick-Settled w =
      exec_read env _ _ w
        (cooldown-Settled w _ (record { status_kept = refl; tracker_kept = refl })) (inl refl)
