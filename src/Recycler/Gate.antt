-- ===== src/Recycler/Gate.antt =====
-- What one recycler tick does: behind its gate, when it fires, and when it does not.
use openstudio_server_operat.Base.{
  ℕ, true, false, Bool, Option, none, some, ◌≡◌, ◌⊎◌, refl, arith, inl, inr, not,
}
use openstudio_server_operat.Clock.{Time, minutes}
use openstudio_server_operat.Config.{OperatorConfig}
use openstudio_server_operat.World.{Call, Severity, Reason, Env, World}
use openstudio_server_operat.World.Grows.{count_done}
use openstudio_server_operat.World.Triple.{
  After, returns, After-step, After-when, After-call, After-ask, After-mono, After-always,
}
use openstudio_server_operat.Store.Scalars.{exec_read, read-After, set_last_recycle_at-After}
use openstudio_server_operat.Emitter.{emit-After}
use openstudio_server_operat.Recycler.{
  Trigger, after_gate, run_recycler_tick, due, recycle, armed_trigger, worker_deployment,
  recycle_if, gate,
}

abbrev pub cooldown : OperatorConfig → Time
cooldown config = minutes config.worker_policy.min_recycle_interval_minutes

abbrev pub is_restart : Call → Bool
is_restart (Call.restart_deployment _ _) = true
is_restart _ = false

-- The restarts that the cluster has accepted.
abbrev pub restarts : World → ℕ
restarts w = count_done is_restart w.trace

module _ (env : Env) (config : OperatorConfig) (now : Time) where
  -- A recycle that gets through has anchored its time; one that raises has left the status alone.
  recycle_anchors :
      (trigger : Trigger) (w : World)
      → After
          (λ r w'.
            (r ≡ some trigger) × (w'.status ≡ record w.status { last_recycle_at = some now }))
          (λ w'. w'.status ≡ w.status)
          (recycle env config now trigger w)
  unfolding recycle
  recycle_anchors trigger w =
      After-step {P = λ _ w'. w'.status ≡ w.status} {E = λ w'. w'.status ≡ w.status} _ w
        (After-when (not config.dry_run) _ w
          (λ _. After-mono (After-call env _ w) (λ _ w' h. ground arith) (λ w' h. ground arith))
          (λ _. refl))
        (λ _ w' h.
          After-step _ w'
            (emit-After env config Severity.normal Reason.worker_recycled (worker_deployment config)
              w')
            (λ _ w'' h'.
              After-step _ w'' (set_last_recycle_at-After env now w'')
                (λ _ w₃ h''. returns (refl, ground (arith, h'.rest)))
                (λ w₃ h''. ground (arith, h'.rest)))
            (λ w'' h'. ground (arith, h'.rest)))
        (λ w' h. h)

  -- What is known of a tick when it returns: it has recycled, or it has not.
  abbrev pub Settled : World → Option Trigger → World → Type 0
  Settled w none w' = w'.status ≡ w.status
  Settled w (some _) w' = w'.status ≡ record w.status { last_recycle_at = some now }

  settle :
      (r : Option Trigger) (w w' w'' : World)
      → w'.status ≡ w.status
      → Settled w' r w''
      → Settled w r w''
  settle none w w' w'' e h = ground arith
  settle (some t) w w' w'' e h = ground arith

  recycle_if-Settled :
      (t : Option Trigger) (w : World)
      → After (Settled w) (λ w'. w'.status ≡ w.status) (recycle_if env config now t w)
  unfolding recycle_if
  recycle_if-Settled none w = returns refl
  recycle_if-Settled (some trigger) w =
      After-mono (recycle_anchors trigger w) (λ r w' h. rw h.0 h.1) (λ w' h. h)

  after_gate-Settled :
      (last : Option Time) (w : World)
      → After (Settled w) (λ w'. w'.status ≡ w.status) (after_gate env config now last w)
  unfolding after_gate
  after_gate-Settled last w =
      After-step _ w (After-ask env Call.list_analyses _ w)
        (λ docs w' h.
          After-mono (recycle_if-Settled (armed_trigger docs config now last) w')
            (λ r w'' h'. settle r w w' w'' (ground arith) h') (λ w'' h'. ground arith))
        (λ w' h. ground arith)

  gate-Settled :
      (last : Option Time) (b : Bool) (w : World)
      → After
          (λ r w'. Settled w r w' × ((r ≡ none) ⊎ (b ≡ true)))
          (λ w'. w'.status ≡ w.status)
          (gate env config now last b w)
  unfolding gate
  gate-Settled last true w =
      After-mono (after_gate-Settled last w) (λ r w' h. (h, inr refl)) (λ w' h. h)
  gate-Settled last false w = returns (refl, inl refl)

  -- A tick that returns has recycled behind an open gate and anchored its time, or it has left the
  -- status alone; a tick that raises has left the status alone too.
  pub run_recycler_tick-Settled :
      (w : World)
      → After
          (λ r w'.
            Settled w r w'
            × ((r ≡ none) ⊎ (due now w.status.last_recycle_at (cooldown config) ≡ true)))
          (λ w'. w'.status ≡ w.status)
          (run_recycler_tick env config now w)
  unfolding run_recycler_tick
  run_recycler_tick-Settled w =
      After-step _ w (read-After env _ w)
        (λ last w' h.
          After-mono (gate-Settled last (due now last (cooldown config)) w')
            (λ r w'' h'. (settle r w w' w'' (ground arith) h'.0, rw h.0 at h'.1))
            (λ w'' h'. ground arith))
        (λ w' h. ground arith)

  -- No restart in between, or an open gate.
  abbrev pub Behind : World → World → Type 0
  Behind w w' =
      (restarts w' ≡ restarts w) ⊎ (due now w.status.last_recycle_at (cooldown config) ≡ true)

  gate-Behind :
      (w w' : World)
      → restarts w' ≡ restarts w
      → After
          (λ _. Behind w)
          (Behind w)
          (gate env config now w.status.last_recycle_at
            (due now w.status.last_recycle_at (cooldown config))
            w')
  unfolding gate
  gate-Behind w w' e = split (due now w.status.last_recycle_at (cooldown config)) refl
    where
      split :
          (b : Bool)
          → due now w.status.last_recycle_at (cooldown config) ≡ b
          → After (λ _. Behind w) (Behind w) (gate env config now w.status.last_recycle_at b w')
      split true ready =
          After-mono (After-always ready (after_gate env config now w.status.last_recycle_at w'))
            (λ _ w'' h. inr h) (λ w'' h. inr h)
      split false closed = returns (inl e)

  -- A tick makes a restart only behind an open gate, whether it returns or raises.
  pub run_recycler_tick-Behind :
      (w : World) → After (λ _. Behind w) (Behind w) (run_recycler_tick env config now w)
  unfolding run_recycler_tick count_done
  run_recycler_tick-Behind w = exec_read env _ _ w (gate-Behind w _ refl) (inl refl)
