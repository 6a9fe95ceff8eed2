-- ===== src/Store/Scalars.antt =====
-- The scalar accessors keep their promise: the time is stored, or the write raises and nothing is.
use openstudio_server_operat.Base.{
  true, false, sym, not, ◌∷◌, ◌≡◌, refl, ap, arith, some, none, Option, ℕ, Bool, ℕ_discrete,
}
use mathlib.Core.Path.{subst, subst₂}
use openstudio_server_operat.Clock.{Time}
use openstudio_server_operat.World.{Env, World, M, ◌>>=◌, Call}
use openstudio_server_operat.World.Keeps.{Sensed}
use openstudio_server_operat.World.Triple.{After, returns, exec_call, After-step, After-when}
use openstudio_server_operat.Status.{Status}
use openstudio_server_operat.Store.{
  read, set_last_recycle_at, is_at, same_time, set_scalar, set_last_web_background_restart_at,
  set_stall_window_started_at, set_ineffective_restarts,
}

pub read-After :
    (env : Env) {A : Type 0} (f : Status → A) (w : World)
    → After
        (λ a w'. (a ≡ f w.status) × (w' ≡ record w { trace = (Call.read_status, true) ∷ w.trace }))
        (λ w'. w' ≡ record w { trace = (Call.read_status, false) ∷ w.trace })
        (read env f w)
unfolding read
read-After env f w = exec_call env Call.read_status _ w (returns (refl, refl)) refl

-- A read brings back what the status holds.
pub exec_read :
    {A B : Type 0} {Q : B → World → Type 0} {F : World → Type 0} (env : Env) (g : Status → A)
    (f : A → M B) (w : World)
    → After Q F (f (g w.status) (record w { trace = (Call.read_status, true) ∷ w.trace }))
    → F (record w { trace = (Call.read_status, false) ∷ w.trace })
    → After Q F ((read env g >>= f) w)
exec_read {Q = Q} {F = F} env g f w h e =
    After-step _ w (read-After env g w)
      (λ a w' p. subst₂ (λ b v. After Q F (f b v)) (sym p.0) (sym p.1) h)
      (λ w' p. subst F (sym p) e)

time_stored :
    (now : Time) (s : Status) (current : Option Time)
    → current ≡ s.last_recycle_at
    → not (is_at now current) ≡ false
    → s ≡ record s { last_recycle_at = some now }
time_stored now s none e same = cc
time_stored now s (some t) e same = ground arith

pub set_last_recycle_at-After :
    (env : Env) (now : Time) (w : World)
    → After
        (λ _ w'. w'.status ≡ record w.status { last_recycle_at = some now })
        (λ w'. w'.status ≡ w.status)
        (set_last_recycle_at env now w)
unfolding set_last_recycle_at ℕ_discrete
set_last_recycle_at-After env now w =
    exec_read env _ _ w
      (After-when _ _ _
        (λ changed. exec_call env Call.patch_last_recycle_at _ _ (returns refl) refl)
        (λ same. time_stored now w.status _ refl same))
      refl

-- A write of a scalar has stored the value, or it has changed nothing and raises.
set_scalar-After :
    (env : Env) {V : Type 0} (patch : Call) (value_of : Status → V) (put : V → Status → Status)
    (same : V → V → Bool) (value : V) (w : World)
    → ((s : Status) → same value (value_of s) ≡ true → put value s ≡ s)
    → After
        (λ _ w'. (w'.status ≡ put value w.status) × (w'.tracker ≡ w.tracker))
        (Sensed w)
        (set_scalar env patch value_of put same value w)
unfolding set_scalar
set_scalar-After env patch value_of put same value w stays =
    exec_read env _ _ w
      (After-when _ _ _
        (λ changed.
          exec_call env patch _ _ (returns (refl, refl))
            (record { status_kept = refl; tracker_kept = refl }))
        (λ unchanged. (sym (stays w.status (ground arith)), refl)))
      (record { status_kept = refl; tracker_kept = refl })

same_time-lem : (a b : Option Time) → same_time a b ≡ true → b ≡ a
unfolding ℕ_discrete
same_time-lem none none h = refl
same_time-lem none (some t) h = ground arith
same_time-lem (some t) none h = ground arith
same_time-lem (some t) (some t') h = ground arith

module _ (env : Env) (w : World) where
  pub set_last_web_background_restart_at-After :
      (t : Option Time)
      → After
          (λ _ w'.
            (w'.status ≡ record w.status { last_web_background_restart_at = t })
            × (w'.tracker ≡ w.tracker))
          (Sensed w)
          (set_last_web_background_restart_at env t w)
  unfolding set_last_web_background_restart_at
  set_last_web_background_restart_at-After t =
      set_scalar-After env _ (λ s. s.last_web_background_restart_at)
        (λ v s. record s { last_web_background_restart_at = v }) same_time t w
        (λ s h.
          ap (λ v. record s { last_web_background_restart_at = v }) (sym (same_time-lem t _ h)))

  pub set_stall_window_started_at-After :
      (t : Option Time)
      → After
          (λ _ w'.
            (w'.status ≡ record w.status { stall_window_started_at = t })
            × (w'.tracker ≡ w.tracker))
          (Sensed w)
          (set_stall_window_started_at env t w)
  unfolding set_stall_window_started_at
  set_stall_window_started_at-After t =
      set_scalar-After env _ (λ s. s.stall_window_started_at)
        (λ v s. record s { stall_window_started_at = v }) same_time t w
        (λ s h. ap (λ v. record s { stall_window_started_at = v }) (sym (same_time-lem t _ h)))

  pub set_ineffective_restarts-After :
      (n : ℕ)
      → After
          (λ _ w'.
            (w'.status ≡ record w.status { ineffective_restarts = some n })
            × (w'.tracker ≡ w.tracker))
          (Sensed w)
          (set_ineffective_restarts env n w)
  unfolding set_ineffective_restarts ℕ_discrete
  set_ineffective_restarts-After n =
      set_scalar-After env _ (λ s. s.ineffective_restarts)
        (λ v s. record s { ineffective_restarts = v }) same_time (some n) w
        (λ s h. ap (λ v. record s { ineffective_restarts = v }) (sym (same_time-lem (some n) _ h)))
