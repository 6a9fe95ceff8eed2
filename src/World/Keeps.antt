-- ===== src/World/Keeps.antt =====
-- Actions that leave the status and the window tracker alone, whether they return or raise: rules by
-- the shape of the action.
use openstudio_server_operat.Base.{Bool, true, false, ◌≡◌, refl, ◌∙◌, if◌then◌else◌}
use openstudio_server_operat.World.{
  Call, Env, World, Trace, Error, M, ◌>>=◌, ⊤, pure, throw, gets, when, call, ask,
}
use openstudio_server_operat.World.Triple.{
  After, returns, raises, After-step, After-call, After-ask, After-mono,
}

pub record Sensed (w w' : World) : Type 0 where
  pub status_kept : w'.status ≡ w.status
  pub tracker_kept : w'.tracker ≡ w.tracker

pub Sensed-refl : {w : World} → Sensed w w
Sensed-refl = record { status_kept = refl; tracker_kept = refl }

abbrev pub Keeps : {A : Type 0} → M A → Type 0
Keeps m = (w : World) → After (λ _ w'. Sensed w w') (Sensed w) (m w)

pub Sensed-trans : {u v w : World} → Sensed u v → Sensed v w → Sensed u w
Sensed-trans g h = record {
  status_kept = h.status_kept ∙ g.status_kept;
  tracker_kept = h.tracker_kept ∙ g.tracker_kept;
}

pub Keeps-pure : {A : Type 0} (a : A) → Keeps (pure a)
Keeps-pure a w = returns Sensed-refl

pub Keeps-throw : {A : Type 0} (e : Error) → Keeps (throw {A = A} e)
Keeps-throw e w = raises Sensed-refl

pub Keeps-gets : {A : Type 0} (f : World → A) → Keeps (gets f)
Keeps-gets f w = returns Sensed-refl

pub Keeps-bind :
    {A B : Type 0} (m : M A) {f : A → M B} → Keeps m → ((a : A) → Keeps (f a)) → Keeps (m >>= f)
Keeps-bind m h k w =
    After-step m w (h w)
      (λ a w' g. After-mono (k a w') (λ _ _ g'. Sensed-trans g g') (λ _ g'. Sensed-trans g g'))
      (λ w' g. g)

pub Keeps-if : {A : Type 0} (b : Bool) {m n : M A} → Keeps m → Keeps n → Keeps (if b then m else n)
Keeps-if true f g = f
Keeps-if false f g = g

pub Keeps-when : (b : Bool) (m : M ⊤) → Keeps m → Keeps (when b m)
unfolding when
Keeps-when true m f w = f w
Keeps-when false m f w = returns Sensed-refl

pub Keeps-call : (env : Env) (c : Call) → Keeps (call env c)
Keeps-call env c w =
    After-mono (After-call env c w)
      (λ _ w' e. rw e (record { status_kept = refl; tracker_kept = refl }))
      (λ w' e. rw e (record { status_kept = refl; tracker_kept = refl }))

pub Keeps-ask : (env : Env) {A : Type 0} (c : Call) (f : Trace → A) → Keeps (ask env c f)
Keeps-ask env c f w =
    After-mono (After-ask env c f w)
      (λ _ w' e. rw e.1 (record { status_kept = refl; tracker_kept = refl }))
      (λ w' e. rw e (record { status_kept = refl; tracker_kept = refl }))
