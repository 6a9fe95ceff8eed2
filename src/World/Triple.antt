-- ===== src/World/Triple.antt =====
-- What holds after an action: of its result and the world where it returns, of the world where it
-- raises. Actions are proved step by step, each by what is known of its parts.
use openstudio_server_operat.Base.{
  if◌then◌else◌, ℕ, true, false, Bool, List, [], ◌∷◌, ◌≡◌, refl, arith, Option, none, some, sym, ap,
  ◌∙◌,
}
use mathlib.Core.Path.{subst, subst₂}
use openstudio_server_operat.World.{
  Call, Env, World, Error, Outcome, ok, raise, M, ◌>>=◌, ⊤, call, when, for_each, refused, ask,
  attempt, Trace, gets, update, on_raise, ignoring, throw,
}

pub data After {A : Type 0} (P : A → World → Type 0) (E : World → Type 0)
    : Outcome A × World → Type 0 where
  returns : {a : A} {w : World} → P a w → After P E (ok a, w)
  raises : {e : Error} {w : World} → E w → After P E (raise e, w)

module _ {A : Type 0} {P : A → World → Type 0} {E : World → Type 0} where
  pub After-mono :
      {Q : A → World → Type 0} {F : World → Type 0} {x : Outcome A × World}
      → After P E x
      → ((a : A) (w : World) → P a w → Q a w)
      → ((w : World) → E w → F w)
      → After Q F x
  After-mono (returns h) f g = returns (f _ _ h)
  After-mono (raises h) f g = raises (g _ h)

  -- One step of an action whose first part is known.
  pub After-step :
      {B : Type 0} {Q : B → World → Type 0} {F : World → Type 0} (m : M A) {f : A → M B} (w : World)
      → After P E (m w)
      → ((a : A) (w' : World) → P a w' → After Q F (f a w'))
      → ((w' : World) → E w' → F w')
      → After Q F ((m >>= f) w)
  unfolding ◌>>=◌
  After-step {B} {Q} {F} m {f} w h k e = split (m w) h
    where
      split :
          (x : Outcome A × World)
          → After P E x
          → After Q F
              (elim x.0 as (λ _. Outcome B × World) [ ok a ↦ f a x.1 | raise er ↦ (raise er, x.1) ])
      split x (returns h) = k _ _ h
      split x (raises h) = raises (e _ h)

  pub After-ok : {a : A} {x : Outcome A × World} → After P E x → x.0 ≡ ok a → P a x.1
  After-ok (returns h) e = ground arith
  After-ok (raises h) e = cc

  pub After-raise : {e : Error} {x : Outcome A × World} → After P E x → x.0 ≡ raise e → E x.1
  After-raise (returns h) e = cc
  After-raise (raises h) e = h

-- Two things that are known of the same action.
pub After-and :
    {A : Type 0} {P Q : A → World → Type 0} {E F : World → Type 0} {x : Outcome A × World}
    → After P E x
    → After Q F x
    → After (λ a w. P a w × Q a w) (λ w. E w × F w) x
After-and {A} {P} {Q} {E} {F} (returns h) g = returns (h, After-ok g refl)
After-and {A} {P} {Q} {E} {F} (raises h) g = raises (h, After-raise g refl)

-- What holds anyway holds after any action.
pub After-always :
    {A : Type 0} {T : Type 0} → T → (x : Outcome A × World) → After (λ _ _. T) (λ _. T) x
After-always t (ok a, w) = returns t
After-always t (raise e, w) = raises t

-- A handler runs where the action raises, and the exception goes on.
pub After-on_raise :
    {A : Type 0} {P : A → World → Type 0} {E F : World → Type 0} (m : M A) (handler : M ⊤)
    (w : World)
    → After P E (m w)
    → ((w' : World) → E w' → After (λ _. F) F (handler w'))
    → After P F (on_raise m handler w)
unfolding on_raise
After-on_raise {A} {P} {E} {F} m handler w h k = split (m w) h
  where
    split :
        (x : Outcome A × World)
        → After P E x
        → After P F (elim x.0 as (λ _. Outcome A × World) [
          | ok a ↦ (ok a, x.1)
          | raise e ↦ (handler >>= λ _. throw e) x.1
        ])
    split x (returns p) = returns p
    split x (raises {w = w'} p) = After-step handler w' (k w' p) (λ _ w'' f. raises f) (λ w'' f. f)

-- An ignored exception is no exception.
pub After-ignoring :
    {P : World → Type 0} {F : World → Type 0} (m : M ⊤) (w : World)
    → After (λ _. P) P (m w)
    → After (λ _. P) F (ignoring m w)
unfolding ignoring
After-ignoring {P} {F} m w h = split (m w) h
  where
    split : (x : Outcome ⊤ × World) → After (λ _. P) P x → After (λ _. P) F (ok tt, x.1)
    split x (returns p) = returns p
    split x (raises p) = returns p

-- What a condition keeps.
pub After-when :
    {P : ⊤ → World → Type 0} {E : World → Type 0} (b : Bool) (m : M ⊤) (w : World)
    → (b ≡ true → After P E (m w))
    → (b ≡ false → P tt w)
    → After P E (when b m w)
unfolding when
After-when true m w f g = f refl
After-when false m w f g = returns (g refl)

pub After-if :
    {A : Type 0} {P : A → World → Type 0} {E : World → Type 0} (b : Bool) (m n : M A) (w : World)
    → (b ≡ true → After P E (m w))
    → (b ≡ false → After P E (n w))
    → After P E ((if b then m else n) w)
After-if true m n w f g = f refl
After-if false m n w f g = g refl

pub After-call :
    (env : Env) (c : Call) (w : World)
    → After
        (λ _ w'. w' ≡ record w { trace = (c, true) ∷ w.trace })
        (λ w'. w' ≡ record w { trace = (c, false) ∷ w.trace })
        (call env c w)
unfolding call
After-call env c w = split (env.refuses w.trace c)
  where
    split :
        (o : Option ℕ)
        → After
            (λ _ w'. w' ≡ record w { trace = (c, true) ∷ w.trace })
            (λ w'. w' ≡ record w { trace = (c, false) ∷ w.trace })
            (elim o as (λ _. Outcome ⊤ × World) [
              | none ↦ (ok tt, record w { trace = (c, true) ∷ w.trace })
              | some code ↦ (raise (refused c code), record w { trace = (c, false) ∷ w.trace })
            ])
    split none = returns refl
    split (some code) = raises refl

abbrev pub succeeded : Option ℕ → Bool
succeeded none = true
succeeded (some _) = false

-- A caught refusal never raises.
pub After-attempt :
    (env : Env) (c : Call) (w : World) {E : World → Type 0}
    → After (λ o w'. w' ≡ record w { trace = (c, succeeded o) ∷ w.trace }) E (attempt env c w)
unfolding attempt
After-attempt env c w {E} = caught (env.refuses w.trace c)
  where
    caught :
        (o : Option ℕ)
        → After
            (λ o w'. w' ≡ record w { trace = (c, succeeded o) ∷ w.trace })
            E
            (elim o as (λ _. Outcome (Option ℕ) × World) [
              | none ↦ (ok none, record w { trace = (c, true) ∷ w.trace })
              | some code ↦ (ok (some code), record w { trace = (c, false) ∷ w.trace })
            ])
    caught none = returns refl
    caught (some code) = returns refl

-- What every round of a loop keeps, whether it returns or raises, the loop keeps.
pub After-for_each :
    {A : Type 0} {P : World → Type 0} (xs : List A) (body : A → M ⊤) (w : World)
    → ((x : A) (w : World) → P w → After (λ _ w'. P w') P (body x w))
    → P w
    → After (λ _ w'. P w') P (for_each xs body w)
unfolding for_each
After-for_each [] body w keeps h = returns h
After-for_each (x ∷ xs) body w keeps h =
    After-step (body x) w (keeps x w h) (λ _ w' h'. After-for_each xs body w' keeps h') (λ _ h'. h')

pub After-ask :
    (env : Env) {A : Type 0} (c : Call) (f : Trace → A) (w : World)
    → After
        (λ a w'. (a ≡ f w'.trace) × (w' ≡ record w { trace = (c, true) ∷ w.trace }))
        (λ w'. w' ≡ record w { trace = (c, false) ∷ w.trace })
        (ask env c f w)
unfolding ask
After-ask env c f w = After-step _ w (After-call env c w) (λ _ w' h. returns (refl, h)) (λ w' h. h)

-- Symbolic execution: the rest of an action runs in the world that its first call leaves.
module _ {B : Type 0} {Q : B → World → Type 0} {F : World → Type 0} where
  pub exec_call :
      (env : Env) (c : Call) (f : ⊤ → M B) (w : World)
      → After Q F (f tt (record w { trace = (c, true) ∷ w.trace }))
      → F (record w { trace = (c, false) ∷ w.trace })
      → After Q F ((call env c >>= f) w)
  exec_call env c f w h e =
      After-step _ w (After-call env c w) (λ _ w' p. subst (λ v. After Q F (f tt v)) (sym p) h)
        (λ w' p. subst F (sym p) e)

  pub exec_ask :
      (env : Env) {A : Type 0} (c : Call) (g : Trace → A) (f : A → M B) (w : World)
      → After Q F (f (g ((c, true) ∷ w.trace)) (record w { trace = (c, true) ∷ w.trace }))
      → F (record w { trace = (c, false) ∷ w.trace })
      → After Q F ((ask env c g >>= f) w)
  exec_ask env c g f w h e =
      After-step _ w (After-ask env c g w)
        (λ a w' p.
          subst₂ (λ b v. After Q F (f b v)) (sym (p.0 ∙ ap (λ v. g v.trace) p.1)) (sym p.1) h)
        (λ w' p. subst F (sym p) e)

  pub exec_gets :
      {A : Type 0} (g : World → A) (f : A → M B) (w : World)
      → After Q F (f (g w) w)
      → After Q F ((gets g >>= f) w)
  unfolding ◌>>=◌
  exec_gets g f w h = h

  pub exec_update :
      (g : World → World) (f : ⊤ → M B) (w : World)
      → After Q F (f tt (g w))
      → After Q F ((update g >>= f) w)
  unfolding ◌>>=◌
  exec_update g f w h = h

  pub exec_attempt :
      (env : Env) (c : Call) (f : Option ℕ → M B) (w : World)
      → ((o : Option ℕ) → After Q F (f o (record w { trace = (c, succeeded o) ∷ w.trace })))
      → After Q F ((attempt env c >>= f) w)
  exec_attempt env c f w h =
      After-step _ w (After-attempt env c w)
        (λ o w' p. subst (λ v. After Q F (f o v)) (sym p) (h o)) (λ w' e. e)
