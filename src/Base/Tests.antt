-- ===== src/Base/Tests.antt =====
-- Boolean tests on native numbers and on texts, the conditional, and ways to split on a value.
use Prim.Native.Nat.{ℕ, compare, Ordering}
use Prim.Native.String.{String}
use mathlib.Core.Path.{◌≡◌, refl}
use mathlib.Core.Logic.{◌⊎◌, inl, inr}
use mathlib.Core.Bool.{Bool, true, false}
use mathlib.Core.Option.{Option, none, some}
use native.Mathlib.Omega.{arith}
use text.Mathlib.Text.{◌==◌ as text_eq}
use text.Mathlib.TextEquality.{eq_iff}

abbrev pub ltb : ℕ → ℕ → Bool
ltb a b = elim (compare a b) [ Ordering.lt ↦ true | _ ↦ false ]

abbrev pub leb : ℕ → ℕ → Bool
leb a b = elim (compare a b) [ Ordering.gt ↦ false | _ ↦ true ]

infix 1 if◌then◌else◌
abbrev pub if◌then◌else◌ {ℓ} : {A : Type ℓ} → Bool → A → A → A
if true then x else y = x
if false then x else y = y

pub Bool-cases : (b : Bool) → (b ≡ true) ⊎ (b ≡ false)
Bool-cases true = inl refl
Bool-cases false = inr refl

pub Option-cases {ℓ} : {A : Type ℓ} (o : Option A) → (o ≡ none) ⊎ ((a : A) × (o ≡ some a))
Option-cases none = inl refl
Option-cases (some a) = inr (a, refl)

pub text_clash : (s t : String) → text_eq s t ≡ false → ¬ (s ≡ t)
text_clash s t e p = ground (arith, (eq_iff s t).1 p)

-- Texts have decidable equality.
unfoldable pub str_dec : Discrete String
unfolding Bool-cases
str_dec s t = elim (Bool-cases (text_eq s t)) [
  | inl e ↦ yes ((eq_iff s t).0 e)
  | inr e ↦ no (text_clash s t e)
]

-- Python's `==` through a decision.
abbrev pub is_yes {ℓ} : {A : Type ℓ} → Dec A → Bool
is_yes (yes _) = true
is_yes (no _) = false

infix 50 ◌==◌
abbrev pub ◌==◌ : String → String → Bool
s == t = is_yes (str_dec s t)

abbrev pub is_none {ℓ} : {A : Type ℓ} → Option A → Bool
is_none none = true
is_none (some _) = false

abbrev pub is_some {ℓ} : {A : Type ℓ} → Option A → Bool
is_some none = false
is_some (some _) = true

-- What the test of two texts says.
pub same_text : (s t : String) → (s == t) ≡ true → s ≡ t
same_text s t h = split (str_dec s t) h
  where
    split : (d : Dec (s ≡ t)) → is_yes d ≡ true → s ≡ t
    split (yes p) h = p
    split (no q) h = cc

pub text_self : (s : String) → (s == s) ≡ true
text_self s = split (str_dec s s)
  where
    split : (d : Dec (s ≡ s)) → is_yes d ≡ true
    split (yes p) = refl
    split (no q) = absurd (q refl)
