-- ===== src/Base/Lists.antt =====
-- Lists measured by native numbers, and lists of texts as Python's sets of identifiers.
use openstudio_server_operat.Base.Tests.{◌==◌, if◌then◌else◌}
use Prim.Native.Nat.{ℕ, zero, suc}
use Prim.Native.String.{String}
use mathlib.Core.Path.{◌≡◌, refl}
use mathlib.Core.Bool.{Bool, true, false, not, ◌||◌, ◌&&◌}
use mathlib.Core.List.{List, [], ◌∷◌, ◌++◌}
use native.Mathlib.Omega.{arith}

module _ {ℓ} {A : Type ℓ} where
  abbrev pub length : List A → ℕ
  length [] = 0
  length (x ∷ xs) = suc (length xs)

  abbrev pub take : ℕ → List A → List A
  take zero xs = []
  take (suc n) [] = []
  take (suc n) (x ∷ xs) = x ∷ take n xs

  -- `[x for x in xs if p(x)]`
  abbrev pub keep : (A → Bool) → List A → List A
  keep p [] = []
  keep p (x ∷ xs) = if p x then x ∷ keep p xs else keep p xs

  -- `any(p(x) for x in xs)`
  abbrev pub any : (A → Bool) → List A → Bool
  any p [] = false
  any p (x ∷ xs) = p x || any p xs

-- `s in xs`
abbrev pub member : String → List String → Bool
member s [] = false
member s (x ∷ xs) = if s == x then true else member s xs

-- `[s for s in xs if s not in ys]`
abbrev pub without : List String → List String → List String
without ys = keep (λ s. not (member s ys))

pub member-append :
    (s : String) (xs ys : List String) → member s (xs ++ ys) ≡ member s xs || member s ys
member-append s [] ys = refl
member-append s (x ∷ xs) ys = ground (arith, member-append s xs ys)

pub member-without :
    (s : String) (ys xs : List String) → member s (without ys xs) ≡ member s xs && not (member s ys)
member-without s ys [] = refl
member-without s ys (x ∷ xs) = ground (arith, member-without s ys xs)

pub member-append_left :
    (s : String) (xs ys : List String) → member s xs ≡ true → member s (xs ++ ys) ≡ true
member-append_left s xs ys m = ground (arith, member-append s xs ys)

-- No text occurs twice.
abbrev pub Distinct : List String → Type 0
Distinct [] = Unit
Distinct (x ∷ xs) = (member x xs ≡ false) × Distinct xs
