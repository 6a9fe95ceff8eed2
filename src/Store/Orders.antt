-- ===== src/Store/Orders.antt =====
-- Facts on the lists that the eviction order is made of: sorted, parted and cut short.
use openstudio_server_operat.Base.{
  ℕ, zero, suc, ◌+◌, ◌≤◌, String, Bool, true, false, List, [], ◌∷◌, ◌++◌, ◌≡◌, refl, ◌∙◌, arith,
  length, take, keep, member, not, if◌then◌else◌, Distinct, ◌&&◌, ◌||◌, member-append, str_dec,
  is_yes,
}
use openstudio_server_operat.Store.Cap.{insort, sorted}

-- Sorting keeps the texts.
pub member-insort : (s x : String) (xs : List String) → member s (insort x xs) ≡ member s (x ∷ xs)
unfolding insort
member-insort s x [] = refl
member-insort s x (y ∷ ys) = ground (arith, member-insort s x ys)

pub Distinct-insort :
    (x : String) (xs : List String) → member x xs ≡ false → Distinct xs → Distinct (insort x xs)
unfolding insort
Distinct-insort x [] m d = (m, d)
Distinct-insort x (y ∷ ys) m d = ground (arith, Distinct-insort x ys, member-insort y x ys)

pub length-insort : (x : String) (xs : List String) → length (insort x xs) ≡ suc (length xs)
unfolding insort
length-insort x [] = refl
length-insort x (y ∷ ys) = ground (arith, length-insort x ys)

pub member-sorted : (s : String) (xs : List String) → member s (sorted xs) ≡ member s xs
unfolding sorted
member-sorted s [] = refl
member-sorted s (x ∷ xs) = ground (arith, member-insort s x (sorted xs), member-sorted s xs)

pub length-sorted : (xs : List String) → length (sorted xs) ≡ length xs
unfolding sorted
length-sorted [] = refl
length-sorted (x ∷ xs) = ground (arith, length-insort x (sorted xs), length-sorted xs)

pub Distinct-sorted : (xs : List String) → Distinct xs → Distinct (sorted xs)
unfolding sorted
Distinct-sorted [] d = d
Distinct-sorted (x ∷ xs) d =
    Distinct-insort x (sorted xs) (member-sorted x xs ∙ d.0) (Distinct-sorted xs d.1)

-- A test and its negation part a list.
pub member-parted :
    (p : String → Bool) (s : String) (xs : List String)
    → member s (keep (λ k. not (p k)) xs ++ keep p xs) ≡ member s xs
member-parted p s xs = member-append s (keep (λ k. not (p k)) xs) (keep p xs) ∙ parted xs
  where
    parted :
        (xs : List String)
        → member s (keep (λ k. not (p k)) xs) || member s (keep p xs) ≡ member s xs
    parted [] = refl
    parted (x ∷ xs) = ground (arith, parted xs)

pub member-keep :
    (p : String → Bool) (s : String) (xs : List String) → member s (keep p xs) ≡ member s xs && p s
member-keep p s [] = refl
member-keep p s (x ∷ xs) =
    elim (str_dec s x)
      as (λ q. member s (keep p (x ∷ xs)) ≡ (if is_yes q then true else member s xs) && p s) [
        | yes q ↦ rw q (ground (arith, member-keep p x xs))
        | no q ↦ ground (arith, member-keep p s xs)
      ]

pub Distinct-keep : (p : String → Bool) (xs : List String) → Distinct xs → Distinct (keep p xs)
Distinct-keep p [] d = d
Distinct-keep p (x ∷ xs) d = ground (arith, Distinct-keep p xs, member-keep p x xs)

pub Distinct-append :
    (xs ys : List String)
    → Distinct xs
    → Distinct ys
    → ((s : String) → member s xs ≡ true → member s ys ≡ false)
    → Distinct (xs ++ ys)
Distinct-append [] ys d e apart = e
Distinct-append (x ∷ xs) ys d e apart = (
  ground (arith, member-append x xs ys, apart x),
  Distinct-append xs ys d.1 e (λ s m. ground (arith, apart s)),
)

pub length-append : (xs ys : List String) → length (xs ++ ys) ≡ length xs + length ys
length-append [] ys = omega arith
length-append (x ∷ xs) ys = omega (arith, length-append xs ys)

pub length-parted :
    (p : String → Bool) (xs : List String)
    → length (keep (λ k. not (p k)) xs ++ keep p xs) ≡ length xs
length-parted p xs = length-append (keep (λ k. not (p k)) xs) (keep p xs) ∙ parted xs
  where
    parted : (xs : List String) → length (keep (λ k. not (p k)) xs) + length (keep p xs) ≡ length xs
    parted [] = refl
    parted (x ∷ xs) = ground (arith, parted xs)

pub member-take :
    (n : ℕ) (s : String) (xs : List String) → member s (take n xs) ≡ true → member s xs ≡ true
member-take zero s xs m = ground arith
member-take (suc n) s [] m = m
member-take (suc n) s (x ∷ xs) m = ground (arith, member-take n s xs)

pub Distinct-take : (n : ℕ) (xs : List String) → Distinct xs → Distinct (take n xs)
Distinct-take zero xs d = tt
Distinct-take (suc n) [] d = tt
Distinct-take (suc n) (x ∷ xs) d = (ground (arith, member-take n x xs), Distinct-take n xs d.1)

pub length-take : (n : ℕ) (xs : List String) → n ≤ length xs → length (take n xs) ≡ n
length-take zero xs h = refl
length-take (suc n) [] h = omega arith
length-take (suc n) (x ∷ xs) h = omega (arith, length-take n xs (omega arith))

-- What is cut off the second list is cut off after all of the first.
pub member-take_append :
    (n : ℕ) (us ps : List String) (k j : String)
    → member k (take n (us ++ ps)) ≡ true
    → member k us ≡ false
    → member j us ≡ true
    → member j (take n (us ++ ps)) ≡ true
member-take_append zero us ps k j m a b = ground arith
member-take_append (suc n) [] ps k j m a b = ground arith
member-take_append (suc n) (u ∷ us) ps k j m a b = ground (arith, member-take_append n us ps k j)
