-- ===== src/Base/Dict.antt =====
-- A Python dict keyed by texts, in insertion order.
use openstudio_server_operat.Base.{
  any, ◌||◌, String, ◌≡◌, refl, Bool, true, false, Option, none, some, List, [], ◌∷◌, arith, ◌==◌,
  if◌then◌else◌, ◌+◌, ◌≤◌, length, member, Bool-cases, inl, inr,
}

abbrev pub Dict {ℓ} : Type ℓ → Type ℓ
Dict V = List (String × V)

module _ {ℓ} {V : Type ℓ} where
  -- `d.get(k)`
  unfoldable pub lookup : String → Dict V → Option V
  lookup k [] = none
  lookup k (e ∷ d) = if k == e.0 then some e.1 else lookup k d

  -- `d[k] = v`
  unfoldable pub insert : String → V → Dict V → Dict V
  insert k v [] = (k, v) ∷ []
  insert k v (e ∷ d) = if k == e.0 then (k, v) ∷ d else e ∷ insert k v d

  -- `del d[k]`, which holds `k` once at most.
  unfoldable pub erase : String → Dict V → Dict V
  erase k [] = []
  erase k (e ∷ d) = if k == e.0 then erase k d else e ∷ erase k d

  -- `del d[k]` for every `k` of a list.
  unfoldable pub erase_all : List String → Dict V → Dict V
  erase_all ks [] = []
  erase_all ks (e ∷ d) = if member e.0 ks then erase_all ks d else e ∷ erase_all ks d

  -- `list(d)`
  unfoldable pub keys : Dict V → List String
  keys [] = []
  keys (e ∷ d) = e.0 ∷ keys d

  -- `k in d`
  unfoldable pub has : String → Dict V → Bool
  unfolding lookup
  has k d = elim (lookup k d) [ none ↦ false | some _ ↦ true ]

  pub lookup-insert :
      (j k : String) (v : V) (d : Dict V)
      → lookup j (insert k v d) ≡ (if j == k then some v else lookup j d)
  unfolding lookup insert
  lookup-insert j k v [] = refl
  lookup-insert j k v (e ∷ d) = ground (arith, lookup-insert j k v d)

  pub lookup-erase :
      (j k : String) (d : Dict V) → lookup j (erase k d) ≡ (if j == k then none else lookup j d)
  unfolding lookup erase
  lookup-erase j k [] = ground arith
  lookup-erase j k (e ∷ d) = ground (arith, lookup-erase j k d)

  pub lookup-erase_all :
      (j : String) (ks : List String) (d : Dict V)
      → lookup j (erase_all ks d) ≡ (if member j ks then none else lookup j d)
  unfolding lookup erase_all
  lookup-erase_all j ks [] = ground arith
  lookup-erase_all j ks (e ∷ d) = elim (Bool-cases (member e.0 ks)) [
    | inl m ↦ rw (m, lookup-erase_all j ks d) (ground (arith, m))
    | inr m ↦ rw (m, lookup-erase_all j ks d) (ground (arith, m))
  ]

  pub length-insert-le : (k : String) (v : V) (d : Dict V) → length (insert k v d) ≤ length d + 1
  unfolding insert
  length-insert-le k v [] = omega arith
  length-insert-le k v (e ∷ d) = ground (arith, length-insert-le k v d)

  pub length-erase-le : (k : String) (d : Dict V) → length (erase k d) ≤ length d
  unfolding erase
  length-erase-le k [] = omega arith
  length-erase-le k (e ∷ d) = ground (arith, length-erase-le k d)

  pub length-erase_all-le : (ks : List String) (d : Dict V) → length (erase_all ks d) ≤ length d
  unfolding erase_all
  length-erase_all-le ks [] = omega arith
  length-erase_all-le ks (e ∷ d) = ground (arith, length-erase_all-le ks d)

  pub member-keys : (k : String) (d : Dict V) → member k (keys d) ≡ has k d
  unfolding keys has
  member-keys k [] = refl
  member-keys k (e ∷ d) = ground (arith, member-keys k d)

  -- What some entry of a changed dict has, some entry had before, or the new one has.
  pub any-insert :
      (f : String × V → Bool) (k : String) (v : V) (d : Dict V)
      → any f (insert k v d) ≡ true
      → f (k, v) || any f d ≡ true
  unfolding insert
  any-insert f k v [] h = ground arith
  any-insert f k v (e ∷ d) h = ground (arith, any-insert f k v d)

  pub any-erase_all :
      (f : String × V → Bool) (ks : List String) (d : Dict V)
      → any f (erase_all ks d) ≡ true
      → any f d ≡ true
  unfolding erase_all
  any-erase_all f ks [] h = h
  any-erase_all f ks (e ∷ d) h = ground (arith, any-erase_all f ks d)
