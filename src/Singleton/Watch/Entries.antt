-- ===== src/Singleton/Watch/Entries.antt =====
-- The entries of the bounded cache of fingerprints: what holds of all of them, and which are found.
use openstudio_server_operat.Base.{
  Bool, true, false, Option, none, some, List, [], ◌∷◌, ◌≡◌, refl, sym, ap, if◌then◌else◌, not, ltb,
  length,
}
use openstudio_server_operat.CrCache.{Key, is_key}
use openstudio_server_operat.CrCache.Lookups.{key_path, key_self}
use openstudio_server_operat.Singleton.Watch.{
  max_guard_cache_entries, find, pop, push_last, evict, set,
}

module _ {A : Type 0} where
  abbrev pub Holds : (Key → A → Type 0) → List (Key × A) → Type 0
  Holds P [] = Unit
  Holds P (e ∷ es) = P e.0 e.1 × Holds P es

  -- What passes from one property to another away from a key.
  abbrev pub Passes : Key → (Key → A → Type 0) → (Key → A → Type 0) → Type 0
  Passes k P Q = (j : Key) (v : A) → is_key j k ≡ false → P j v → Q j v

  pub pop-Holds :
      (k : Key) (P Q : Key → A → Type 0) (es : List (Key × A))
      → Passes k P Q
      → Holds P es
      → Holds Q (pop k es)
  pop-Holds k P Q [] f h = tt
  pop-Holds k P Q (e ∷ es) f h = split (is_key e.0 k) refl (pop-Holds k P Q es f h.1)
    where
      split :
          (b : Bool)
          → is_key e.0 k ≡ b
          → Holds Q (pop k es)
          → Holds Q (if not b then e ∷ pop k es else pop k es)
      split true e' rest = rest
      split false e' rest = (f e.0 e.1 e' h.0, rest)

  pub push_last-Holds :
      (k : Key) (v : A) (Q : Key → A → Type 0) (es : List (Key × A))
      → Q k v
      → Holds Q es
      → Holds Q (push_last k v es)
  push_last-Holds k v Q [] q h = (q, tt)
  push_last-Holds k v Q (e ∷ es) q h = (h.0, push_last-Holds k v Q es q h.1)

  evict-Holds : (Q : Key → A → Type 0) (es : List (Key × A)) → Holds Q es → Holds Q (evict es)
  unfolding evict
  evict-Holds Q [] h = tt
  evict-Holds Q (e ∷ es) h =
      split (ltb max_guard_cache_entries (length (e ∷ es))) (evict-Holds Q es h.1)
    where
      split : (b : Bool) → Holds Q (evict es) → Holds Q (if b then evict es else e ∷ es)
      split true rest = rest
      split false rest = h

  -- An entry that is found has the property.
  pub find-Holds :
      (k : Key) (v : A) (P : Key → A → Type 0) (es : List (Key × A))
      → Holds P es
      → find k es ≡ some v
      → P k v
  find-Holds k v P [] h g = cc
  find-Holds k v P (e ∷ es) h g = split (λ g'. find-Holds k v P es h.1 g') (is_key e.0 k) refl g
    where
      split :
          (find k es ≡ some v → P k v)
          → (b : Bool) → is_key e.0 k ≡ b
          → (if b then some e.1 else find k es) ≡ some v
          → P k v
      split rest true p g' =
          let same_value : e.1 ≡ v = ap (λ o. elim o as (λ _. A) [ none ↦ e.1 | some x ↦ x ]) g' in
          rw (sym (key_path e.0 k p)) (rw (sym same_value) h.0)
      split rest false p g' = rest g'

  -- Without an entry of the key, all are away from it.
  unfound-Holds :
      (k : Key) (P Q : Key → A → Type 0) (es : List (Key × A))
      → Passes k P Q
      → find k es ≡ none
      → Holds P es
      → Holds Q es
  unfound-Holds k P Q [] f g h = tt
  unfound-Holds k P Q (e ∷ es) f g h =
      split (λ g'. unfound-Holds k P Q es f g' h.1) (is_key e.0 k) refl g
    where
      split :
          (find k es ≡ none → Holds Q es)
          → (b : Bool) → is_key e.0 k ≡ b
          → (if b then some e.1 else find k es) ≡ none
          → Holds Q (e ∷ es)
      split rest true p g' = cc
      split rest false p g' = (f e.0 e.1 p h.0, rest g')

  pub set-Holds :
      (k : Key) (v : A) (P Q : Key → A → Type 0) (es : List (Key × A))
      → Passes k P Q
      → Q k v
      → Holds P es
      → Holds Q (set k v es)
  unfolding set
  set-Holds k v P Q es f q h = split (find k es) refl
    where
      split :
          (o : Option A)
          → find k es ≡ o
          → Holds Q (elim o as (λ _. List (Key × A)) [
            | none ↦ evict (push_last k v es)
            | some _ ↦ push_last k v (pop k es)
          ])
      split none e = evict-Holds Q _ (push_last-Holds k v Q es q (unfound-Holds k P Q es f e h))
      split (some w) e = push_last-Holds k v Q _ q (pop-Holds k P Q es f h)

  pub find-push_last :
      (k : Key) (v : A) (es : List (Key × A)) → find k (push_last k v (pop k es)) ≡ some v
  find-push_last k v [] = rw (key_self k) refl
  find-push_last k v (e ∷ es) = split (is_key e.0 k) refl (find-push_last k v es)
    where
      split :
          (b : Bool)
          → is_key e.0 k ≡ b
          → find k (push_last k v (pop k es)) ≡ some v
          → find k (push_last k v (if not b then e ∷ pop k es else pop k es)) ≡ some v
      split true p rest = rest
      split false p rest = rw p rest

  find-push_last_unfound :
      (k : Key) (v : A) (es : List (Key × A))
      → find k es ≡ none
      → find k (push_last k v es) ≡ some v
  find-push_last_unfound k v [] g = rw (key_self k) refl
  find-push_last_unfound k v (e ∷ es) g =
      split (λ h. find-push_last_unfound k v es h) (is_key e.0 k) g
    where
      split :
          (find k es ≡ none → find k (push_last k v es) ≡ some v)
          → (b : Bool) → (if b then some e.1 else find k es) ≡ none
          → (if b then some e.1 else find k (push_last k v es)) ≡ some v
      split rest true h = cc
      split rest false h = rest h

  -- The newest entry is not evicted.
  find-evict :
      (k : Key) (v : A) (es : List (Key × A))
      → find k es ≡ none
      → find k (evict (push_last k v es)) ≡ some v
  unfolding evict
  find-evict k v [] h = rw (key_self k) refl
  find-evict k v (e ∷ es) h =
      split (λ g. find-evict k v es g) (is_key e.0 k) refl h
        (ltb max_guard_cache_entries (length (e ∷ push_last k v es)))
    where
      split :
          (find k es ≡ none → find k (evict (push_last k v es)) ≡ some v)
          → (b : Bool) → is_key e.0 k ≡ b
          → (if b then some e.1 else find k es) ≡ none
          → (c : Bool)
          → find k (if c then evict (push_last k v es) else e ∷ push_last k v es) ≡ some v
      split rest true p g c = cc
      split rest false p g true = rest g
      split rest false p g false = rw p (find-push_last_unfound k v es g)

  pub find-set : (k : Key) (v : A) (es : List (Key × A)) → find k (set k v es) ≡ some v
  unfolding set
  find-set k v es = split (find k es) refl
    where
      split :
          (o : Option A)
          → find k es ≡ o
          → find k (elim o as (λ _. List (Key × A)) [
            | none ↦ evict (push_last k v es)
            | some _ ↦ push_last k v (pop k es)
          ])
            ≡ some v
      split none e = find-evict k v es e
      split (some w) e = find-push_last k v es
