-- ===== src/CrCache/Lookups.antt =====
-- Any sequence of lookups: an object keeps its state, and never gets its predecessor's.
use openstudio_server_operat.Base.{
  String, Bool, true, false, Option, none, some, List, [], ◌∷◌, ◌≡◌, ◌⊎◌, inl, inr, refl, sym, ap,
  ◌∙◌, arith, not, ◌==◌, if◌then◌else◌, same_text, text_self,
}
use openstudio_server_operat.CrCache.{
  Key, is_key, uid_is_stale, Cache, valid_entry, recorded_uid, served, get_or_create,
}

-- One lookup: the key, the uid that the handler observes, and what its factory would make.
pub record Lookup (V : Type 0) : Type 0 where
  pub key : Key
  pub uid : Option String
  pub fresh : V

-- A lookup that may belong to the object: of another key, or with the object's uid or none.
abbrev pub Agrees : {V : Type 0} → Key → String → Lookup V → Type 0
Agrees key u l = (is_key key l.key ≡ false) ⊎ ((l.uid ≡ none) ⊎ (l.uid ≡ some u))

abbrev pub AllAgree : {V : Type 0} → Key → String → List (Lookup V) → Type 0
AllAgree key u [] = Unit
AllAgree key u (l ∷ ls) = Agrees key u l × AllAgree key u ls

pub key_self : (k : Key) → is_key k k ≡ true
key_self k = rw (text_self k.0) (text_self k.1)

pub key_path : (a b : Key) → is_key a b ≡ true → a ≡ b
key_path a b h = λ i. (same_text a.0 b.0 (ground arith) i, same_text a.1 b.1 (ground arith) i)

module _ {V : Type 0} where
  unfoldable pub after : List (Lookup V) → Cache V → Cache V
  unfolding get_or_create
  after [] cache = cache
  after (l ∷ ls) cache = after ls (get_or_create l.key l.uid l.fresh cache).1

  -- A lookup with a uid of an entry with another, by whether they are the same.
  abbrev kept_if : String → V → Bool → Option (Option String × V)
  kept_if u v same_uid = if not same_uid then none else some (some u, v)

  abbrev serve_if : String → String → V → V → Bool → Option String × V
  serve_if u x v fresh same_uid = elim (kept_if u v same_uid) as (λ _. Option String × V) [
    | none ↦ (some x, fresh)
    | some entry ↦ (recorded_uid (some x) entry.0, entry.1)
  ]

  served_foreign :
      (u x : String) (v fresh : V)
      → (u == x) ≡ false
      → served (some x) fresh (some (some u, v)) ≡ (some x, fresh)
  unfolding served valid_entry uid_is_stale
  served_foreign u x v fresh h = ap (λ b. serve_if u x v fresh b) h

  -- An object's own entry is served as it is.
  served_own :
      (u : String) (v fresh : V) (uid : Option String)
      → (uid ≡ none) ⊎ (uid ≡ some u)
      → served uid fresh (some (some u, v)) ≡ (some u, v)
  unfolding served valid_entry uid_is_stale recorded_uid
  served_own u v fresh none h = refl
  served_own u v fresh (some x) (inl e) = cc
  served_own u v fresh (some x) (inr e) =
      ap (λ o. served o fresh (some (some u, v))) e ∙ ap (λ b. serve_if u u v fresh b) (text_self u)

  -- What a lookup with a uid leaves is recorded under that uid.
  served_recorded :
      (u : String) (fresh : V) (found : Option (Option String × V))
      → (served (some u) fresh found).0 ≡ some u
  unfolding served valid_entry uid_is_stale recorded_uid
  served_recorded u fresh none = refl
  served_recorded u fresh (some (none, v)) = refl
  served_recorded u fresh (some (some x, v)) = split (x == u) refl
    where
      split : (b : Bool) → (x == u) ≡ b → (serve_if x u v fresh b).0 ≡ some u
      split true e = ap (λ y. some y) (same_text x u e)
      split false e = refl

  step-kept :
      (key : Key) (u : String) (v : V) (l : Lookup V) (cache : Cache V)
      → cache key ≡ some (some u, v)
      → Agrees key u l
      → (get_or_create l.key l.uid l.fresh cache).1 key ≡ some (some u, v)
  unfolding get_or_create
  step-kept key u v l cache e (inl h) = rw h e
  step-kept key u v l cache e (inr h) = split (is_key key l.key) refl
    where
      split :
          (b : Bool)
          → is_key key l.key ≡ b
          → (if b then some (served l.uid l.fresh (cache l.key)) else cache key) ≡ some (some u, v)
      split false p = e
      split true p =
          ap (λ k. some (served l.uid l.fresh (cache k))) (sym (key_path key l.key p))
          ∙ ap (λ o. some (served l.uid l.fresh o)) e
          ∙ ap (λ x. some x) (served_own u v l.fresh l.uid h)

  after-kept :
      (key : Key) (u : String) (v : V) (ls : List (Lookup V)) (cache : Cache V)
      → cache key ≡ some (some u, v)
      → AllAgree key u ls
      → after ls cache key ≡ some (some u, v)
  unfolding after
  after-kept key u v [] cache e h = e
  after-kept key u v (l ∷ ls) cache e h =
      after-kept key u v ls _ (step-kept key u v l cache e h.0) h.1

  first_entry :
      (key : Key) (u : String) (fresh : V) (cache : Cache V)
      → (get_or_create key (some u) fresh cache).1 key
        ≡ some (some u, (get_or_create key (some u) fresh cache).0)
  unfolding get_or_create
  first_entry key u fresh cache =
      rw (key_self key)
        (λ i. some (served_recorded u fresh (cache key) i, (served (some u) fresh (cache key)).1))

  -- Between two lookups of a key with a uid, with any lookups between them that may belong to the same object: the
  -- second one serves the value of the first if the uids are the same, and else the value of its own factory.
  pub get_or_create-isolated :
      (key : Key) (u x : String) (first second : V) (ls : List (Lookup V)) (cache : Cache V)
      → AllAgree key u ls
      → let (v, cache') = get_or_create key (some u) first cache in
        (get_or_create key (some x) second (after ls cache')).0 ≡ (if u == x then v else second)
  unfolding get_or_create
  get_or_create-isolated key u x first second ls cache h = split (u == x) refl
    where
      v : V
      v = (get_or_create key (some u) first cache).0

      kept : after ls (get_or_create key (some u) first cache).1 key ≡ some (some u, v)
      kept = after-kept key u v ls _ (first_entry key u first cache) h

      split :
          (b : Bool)
          → (u == x) ≡ b
          → (served (some x) second (after ls (get_or_create key (some u) first cache).1 key)).1
            ≡ (if b then v else second)
      split true e =
          ap (λ o. (served (some x) second o).1) kept
          ∙ ap (λ p. p.1)
              (served_own u v second (some x) (inr (ap (λ y. some y) (sym (same_text u x e)))))
      split false e =
          ap (λ o. (served (some x) second o).1) kept
          ∙ ap (λ p. p.1) (served_foreign u x v second e)
