-- ===== src/CrCache.antt =====
-- The per-CR caches of the handlers (src/openstudio_operator/_cr_cache.py): one entry for each
-- (namespace, name), validated by the custom resource's uid. Logs and `on_fresh`, which only warns, are not
-- modelled.
pub mod Lookups
use openstudio_server_operat.Base.{
  String, Bool, true, false, Option, none, some, List, [], ◌∷◌, not, ◌&&◌, ◌==◌, if◌then◌else◌,
}

abbrev pub Key : Type 0
Key = String × String

abbrev pub is_key : Key → Key → Bool
is_key a b = a.0 == b.0 && a.1 == b.1

-- A kopf body: a value without `get`, one whose `metadata` is no mapping, or the `uid` of its metadata.
pub data Body : Type 0 where
  no_mapping no_metadata : Body
  metadata : Option String → Body

-- `str(uid) if uid else None`
abbrev pub given : Option String → Option String
given none = none
given (some uid) = if uid == "" then none else some uid

unfoldable pub cr_uid : Body → Option String
cr_uid no_mapping = none
cr_uid no_metadata = none
cr_uid (metadata uid) = given uid

unfoldable pub uid_is_stale : Option String → Option String → Bool
uid_is_stale none observed = false
uid_is_stale (some recorded) none = false
uid_is_stale (some recorded) (some observed) = not (recorded == observed)

-- What `reset` comes to.
pub data Reset (A : Type 0) : Type 0 where
  done : A → Reset A
  value_error : Reset A

-- `PerCRCache`: the recorded uid and the value of each key.
abbrev pub Cache : Type 0 → Type 0
Cache V = Key → Option (Option String × V)

-- The uid that is recorded at a lookup: the first sighting is kept.
unfoldable pub recorded_uid : Option String → Option String → Option String
recorded_uid none recorded = recorded
recorded_uid (some uid) none = some uid
recorded_uid (some uid) (some recorded) = some recorded

module _ {V : Type 0} where
  abbrev pub set_entry : Key → Option (Option String × V) → Cache V → Cache V
  set_entry key entry cache = λ k. if is_key k key then entry else cache k

  -- The entry, unless it belongs to another object of the same name.
  unfoldable pub valid_entry :
      Option String → Option (Option String × V) → Option (Option String × V)
  unfolding uid_is_stale
  valid_entry uid none = none
  valid_entry uid (some entry) = if uid_is_stale entry.0 uid then none else some entry

  -- The entry after a lookup, where the factory would make `fresh`.
  unfoldable pub served : Option String → V → Option (Option String × V) → Option String × V
  unfolding valid_entry recorded_uid
  served uid fresh found = elim (valid_entry uid found) [
    | none ↦ (uid, fresh)
    | some entry ↦ (recorded_uid uid entry.0, entry.1)
  ]

  -- `get_or_create`: the value, and the cache after it.
  unfoldable pub get_or_create : Key → Option String → V → Cache V → V × Cache V
  unfolding served
  get_or_create key uid fresh cache =
      let entry = served uid fresh (cache key) in (entry.1, set_entry key (some entry) cache)

  unfoldable pub reset : Option String → Option String → Cache V → Reset (Cache V)
  reset none none cache = done (λ _. none)
  reset (some namespace) (some name) cache = done (set_entry (namespace, name) none cache)
  reset (some namespace) none cache = value_error
  reset none (some name) cache = value_error
