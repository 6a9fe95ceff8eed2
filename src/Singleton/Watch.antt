-- ===== src/Singleton/Watch.antt =====
-- The check of the singleton guard and the handler of its watch events (`_check`, `_BoundedGuardCache`,
-- `_skip_guard_relist`, `singleton_guard_startup` and `singleton_guard_event` of
-- src/openstudio_operator/singleton.py). Mappings are of any type with Python's `==`.
pub mod Bounds
pub mod Entries
pub mod Once
pub mod Skips
pub mod Missed
use openstudio_server_operat.Base.{
  ℕ, String, Bool, true, false, Option, none, some, List, [], ◌∷◌, ◌++◌, map, not, ◌&&◌, ltb,
  length, keep, if◌then◌else◌, ◌==◌, is_some,
}
use openstudio_server_operat.CrCache.{Key, is_key}
use openstudio_server_operat.Singleton.{or_empty, ok, guard_error, Snapshot, GuardEvent, enforce}
use openstudio_server_operat.Config.{RedisSecretRef}
use openstudio_server_operat.Singleton.RedisEvents.{
  Listed, Probe, emit_redis_url_guard_events, emit_redis_secret_ref_forbidden_events,
}

-- `_MAX_GUARD_CACHE_ENTRIES`
abbrev pub max_guard_cache_entries : ℕ
max_guard_cache_entries = 1000

module _ {A : Type 0} where
  -- The `OrderedDict` of `_BoundedGuardCache`, the oldest entry first.
  abbrev pub find : Key → List (Key × A) → Option A
  find k [] = none
  find k (e ∷ es) = if is_key e.0 k then some e.1 else find k es

  -- `pop`
  abbrev pub pop : Key → List (Key × A) → List (Key × A)
  pop k = keep (λ e. not (is_key e.0 k))

  abbrev pub push_last : Key → A → List (Key × A) → List (Key × A)
  push_last k v entries = entries ++ ((k, v) ∷ [])

  -- `get`: an entry that is found moves to the end.
  unfoldable pub get : Key → List (Key × A) → Option A × List (Key × A)
  get k entries = elim (find k entries) [
    | none ↦ (none, entries)
    | some v ↦ (some v, push_last k v (pop k entries))
  ]

  -- `while len(self._data) > _MAX_GUARD_CACHE_ENTRIES: self._data.popitem(last=False)`
  unfoldable pub evict : List (Key × A) → List (Key × A)
  evict [] = []
  evict (e ∷ es) =
      let rest = evict es in if ltb max_guard_cache_entries (length (e ∷ es)) then rest else e ∷ es

  -- `set`
  unfoldable pub set : Key → A → List (Key × A) → List (Key × A)
  unfolding evict
  set k v entries = elim (find k entries) [
    | none ↦ evict (push_last k v entries)
    | some _ ↦ push_last k v (pop k entries)
  ]

-- `_cr_policy_surface`
pub record Surface (F : Type 0) : Type 0 where
  pub uid : String
  pub spec : Option F
  pub labels : Option F
  pub annotations : Option F
  pub deletion : String

-- The `type` of a watch event, which a list replay lacks.
pub data Kind : Type 0 where
  replayed added modified deleted : Kind

-- The body of a watch event, where a value that is no mapping is absent.
pub record EventBody (F : Type 0) : Type 0 where
  pub uid : Option String
  pub spec : Option F
  pub labels : Option F
  pub annotations : Option F
  pub deletion : Option String

pub record Event (F : Type 0) : Type 0 where
  pub kind : Kind
  pub key : Key
  pub body : EventBody F

-- What the cluster answers to a check: the list, none where it fails, and the reads of Secrets.
pub record Reply : Type 0 where
  pub listing : Option (List Listed)
  pub probe : String → RedisSecretRef → Probe

-- The module's state: the guard's `_last_state` (none without a guard too), the fingerprints, and
-- the sets `_redis_url_warned` and `_redis_secret_ref_forbidden_warned`.
pub record Process (F : Type 0) : Type 0 where
  pub last : Option Snapshot
  pub seen : List (Key × Surface F)
  pub url_warned : List Key
  pub forbidden_warned : List Key

-- The Events of a check, the three groups in their order.
pub record Emitted : Type 0 where
  pub guard : List GuardEvent
  pub url : List Key
  pub refused : List Key

abbrev pub silent : Emitted
silent = record { guard = []; url = []; refused = [] }

abbrev pub join : Emitted → Emitted → Emitted
join a b = record {
  guard = a.guard ++ b.guard;
  url = a.url ++ b.url;
  refused = a.refused ++ b.refused;
}

abbrev pub is_modified : Kind → Bool
is_modified kind = elim kind [
  | modified ↦ true
  | replayed ↦ false
  | added ↦ false
  | deleted ↦ false
]

-- `enforce` within `_check`: a `SingletonGuardError` is logged.
abbrev pub enforced : List Listed → Option Snapshot → Option Snapshot × List GuardEvent
enforced items last = elim (enforce (map (λ x. x.cr) items) last) [
  | ok result ↦ result
  | guard_error ↦ (last, [])
]

module _ {F : Type 0} where
  abbrev pub start : Process F
  start = record { last = none; seen = []; url_warned = []; forbidden_warned = [] }

  abbrev pub with_seen : List (Key × Surface F) → Process F → Process F
  with_seen seen p = record {
    last = p.last;
    seen = seen;
    url_warned = p.url_warned;
    forbidden_warned = p.forbidden_warned;
  }

  abbrev pub cr_policy_surface : EventBody F → Surface F
  cr_policy_surface body = record {
    uid = or_empty body.uid;
    spec = body.spec;
    labels = body.labels;
    annotations = body.annotations;
    deletion = or_empty body.deletion;
  }

  -- `_check`, once its list is known.
  abbrev pub check_items : Option (List Listed) → Reply → Process F → Process F × Emitted
  check_items none reply p = (p, silent)
  check_items (some items) reply p =
      let (last, guard) = enforced items p.last in
      let (url_warned, url) = emit_redis_url_guard_events items p.url_warned in
      let (forbidden_warned, refused) =
        emit_redis_secret_ref_forbidden_events reply.probe items p.forbidden_warned in
      (
        record {
          last = last;
          seen = p.seen;
          url_warned = url_warned;
          forbidden_warned = forbidden_warned;
        },
        record { guard = guard; url = url; refused = refused },
      )

  -- `_check`
  unfoldable pub check : String → Reply → Process F → Process F × Emitted
  check namespace reply p =
      if namespace == "" then (p, silent) else check_items reply.listing reply p

  -- `singleton_guard_startup`, where `POD_NAMESPACE` may be unset.
  unfoldable pub singleton_guard_startup : Option String → Reply → Process F → Process F × Emitted
  unfolding check
  singleton_guard_startup pod_namespace reply p = check (or_empty pod_namespace) reply p

module _ {F : Type 0} (same : F → F → Bool) where
  abbrev pub same_option : Option F → Option F → Bool
  same_option none none = true
  same_option (some a) (some b) = same a b
  same_option _ _ = false

  abbrev pub same_surface : Surface F → Surface F → Bool
  same_surface a b =
      a.uid == b.uid
      && (same_option a.spec b.spec
          && (same_option a.labels b.labels
              && (same_option a.annotations b.annotations && a.deletion == b.deletion)))

  -- `seen is not None and seen == surface`
  abbrev pub is_repeat : Option (Surface F) → Surface F → Bool
  is_repeat none surface = false
  is_repeat (some seen) surface = same_surface seen surface

  abbrev pub compare_found :
      Surface F → Option (Surface F) × List (Key × Surface F) → Bool × List (Key × Surface F)
  compare_found surface (found, seen) = (is_repeat found surface, seen)

  -- `_skip_guard_relist`, with the cache after it.
  unfoldable pub skip_guard_relist : Event F → Process F → Bool × List (Key × Surface F)
  unfolding get
  skip_guard_relist e p = elim (is_modified e.kind && is_some p.last) [
    | true ↦ compare_found (cr_policy_surface e.body) (get e.key p.seen)
    | false ↦ (false, p.seen)
  ]

  abbrev pub record_surface : Event F → Process F × Emitted → Process F × Emitted
  record_surface e (p, out) = (with_seen (set e.key (cr_policy_surface e.body) p.seen) p, out)

  abbrev pub unless_skipped : Event F → Reply → Process F → Bool → Process F × Emitted
  unless_skipped e reply p true = (p, silent)
  unless_skipped e reply p false = record_surface e (check e.key.0 reply p)

  -- `singleton_guard_event`
  unfoldable pub singleton_guard_event : Event F → Reply → Process F → Process F × Emitted
  unfolding skip_guard_relist check set
  singleton_guard_event e reply p = elim e.kind [
    | deleted ↦ check e.key.0 reply (with_seen (pop e.key p.seen) p)
    | _ ↦ let (skip, seen) = skip_guard_relist e p in unless_skipped e reply (with_seen seen p) skip
  ]

  -- A run over watch events, the latest first: the state, and all Events.
  unfoldable pub run : List (Event F × Reply) → Process F × Emitted
  unfolding singleton_guard_event
  run [] = (start, silent)
  run (x ∷ xs) =
      let (p, out) = run xs in
      let (after, new) = singleton_guard_event x.0 x.1 p in (after, join out new)
