-- ===== src/Singleton/RedisEvents.antt =====
-- The one-time Warning Events about the Redis settings of a custom resource
-- (`_emit_redis_url_guard_events` and `_emit_redis_secret_ref_forbidden_events` of
-- src/openstudio_operator/singleton.py). An absent spec is one without fields. The read of the Secret is a parameter.
use openstudio_server_operat.Base.{
  String, Bool, false, Option, none, some, List, [], ◌∷◌, not, ◌&&◌, ◌||◌, if◌then◌else◌, ◌==◌,
  is_none,
}
use openstudio_server_operat.Config.{RedisSecretRef}
use openstudio_server_operat.Config.Spec.{RawSpec, absent, wrong, dict, Field, text}
use openstudio_server_operat.CrCache.{Key, is_key}
use openstudio_server_operat.Singleton.{Cr, or_empty}

-- A custom resource of the list.
pub record Listed : Type 0 where
  pub cr : Cr
  pub namespace : Option String
  pub spec : RawSpec

abbrev pub ref_of : Field → Field → Option RedisSecretRef
ref_of (text name) (text key) =
    if name == ""
    then none
    else if key == ""
    then none
    else some (record { name = name; key = key })
ref_of _ _ = none

-- `_redis_secret_ref_of`
unfoldable pub redis_secret_ref_of : RawSpec → Option RedisSecretRef
redis_secret_ref_of spec = elim spec.redis_credentials [
  | absent ↦ none
  | wrong ↦ none
  | dict absent ↦ none
  | dict wrong ↦ none
  | dict (dict ref) ↦ ref_of ref.name ref.key
]

-- `_has_redis_secret_ref`
unfoldable pub has_redis_secret_ref : RawSpec → Bool
unfolding redis_secret_ref_of
has_redis_secret_ref spec = not (is_none (redis_secret_ref_of spec))

-- `key in warned`
abbrev pub has_key : Key → List Key → Bool
has_key k [] = false
has_key k (x ∷ xs) = is_key k x || has_key k xs

-- The (namespace, name) of an item; none for a nameless one.
abbrev pub item_key : Listed → Option Key
item_key item =
    if or_empty item.namespace == "" || or_empty item.cr.name == ""
    then none
    else some (or_empty item.namespace, or_empty item.cr.name)

-- The key, unless it is there.
abbrev pub unwarned : List Key → Option Key → Option Key
unwarned warned none = none
unwarned warned (some k) = if has_key k warned then none else some k

abbrev pub has_no_url : RawSpec → Bool
has_no_url spec = or_empty spec.redis_url == "" && not (has_redis_secret_ref spec)

-- The key of an item whose Event is due.
abbrev pub url_due : Listed → List Key → Option Key
url_due item warned = if has_no_url item.spec then unwarned warned (item_key item) else none

-- `_emit_redis_url_guard_events`: the set of the warned ones after it, and the objects of its Events.
unfoldable pub emit_redis_url_guard_events : List Listed → List Key → List Key × List Key
unfolding has_redis_secret_ref
emit_redis_url_guard_events [] warned = (warned, [])
emit_redis_url_guard_events (x ∷ xs) warned = elim (url_due x warned) [
  | none ↦ emit_redis_url_guard_events xs warned
  | some k ↦ let rest = emit_redis_url_guard_events xs (k ∷ warned) in (rest.0, k ∷ rest.1)
]

-- How the read of a Secret ends: with a client, with a 403, or with another failure.
pub data Probe : Type 0 where
  resolved forbidden failed : Probe

-- What an item comes to: nothing, a silent mark, or a mark and an Event.
pub data Finding : Type 0 where
  nothing : Finding
  marked denied : Key → Finding

abbrev pub outcome : Key → Probe → Finding
outcome k resolved = marked k
outcome k forbidden = denied k
outcome k failed = nothing

abbrev pub probe_ref :
    (String → RedisSecretRef → Probe) → Option Key → Option RedisSecretRef → Finding
probe_ref probe (some k) (some ref) = outcome k (probe k.0 ref)
probe_ref probe _ _ = nothing

abbrev pub probe_item : (String → RedisSecretRef → Probe) → Listed → List Key → Finding
probe_item probe item warned =
    probe_ref probe (unwarned warned (item_key item)) (redis_secret_ref_of item.spec)

-- `_emit_redis_secret_ref_forbidden_events`, likewise.
unfoldable pub emit_redis_secret_ref_forbidden_events :
    (String → RedisSecretRef → Probe) → List Listed → List Key → List Key × List Key
emit_redis_secret_ref_forbidden_events probe [] warned = (warned, [])
emit_redis_secret_ref_forbidden_events probe (x ∷ xs) warned = elim (probe_item probe x warned) [
  | nothing ↦ emit_redis_secret_ref_forbidden_events probe xs warned
  | marked k ↦ emit_redis_secret_ref_forbidden_events probe xs (k ∷ warned)
  | denied k ↦
      let rest = emit_redis_secret_ref_forbidden_events probe xs (k ∷ warned) in
      (rest.0, k ∷ rest.1)
]
