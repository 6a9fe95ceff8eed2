-- ===== src/Wire.antt =====
-- The JSON objects that the status maps hold: `to_dict` and `from_dict` of the four records of
-- src/openstudio_operator/status_store.py. `isoformat` and `fromisoformat`, and Python's `str` and `int` on values
-- that the operator itself does not write, are parameters; a raise's message is not kept.
pub mod Fields
pub mod Roundtrip
use openstudio_server_operat.Base.{ℕ, String, Bool, true, false, Option, none, some, List, [], ◌∷◌}
use openstudio_server_operat.Base.Dict.{Dict, lookup, insert}
use openstudio_server_operat.Clock.{Time}
use openstudio_server_operat.Status.{
  SoftStopRecord, RequeueRecord, ArchivedAnalysisRecord, StopRecord,
}

-- A JSON value: a text, an integer, null, or another one by what `str` makes of it.
pub data Value : Type 0 where
  text : String → Value
  int : ℕ → Value
  null : Value
  other : String → Value

abbrev pub Object : Type 0
Object = Dict Value

-- What a map holds under a key.
pub data Raw : Type 0 where
  object : Object → Raw
  no_object : Raw

-- A parsed value, a `StatusStoreError`, or the `TypeError` or `ValueError` of a conversion.
pub data Decoded (A : Type 0) : Type 0 where
  decoded : A → Decoded A
  store_error conversion_error : Decoded A

-- The conversions that the standard library gives.
pub record Codec : Type 0 where
  pub isoformat : Time → String
  pub fromisoformat : String → Option Time
  pub str_of_int : ℕ → String
  pub int_of_text : String → Option ℕ

infixl 5 ◌>>=◌
abbrev pub ◌>>=◌ : {A B : Type 0} → Decoded A → (A → Decoded B) → Decoded B
decoded a >>= f = f a
store_error >>= f = store_error
conversion_error >>= f = conversion_error

-- `if value is not None: encoded[key] = value`
abbrev pub put_if : String → Option Value → Object → Object
put_if key none encoded = encoded
put_if key (some v) encoded = insert key v encoded

-- `_required`
abbrev pub required : Option Value → Decoded Value
required none = store_error
required (some v) = decoded v

-- `raw.get(key)`, where an absent key and null are the same.
abbrev pub present : Option Value → Option Value
present none = none
present (some null) = none
present (some (text s)) = some (text s)
present (some (int n)) = some (int n)
present (some (other s)) = some (other s)

abbrev pub parsed : Option Time → Decoded Time
parsed none = store_error
parsed (some t) = decoded t

abbrev pub converted : Option ℕ → Decoded ℕ
converted none = conversion_error
converted (some n) = decoded n

module _ (codec : Codec) where
  -- A time as it is stored.
  abbrev pub time : Time → Value
  time t = text (codec.isoformat t)

  abbrev pub opt_time : Option Time → Option Value
  opt_time none = none
  opt_time (some t) = some (time t)

  abbrev pub opt_text : Option String → Option Value
  opt_text none = none
  opt_text (some s) = some (text s)

  -- `_parse_utc`
  abbrev pub parse_utc : Value → Decoded Time
  parse_utc (text s) = parsed (codec.fromisoformat s)
  parse_utc (int n) = conversion_error
  parse_utc null = store_error
  parse_utc (other s) = conversion_error

  -- `str(value)`
  abbrev pub str : Value → String
  str (text s) = s
  str (int n) = codec.str_of_int n
  str null = "None"
  str (other s) = s

  -- `int(value)`; of other values the conversion is taken to raise.
  abbrev pub int_of : Value → Decoded ℕ
  int_of (int n) = decoded n
  int_of (text s) = converted (codec.int_of_text s)
  int_of null = conversion_error
  int_of (other s) = conversion_error

  -- `None if value is None else _parse_utc(value)`
  abbrev pub opt_parse_utc : Option Value → Decoded (Option Time)
  opt_parse_utc none = decoded none
  opt_parse_utc (some v) = do t ← parse_utc v; decoded (some t)

  abbrev pub opt_str : Option Value → Option String
  opt_str none = none
  opt_str (some v) = some (str v)

  unfoldable pub soft_stop_to_dict : SoftStopRecord → Object
  soft_stop_to_dict r = put_if "escalationOutcome" (opt_text r.escalation_outcome) (
      put_if "escalatedAt" (opt_time r.escalated_at)
        (("issuedAt", time r.issued_at) ∷ ("outcome", text r.outcome) ∷ []))

  -- `from_dict`, on what stands under the keys.
  abbrev pub soft_stop_of :
      Option Value → Option Value → Option Value → Option Value → Decoded SoftStopRecord
  soft_stop_of issued outcome escalated escalation = do
    issued_raw ← required issued
    issued_at ← parse_utc issued_raw
    word ← required outcome
    escalated_at ← opt_parse_utc (present escalated)
    decoded (record {
      issued_at = issued_at;
      outcome = str word;
      escalated_at = escalated_at;
      escalation_outcome = opt_str (present escalation);
    })

  unfoldable pub soft_stop_from_dict : Raw → Decoded SoftStopRecord
  soft_stop_from_dict no_object = store_error
  soft_stop_from_dict (object raw) =
      soft_stop_of (lookup "issuedAt" raw) (lookup "outcome" raw) (lookup "escalatedAt" raw)
        (lookup "escalationOutcome" raw)

  unfoldable pub requeue_to_dict : RequeueRecord → Object
  requeue_to_dict r = ("count", int r.count) ∷ ("lastRequeuedAt", time r.last_requeued_at) ∷ []

  abbrev pub requeue_of : Option Value → Option Value → Decoded RequeueRecord
  requeue_of count last = do
    count_raw ← required count
    n ← int_of count_raw
    last_raw ← required last
    last_requeued_at ← parse_utc last_raw
    decoded (record { count = n; last_requeued_at = last_requeued_at })

  unfoldable pub requeue_from_dict : Raw → Decoded RequeueRecord
  requeue_from_dict no_object = store_error
  requeue_from_dict (object raw) = requeue_of (lookup "count" raw) (lookup "lastRequeuedAt" raw)

  -- `bucket` is written as null where there is none.
  abbrev pub or_null : Option Value → Value
  or_null none = null
  or_null (some v) = v

  unfoldable pub archived_to_dict : ArchivedAnalysisRecord → Object
  archived_to_dict r = put_if "spawnedAt" (opt_time r.spawned_at) (
      put_if "jobName" (opt_text r.job_name) (
        put_if "verifiedAt" (opt_time r.verified_at)
          (("backend", text r.backend) ∷ ("bucket", or_null (opt_text r.bucket)) ∷ [])))

  -- A stored `bucket` is passed on as it is; the operator writes texts and null only.
  abbrev pub archived_of :
      Option Value
      → Option Value
      → Option Value
      → Option Value
      → Option Value
      → Decoded ArchivedAnalysisRecord
  archived_of backend bucket verified job spawned = do
    backend_raw ← required backend
    verified_at ← opt_parse_utc (present verified)
    spawned_at ← opt_parse_utc (present spawned)
    decoded (record {
      backend = str backend_raw;
      bucket = opt_str (present bucket);
      verified_at = verified_at;
      job_name = opt_str (present job);
      spawned_at = spawned_at;
    })

  unfoldable pub archived_from_dict : Raw → Decoded ArchivedAnalysisRecord
  archived_from_dict no_object = store_error
  archived_from_dict (object raw) =
      archived_of (lookup "backend" raw) (lookup "bucket" raw) (lookup "verifiedAt" raw)
        (lookup "jobName" raw) (lookup "spawnedAt" raw)

  unfoldable pub stop_to_dict : StopRecord → Object
  stop_to_dict r =
      put_if "stoppedAt" (opt_time r.stopped_at)
        (("issuedAt", time r.issued_at) ∷ ("outcome", text r.outcome) ∷ [])

  abbrev pub stop_of : Option Value → Option Value → Option Value → Decoded StopRecord
  stop_of issued outcome stopped = do
    issued_raw ← required issued
    issued_at ← parse_utc issued_raw
    word ← required outcome
    stopped_at ← opt_parse_utc (present stopped)
    decoded (record { issued_at = issued_at; outcome = str word; stopped_at = stopped_at })

  unfoldable pub stop_from_dict : Raw → Decoded StopRecord
  stop_from_dict no_object = store_error
  stop_from_dict (object raw) =
      stop_of (lookup "issuedAt" raw) (lookup "outcome" raw) (lookup "stoppedAt" raw)
