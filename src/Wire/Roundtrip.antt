-- ===== src/Wire/Roundtrip.antt =====
-- What is stored is read back, alone and after a merge patch.
use openstudio_server_operat.Base.{String, Option, none, some, ◌≡◌, refl, ◌∙◌}
use openstudio_server_operat.Base.Dict.{lookup}
use openstudio_server_operat.Clock.{Time}
use openstudio_server_operat.Status.Merge.{or_old}
use openstudio_server_operat.Status.{
  SoftStopRecord, RequeueRecord, ArchivedAnalysisRecord, StopRecord,
}
use openstudio_server_operat.Wire.{
  Value, text, int, null, other, Object, object, decoded, Codec, soft_stop_to_dict,
  soft_stop_from_dict, requeue_to_dict, requeue_from_dict, archived_to_dict, archived_from_dict,
  stop_to_dict, stop_from_dict, present, opt_time, opt_text, or_null,
}
use openstudio_server_operat.Wire.Fields.{
  Faithful, soft_stop_to_dict-SoftStopFields, soft_stop-read, requeue_to_dict-RequeueFields,
  requeue-read, archived_to_dict-ArchivedFields, archived-bucket, archived-read,
  stop_to_dict-StopFields, stop-read,
}

-- The value of a key after the merge patch of RFC 7386: null removes, an absent key keeps.
abbrev pub merged : Option Value → Option Value → Option Value
merged none old = old
merged (some null) old = none
merged (some (text s)) old = some (text s)
merged (some (int n)) old = some (int n)
merged (some (other s)) old = some (other s)

-- What RFC 7386 says of the API server's merge, `patch` before `target`, on objects of plain values.
abbrev pub Rfc7386 : (Object → Object → Object) → Type 0
Rfc7386 merge =
    (patch target : Object) (k : String)
    → lookup k (merge patch target) ≡ merged (lookup k patch) (lookup k target)

module _ (codec : Codec) (law : Faithful codec) where
  -- Each of the four records that the status maps hold is read back as it was written.
  pub records-roundtrip :
      ((r : SoftStopRecord)
        → soft_stop_from_dict codec (object (soft_stop_to_dict codec r)) ≡ decoded r)
      × ((r : RequeueRecord)
          → requeue_from_dict codec (object (requeue_to_dict codec r)) ≡ decoded r)
      × ((r : ArchivedAnalysisRecord)
          → archived_from_dict codec (object (archived_to_dict codec r)) ≡ decoded r)
      × ((r : StopRecord) → stop_from_dict codec (object (stop_to_dict codec r)) ≡ decoded r)
  records-roundtrip = (
    λ r. soft_stop-read codec law _ r (soft_stop_to_dict-SoftStopFields codec r),
    λ r. requeue-read codec law _ r (requeue_to_dict-RequeueFields codec r),
    λ r. archived-read codec law _ r (archived_to_dict-ArchivedFields codec r),
    λ r. stop-read codec law _ r (stop_to_dict-StopFields codec r),
  )

  merged-time :
      (a b : Option Time)
      → merged (opt_time codec a) (opt_time codec b) ≡ opt_time codec (or_old a b)
  merged-time none b = refl
  merged-time (some t) b = refl

  merged-text :
      (a b : Option String)
      → merged (opt_text codec a) (opt_text codec b) ≡ opt_text codec (or_old a b)
  merged-text none b = refl
  merged-text (some t) b = refl

  module _ (merge : Object → Object → Object) (rfc : Rfc7386 merge) where
    -- A key of the merged object, by what the two encodings hold under it.
    merged_key :
        (patch target : Object) (k : String) {p t : Option Value}
        → lookup k patch ≡ p
        → lookup k target ≡ t
        → lookup k (merge patch target) ≡ merged p t
    merged_key patch target k e f = rfc patch target k ∙ (λ i. merged (e i) (f i))

    soft_stop-merge :
        (new old : SoftStopRecord)
        → soft_stop_from_dict codec
            (object (merge (soft_stop_to_dict codec new) (soft_stop_to_dict codec old)))
          ≡ decoded (record new {
            escalated_at = or_old new.escalated_at old.escalated_at;
            escalation_outcome = or_old new.escalation_outcome old.escalation_outcome;
          })
    soft_stop-merge new old =
        let n = soft_stop_to_dict-SoftStopFields codec new in
        let o = soft_stop_to_dict-SoftStopFields codec old in
        soft_stop-read codec law _ _ (
          merged_key _ _ "issuedAt" n.0 o.0,
          merged_key _ _ "outcome" n.1 o.1,
          merged_key _ _ "escalatedAt" n.2 o.2 ∙ merged-time new.escalated_at old.escalated_at,
          merged_key _ _ "escalationOutcome" n.3 o.3
              ∙ merged-text new.escalation_outcome old.escalation_outcome,
        )

    requeue-merge :
        (new old : RequeueRecord)
        → requeue_from_dict codec
            (object (merge (requeue_to_dict codec new) (requeue_to_dict codec old)))
          ≡ decoded new
    requeue-merge new old =
        let n = requeue_to_dict-RequeueFields codec new in
        let o = requeue_to_dict-RequeueFields codec old in
        requeue-read codec law _ new
          (merged_key _ _ "count" n.0 o.0, merged_key _ _ "lastRequeuedAt" n.1 o.1)

    merged-bucket :
        (b : Option String) (old : Option Value)
        → present (merged (some (or_null codec (opt_text codec b))) old) ≡ opt_text codec b
    merged-bucket none old = refl
    merged-bucket (some s) old = refl

    archived-merge :
        (new old : ArchivedAnalysisRecord)
        → archived_from_dict codec
            (object (merge (archived_to_dict codec new) (archived_to_dict codec old)))
          ≡ decoded (record new {
            verified_at = or_old new.verified_at old.verified_at;
            job_name = or_old new.job_name old.job_name;
            spawned_at = or_old new.spawned_at old.spawned_at;
          })
    archived-merge new old =
        let n = archived_to_dict-ArchivedFields codec new in
        let o = archived_to_dict-ArchivedFields codec old in
        archived-read codec law _ _ (
          merged_key _ _ "backend" n.0 o.0,
          (λ i.
                present (
                  merged_key _ _ "bucket" (archived-bucket codec new) (archived-bucket codec old)
                    i))
              ∙ merged-bucket new.bucket _,
          merged_key _ _ "verifiedAt" n.2 o.2 ∙ merged-time new.verified_at old.verified_at,
          merged_key _ _ "jobName" n.3 o.3 ∙ merged-text new.job_name old.job_name,
          merged_key _ _ "spawnedAt" n.4 o.4 ∙ merged-time new.spawned_at old.spawned_at,
        )

    stop-merge :
        (new old : StopRecord)
        → stop_from_dict codec (object (merge (stop_to_dict codec new) (stop_to_dict codec old)))
          ≡ decoded (record new { stopped_at = or_old new.stopped_at old.stopped_at })
    stop-merge new old =
        let n = stop_to_dict-StopFields codec new in
        let o = stop_to_dict-StopFields codec old in
        stop-read codec law _ _ (
          merged_key _ _ "issuedAt" n.0 o.0,
          merged_key _ _ "outcome" n.1 o.1,
          merged_key _ _ "stoppedAt" n.2 o.2 ∙ merged-time new.stopped_at old.stopped_at,
        )

    -- What a map holds after the merge patch that writes a record over another one: the new record, but an optional
    -- field that it leaves out keeps the old record's value. Only the bucket, which is written as null, is taken away.
    pub records-merge :
        ((new old : SoftStopRecord)
          → soft_stop_from_dict codec
              (object (merge (soft_stop_to_dict codec new) (soft_stop_to_dict codec old)))
            ≡ decoded (record new {
              escalated_at = or_old new.escalated_at old.escalated_at;
              escalation_outcome = or_old new.escalation_outcome old.escalation_outcome;
            }))
        × ((new old : RequeueRecord)
            → requeue_from_dict codec
                (object (merge (requeue_to_dict codec new) (requeue_to_dict codec old)))
              ≡ decoded new)
        × ((new old : ArchivedAnalysisRecord)
            → archived_from_dict codec
                (object (merge (archived_to_dict codec new) (archived_to_dict codec old)))
              ≡ decoded (record new {
                verified_at = or_old new.verified_at old.verified_at;
                job_name = or_old new.job_name old.job_name;
                spawned_at = or_old new.spawned_at old.spawned_at;
              }))
        × ((new old : StopRecord)
            → stop_from_dict codec
                (object (merge (stop_to_dict codec new) (stop_to_dict codec old)))
              ≡ decoded (record new { stopped_at = or_old new.stopped_at old.stopped_at }))
    records-merge = (soft_stop-merge, requeue-merge, archived-merge, stop-merge)
