-- ===== src/Wire/Fields.antt =====
-- The fields that a record's encoding holds, and the record that such fields decode to.
use openstudio_server_operat.Base.{String, Option, none, some, ◌≡◌, refl, ◌∙◌, str_dec}
use openstudio_server_operat.Base.Dict.{lookup, insert}
use openstudio_server_operat.Clock.{Time}
use openstudio_server_operat.Status.{
  SoftStopRecord, RequeueRecord, ArchivedAnalysisRecord, StopRecord,
}
use openstudio_server_operat.Wire.{
  text, int, Object, object, decoded, Codec, soft_stop_to_dict, soft_stop_from_dict,
  requeue_to_dict, requeue_from_dict, archived_to_dict, archived_from_dict, stop_to_dict,
  stop_from_dict, present, time, opt_time, opt_text, or_null, opt_parse_utc, opt_str, soft_stop_of,
  requeue_of, archived_of, stop_of,
}

-- `fromisoformat` reads what `isoformat` writes.
abbrev pub Faithful : Codec → Type 0
Faithful codec = (t : Time) → codec.fromisoformat (codec.isoformat t) ≡ some t

module _ (codec : Codec) where
  abbrev pub SoftStopFields : Object → SoftStopRecord → Type 0
  SoftStopFields raw r =
      (lookup "issuedAt" raw ≡ some (time codec r.issued_at))
      × (lookup "outcome" raw ≡ some (text r.outcome))
      × (lookup "escalatedAt" raw ≡ opt_time codec r.escalated_at)
      × (lookup "escalationOutcome" raw ≡ opt_text codec r.escalation_outcome)

  pub soft_stop_to_dict-SoftStopFields :
      (r : SoftStopRecord) → SoftStopFields (soft_stop_to_dict codec r) r
  unfolding soft_stop_to_dict lookup insert str_dec
  soft_stop_to_dict-SoftStopFields r = split r.escalated_at r.escalation_outcome
    where
      split :
          (e : Option Time) (o : Option String)
          → let r' : SoftStopRecord = record r { escalated_at = e; escalation_outcome = o } in
            SoftStopFields (soft_stop_to_dict codec r') r'
      split none none = (refl, refl, refl, refl)
      split none (some o) = (refl, refl, refl, refl)
      split (some e) none = (refl, refl, refl, refl)
      split (some e) (some o) = (refl, refl, refl, refl)

  abbrev pub RequeueFields : Object → RequeueRecord → Type 0
  RequeueFields raw r =
      (lookup "count" raw ≡ some (int r.count))
      × (lookup "lastRequeuedAt" raw ≡ some (time codec r.last_requeued_at))

  pub requeue_to_dict-RequeueFields :
      (r : RequeueRecord) → RequeueFields (requeue_to_dict codec r) r
  unfolding requeue_to_dict lookup str_dec
  requeue_to_dict-RequeueFields r = (refl, refl)

  -- An archived record's bucket is null or absent where there is none.
  abbrev pub ArchivedFields : Object → ArchivedAnalysisRecord → Type 0
  ArchivedFields raw r =
      (lookup "backend" raw ≡ some (text r.backend))
      × (present (lookup "bucket" raw) ≡ opt_text codec r.bucket)
      × (lookup "verifiedAt" raw ≡ opt_time codec r.verified_at)
      × (lookup "jobName" raw ≡ opt_text codec r.job_name)
      × (lookup "spawnedAt" raw ≡ opt_time codec r.spawned_at)

  present-null :
      (o : Option String) → present (some (or_null codec (opt_text codec o))) ≡ opt_text codec o
  present-null none = refl
  present-null (some s) = refl

  pub archived_to_dict-ArchivedFields :
      (r : ArchivedAnalysisRecord) → ArchivedFields (archived_to_dict codec r) r
  unfolding archived_to_dict lookup insert str_dec
  archived_to_dict-ArchivedFields r =
      split r.verified_at r.job_name r.spawned_at (present-null r.bucket)
    where
      split :
          (v : Option Time) (j : Option String) (s : Option Time)
          → present (some (or_null codec (opt_text codec r.bucket))) ≡ opt_text codec r.bucket
          → let r' : ArchivedAnalysisRecord = record r {
            verified_at = v;
            job_name = j;
            spawned_at = s;
          } in
            ArchivedFields (archived_to_dict codec r') r'
      split none none none b = (refl, b, refl, refl, refl)
      split none none (some s) b = (refl, b, refl, refl, refl)
      split none (some j) none b = (refl, b, refl, refl, refl)
      split none (some j) (some s) b = (refl, b, refl, refl, refl)
      split (some v) none none b = (refl, b, refl, refl, refl)
      split (some v) none (some s) b = (refl, b, refl, refl, refl)
      split (some v) (some j) none b = (refl, b, refl, refl, refl)
      split (some v) (some j) (some s) b = (refl, b, refl, refl, refl)

  pub archived-bucket :
      (r : ArchivedAnalysisRecord)
      → lookup "bucket" (archived_to_dict codec r) ≡ some (or_null codec (opt_text codec r.bucket))
  unfolding archived_to_dict lookup insert str_dec
  archived-bucket r = split r.verified_at r.job_name r.spawned_at
    where
      split :
          (v : Option Time) (j : Option String) (s : Option Time)
          → let r' : ArchivedAnalysisRecord = record r {
            verified_at = v;
            job_name = j;
            spawned_at = s;
          } in
            lookup "bucket" (archived_to_dict codec r')
            ≡ some (or_null codec (opt_text codec r.bucket))
      split none none none = refl
      split none none (some s) = refl
      split none (some j) none = refl
      split none (some j) (some s) = refl
      split (some v) none none = refl
      split (some v) none (some s) = refl
      split (some v) (some j) none = refl
      split (some v) (some j) (some s) = refl

  abbrev pub StopFields : Object → StopRecord → Type 0
  StopFields raw r =
      (lookup "issuedAt" raw ≡ some (time codec r.issued_at))
      × (lookup "outcome" raw ≡ some (text r.outcome))
      × (lookup "stoppedAt" raw ≡ opt_time codec r.stopped_at)

  pub stop_to_dict-StopFields : (r : StopRecord) → StopFields (stop_to_dict codec r) r
  unfolding stop_to_dict lookup insert str_dec
  stop_to_dict-StopFields r = split r.stopped_at
    where
      split :
          (s : Option Time)
          → let r' : StopRecord = record r { stopped_at = s } in
            StopFields (stop_to_dict codec r') r'
      split none = (refl, refl, refl)
      split (some s) = (refl, refl, refl)

  module _ (law : Faithful codec) where
    read_time : (o : Option Time) → opt_parse_utc codec (present (opt_time codec o)) ≡ decoded o
    read_time none = refl
    read_time (some t) = rw (law t) refl

    read_text : (o : Option String) → opt_str codec (present (opt_text codec o)) ≡ o
    read_text none = refl
    read_text (some s) = refl

    read_bucket : (o : Option String) → opt_str codec (opt_text codec o) ≡ o
    read_bucket none = refl
    read_bucket (some s) = refl

    pub soft_stop-read :
        (raw : Object) (r : SoftStopRecord)
        → SoftStopFields raw r
        → soft_stop_from_dict codec (object raw) ≡ decoded r
    unfolding soft_stop_from_dict
    soft_stop-read raw r (a, b, c, d) =
        (λ i. soft_stop_of codec (a i) (b i) (c i) (d i))
        ∙ rw (law r.issued_at, read_time r.escalated_at, read_text r.escalation_outcome) refl

    pub requeue-read :
        (raw : Object) (r : RequeueRecord)
        → RequeueFields raw r
        → requeue_from_dict codec (object raw) ≡ decoded r
    unfolding requeue_from_dict
    requeue-read raw r (a, b) =
        (λ i. requeue_of codec (a i) (b i)) ∙ rw (law r.last_requeued_at) refl

    pub stop-read :
        (raw : Object) (r : StopRecord)
        → StopFields raw r
        → stop_from_dict codec (object raw) ≡ decoded r
    unfolding stop_from_dict
    stop-read raw r (a, b, c) =
        (λ i. stop_of codec (a i) (b i) (c i)) ∙ rw (law r.issued_at, read_time r.stopped_at) refl

    pub archived-read :
        (raw : Object) (r : ArchivedAnalysisRecord)
        → ArchivedFields raw r
        → archived_from_dict codec (object raw) ≡ decoded r
    unfolding archived_from_dict
    archived-read raw r (a, b, c, d, e) =
        (λ i. archived_of codec (a i) (lookup "bucket" raw) (c i) (d i) (e i))
        ∙ rw
            (
              read_time r.verified_at,
              read_time r.spawned_at,
              read_text r.job_name,
              b,
              read_bucket r.bucket,
            )
            refl
