-- ===== src/Tests/WireTests.antt =====
-- The stored records and the write cycle at work.
use openstudio_server_operat.Base.{
  ℕ, zero, suc, String, Bool, true, false, Option, none, some, [], ◌∷◌, ◌≡◌, refl, ap, ◌∙◌, ◌==◌,
  if◌then◌else◌,
}
use openstudio_server_operat.Clock.{Time}
use openstudio_server_operat.Base.Dict.{lookup, insert, erase, lookup-insert, lookup-erase}
use openstudio_server_operat.Status.Merge.{or_old}
use openstudio_server_operat.Status.{
  SoftStopRecord, RequeueRecord, ArchivedAnalysisRecord, StopRecord,
}
use openstudio_server_operat.Wire.{
  Value, text, int, null, other, Object, object, decoded, Codec, soft_stop_to_dict,
  soft_stop_from_dict, requeue_to_dict, requeue_from_dict, archived_to_dict, archived_from_dict,
  stop_to_dict, stop_from_dict,
}
use openstudio_server_operat.Wire.Fields.{Faithful}
use openstudio_server_operat.Wire.Roundtrip.{merged, Rfc7386, records-roundtrip, records-merge}
use openstudio_server_operat.Mutate.{
  Built, patch_of, Read, status, Answer, accepted, patch_refused, mutate, Explained,
  mutate-Explained,
}

-- Times as texts of that many characters.
unfoldable tally : Time → String
tally zero = ""
tally (suc n) = String.◌∷◌ "i" (tally n)

unfoldable count : String → ℕ
count String.[] = 0
count (String.◌∷◌ c s) = suc (count s)

count-tally : (t : Time) → count (tally t) ≡ t
unfolding tally count
count-tally zero = refl
count-tally (suc n) = ap (λ k. suc k) (count-tally n)

abbrev codec : Codec
codec = record {
  isoformat = tally;
  fromisoformat = λ s. some (count s);
  str_of_int = λ n. "";
  int_of_text = λ s. none;
}

faithful : Faithful codec
faithful t = ap (λ n. some n) (count-tally t)

records-roundtrip_example :
    ((r : SoftStopRecord)
      → soft_stop_from_dict codec (object (soft_stop_to_dict codec r)) ≡ decoded r)
    × ((r : RequeueRecord) → requeue_from_dict codec (object (requeue_to_dict codec r)) ≡ decoded r)
    × ((r : ArchivedAnalysisRecord)
        → archived_from_dict codec (object (archived_to_dict codec r)) ≡ decoded r)
    × ((r : StopRecord) → stop_from_dict codec (object (stop_to_dict codec r)) ≡ decoded r)
records-roundtrip_example = records-roundtrip codec faithful

-- One key of a patch.
abbrev put : String → Value → Object → Object
put k (text s) target = insert k (text s) target
put k (int n) target = insert k (int n) target
put k null target = erase k target
put k (other s) target = insert k (other s) target

unfoldable merge_patch : Object → Object → Object
merge_patch [] target = target
merge_patch (e ∷ patch) target = put e.0 e.1 (merge_patch patch target)

lookup-put :
    (j k : String) (v : Value) (target : Object)
    → lookup j (put k v target) ≡ (if j == k then merged (some v) none else lookup j target)
lookup-put j k (text s) target = lookup-insert j k (text s) target
lookup-put j k (int n) target = lookup-insert j k (int n) target
lookup-put j k null target = lookup-erase j k target
lookup-put j k (other s) target = lookup-insert j k (other s) target

set_value : (v : Value) (old : Option Value) → merged (some v) none ≡ merged (some v) old
set_value (text s) old = refl
set_value (int n) old = refl
set_value null old = refl
set_value (other s) old = refl

merge_patch-Rfc7386 : Rfc7386 merge_patch
unfolding merge_patch lookup
merge_patch-Rfc7386 [] target k = refl
merge_patch-Rfc7386 (e ∷ patch) target k =
    lookup-put k e.0 e.1 (merge_patch patch target)
    ∙ split (k == e.0) (merge_patch-Rfc7386 patch target k)
  where
    split :
        (b : Bool)
        → lookup k (merge_patch patch target) ≡ merged (lookup k patch) (lookup k target)
        → (if b then merged (some e.1) none else lookup k (merge_patch patch target))
          ≡ merged (if b then some e.1 else lookup k patch) (lookup k target)
    split true h = set_value e.1 (lookup k target)
    split false h = h

records-merge_example :
    ((new old : SoftStopRecord)
      → soft_stop_from_dict codec
          (object (merge_patch (soft_stop_to_dict codec new) (soft_stop_to_dict codec old)))
        ≡ decoded (record new {
          escalated_at = or_old new.escalated_at old.escalated_at;
          escalation_outcome = or_old new.escalation_outcome old.escalation_outcome;
        }))
    × ((new old : RequeueRecord)
        → requeue_from_dict codec
            (object (merge_patch (requeue_to_dict codec new) (requeue_to_dict codec old)))
          ≡ decoded new)
    × ((new old : ArchivedAnalysisRecord)
        → archived_from_dict codec
            (object (merge_patch (archived_to_dict codec new) (archived_to_dict codec old)))
          ≡ decoded (record new {
            verified_at = or_old new.verified_at old.verified_at;
            job_name = or_old new.job_name old.job_name;
            spawned_at = or_old new.spawned_at old.spawned_at;
          }))
    × ((new old : StopRecord)
        → stop_from_dict codec
            (object (merge_patch (stop_to_dict codec new) (stop_to_dict codec old)))
          ≡ decoded (record new { stopped_at = or_old new.stopped_at old.stopped_at }))
records-merge_example = records-merge codec faithful merge_patch merge_patch-Rfc7386

-- A cycle that meets one conflict: the status is counted up, and the second patch is accepted.
abbrev count_up : ℕ → Built ℕ
count_up n = patch_of (suc n)

unfoldable read_count : ℕ → Read ℕ
read_count n = status n

unfoldable busy_once : ℕ → ℕ → Answer
busy_once zero patch = accepted
busy_once (suc zero) patch = patch_refused 409
busy_once (suc (suc n)) patch = accepted

mutate-Explained_example :
    Explained count_up read_count busy_once 5 1 (mutate count_up read_count busy_once)
mutate-Explained_example = mutate-Explained count_up read_count busy_once
