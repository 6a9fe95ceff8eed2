-- ===== src/Tests/StoreTests.antt =====
-- The status store at work.
use openstudio_server_operat.Base.Dict.{keys, lookup}
use openstudio_server_operat.Store.Cap.{
  capped_insert, status_map_max_entries, evicted_keys, sorted, insort,
}
use openstudio_server_operat.Store.Bound.{capped_insert-le_cap, evicted_keys-protected_last}
use openstudio_server_operat.Base.{
  str_dec, length, ◌≤◌, ◌≡◌, member, false, Option, none, some, refl, [], ◌∷◌,
}
use openstudio_server_operat.Status.Merge
use openstudio_server_operat.Status.Merge.{or_old}
use openstudio_server_operat.Status.{MapField, RequeueRecord, SoftStopRecord, soft_stop_dec}
use openstudio_server_operat.World.{World}
use openstudio_server_operat.World.Grows.{Untouched}
use openstudio_server_operat.World.Triple.{After}
use openstudio_server_operat.Store.{set_map_entry, clear_map_entry}
use openstudio_server_operat.Store.Entries.{Wrote, set_map_entry-After, clear_map_entry-After}
use openstudio_server_operat.Store.Writes.{requeues_of, put_requeues}
use openstudio_server_operat.Tests.Samples.{server, start}

abbrev first_requeue : RequeueRecord
first_requeue = record { count = 1; last_requeued_at = 5 }

-- An escalated anchor that is written again without its escalation keeps it.
abbrev escalated : World
escalated = record start {
  status = record start.status {
    soft_stop_map =
        (
          "a1",
          record {
            issued_at = 5;
            outcome = "issued";
            escalated_at = some 7;
            escalation_outcome = some "evicted";
          },
        )
        ∷ [];
  };
}

abbrev issued_again : SoftStopRecord
issued_again = record {
  issued_at = 9;
  outcome = "issued";
  escalated_at = none;
  escalation_outcome = none;
}

merged_with_itself : (r : SoftStopRecord) → Merge.soft_stop_record r r ≡ r
merged_with_itself r = λ i. record r {
  escalated_at = same_field r.escalated_at i;
  escalation_outcome = same_field r.escalation_outcome i;
}
  where
    same_field : {A : Type 0} (o : Option A) → or_old o o ≡ o
    same_field none = refl
    same_field (some a) = refl

set_map_entry-After_example :
    After
      (λ _ w'.
        Wrote
          (λ s. s.soft_stop_map)
          (λ d s. record s { soft_stop_map = d })
          "a1"
          (some
            (record issued_again { escalated_at = some 7; escalation_outcome = some "evicted" }))
          escalated
          w')
      (Untouched escalated)
      (set_map_entry server soft_stop_dec Merge.soft_stop_record MapField.soft_stops
        (λ s. s.soft_stop_map)
        (λ d s. record s { soft_stop_map = d })
        "a1"
        issued_again
        escalated)
unfolding str_dec lookup
set_map_entry-After_example =
    set_map_entry-After server MapField.soft_stops (λ s. s.soft_stop_map)
      (λ d s. record s { soft_stop_map = d }) (λ d s. refl) (λ s. refl) "a1" escalated soft_stop_dec
      Merge.soft_stop_record issued_again merged_with_itself

-- A world where that requeue has been counted.
abbrev counted_once : World
counted_once = record start {
  status = record start.status { requeue_map = ("d1", first_requeue) ∷ [] };
}

clear_map_entry-After_example :
    After
      (λ _ w'. Wrote requeues_of put_requeues "d1" none counted_once w')
      (Untouched counted_once)
      (clear_map_entry server MapField.requeues requeues_of put_requeues "d1" counted_once)
clear_map_entry-After_example =
    clear_map_entry-After server MapField.requeues requeues_of put_requeues (λ d s. refl)
      (λ s. refl) "d1" counted_once

capped_insert-le_cap_example :
    length (capped_insert Merge.whole ("d1" ∷ []) "d2" first_requeue (("d1", first_requeue) ∷ []))
    ≤ status_map_max_entries
unfolding keys
capped_insert-le_cap_example =
    capped_insert-le_cap Merge.whole ("d1" ∷ []) "d2" first_requeue (("d1", first_requeue) ∷ [])
      (refl, tt)

evicted_keys-protected_last_example :
    member "a" (evicted_keys ("a" ∷ []) ("a" ∷ "b" ∷ "c" ∷ [])) ≡ false
unfolding evicted_keys sorted insort str_dec
evicted_keys-protected_last_example =
    evicted_keys-protected_last ("a" ∷ []) ("a" ∷ "b" ∷ "c" ∷ []) "a" "c" refl refl refl refl
