-- ===== src/Watchdog/Ids.antt =====
-- The ids that the watchdog takes from a listing: none is empty and none occurs twice.
use openstudio_server_operat.Base.{
  String, true, false, List, [], ◌∷◌, ◌≡◌, ◌&&◌, refl, arith, member, Distinct, not, ◌==◌, inl, inr,
  Bool-cases,
}
use openstudio_server_operat.World.{Doc}
use openstudio_server_operat.Watchdog.Hygiene.{datapoint_ids, ids_from, doc_id}

ids_from-fresh :
    (s : String) (seen : List String) (docs : List Doc)
    → member s seen ≡ true
    → member s (ids_from seen docs) ≡ false
unfolding ids_from
ids_from-fresh s seen [] m = refl
ids_from-fresh s seen (doc ∷ docs) m =
    ground (
      arith,
      ids_from-fresh s seen docs m,
      ids_from-fresh s (doc_id doc ∷ seen) docs (ground arith),
    )

ids_from-Distinct : (seen : List String) (docs : List Doc) → Distinct (ids_from seen docs)
unfolding ids_from
ids_from-Distinct seen [] = tt
ids_from-Distinct seen (doc ∷ docs) =
    elim (Bool-cases (not (doc_id doc == "") && not (member (doc_id doc) seen))) [
      | inl fresh ↦ rw fresh (
        ids_from-fresh (doc_id doc) (doc_id doc ∷ seen) docs (ground arith),
        ids_from-Distinct (doc_id doc ∷ seen) docs,
      )
      | inr old ↦ rw old (ids_from-Distinct seen docs)
    ]

-- No id is listed twice, so a tick handles each datapoint once.
pub datapoint_ids-Distinct : (docs : List Doc) → Distinct (datapoint_ids docs)
unfolding datapoint_ids
datapoint_ids-Distinct docs = ids_from-Distinct [] docs
