-- ===== src/Watchdog/Hygiene.antt =====
-- The watchdog's status-anchor hygiene (`_datapoint_ids`, `_bump_absences` and
-- `_run_anchor_hygiene` of src/openstudio_operator/handlers/datapoint_watchdog.py).
use openstudio_server_operat.Base.{
  ℕ, ◌+◌, ◌%◌, String, Bool, true, false, none, some, List, [], ◌∷◌, ◌++◌, ◌&&◌, ◌||◌, not, leb,
  member, without, if◌then◌else◌, ◌==◌, ◌≡◌, arith, member-append, member-without,
}
use openstudio_server_operat.Base.Dict.{Dict, lookup, insert, erase, erase_all, keys}
use openstudio_server_operat.Config.{OperatorConfig}
use openstudio_server_operat.Status.{MapField}
use openstudio_server_operat.World.{
  Call, Severity, Reason, Doc, Env, AnchorPruneState, M, ◌>>=◌, ◌>>◌, ⊤, gets, update, when, ask,
}
use openstudio_server_operat.Store.{read, protect_anchor_keys, prune, any_entry}
use openstudio_server_operat.Emitter.{emit}

-- `str(doc.get("_id") or "")`
abbrev pub doc_id : Doc → String
doc_id doc = elim doc.id [ none ↦ "" | some s ↦ s ]

-- The ids of the documents in order, each once, without the empty one.
unfoldable pub ids_from : List String → List Doc → List String
ids_from seen [] = []
ids_from seen (doc ∷ docs) =
    let fresh = not (doc_id doc == "") && not (member (doc_id doc) seen) in
    let rest = ids_from (if fresh then doc_id doc ∷ seen else seen) docs in
    if fresh then doc_id doc ∷ rest else rest

unfoldable pub datapoint_ids : List Doc → List String
unfolding ids_from
datapoint_ids docs = ids_from [] docs

-- One tracked id: a live one starts over, an absent one counts one more check.
unfoldable pub bump_one : List String → String → Dict ℕ → Dict ℕ
bump_one live key counters =
    if member key live
    then erase key counters
    else insert key ((elim (lookup key counters) [ none ↦ 0 | some n ↦ n ]) + 1) counters

unfoldable pub bump_each : List String → List String → Dict ℕ → Dict ℕ
bump_each [] live counters = counters
bump_each (key ∷ tracked) live counters = bump_each tracked live (bump_one live key counters)

-- `_bump_absences`: ids that are no longer tracked drop out. `tracked` is a set.
unfoldable pub bump_absences : List String → List String → Dict ℕ → Dict ℕ
bump_absences tracked live counters =
    let bumped = bump_each tracked live counters in erase_all (without tracked (keys bumped)) bumped

-- The ids that have been absent in enough checks on end.
unfoldable pub confirmed : Dict ℕ → List String
confirmed [] = []
confirmed ((key, count) ∷ counters) =
    if leb 3 count then key ∷ confirmed counters else confirmed counters

unfoldable pub union : List String → List String → List String
union xs ys = xs ++ without xs ys

pub member-union_right :
    (s : String) (xs ys : List String) → member s ys ≡ true → member s (union xs ys) ≡ true
unfolding union
member-union_right s xs ys m =
    ground (arith, member-append s xs (without xs ys), member-without s xs ys)

abbrev pub set_state : (AnchorPruneState → AnchorPruneState) → M ⊤
set_state f = update (λ w. record w { prune_state = f w.prune_state })

module _ (env : Env) (config : OperatorConfig) where
  -- The pass from the point where both counters have been advanced.
  unfoldable pub prune_confirmed : List String → List String → M ⊤
  prune_confirmed live_datapoints live_analyses = do
    state ← gets (λ w. w.prune_state)
    let gone_datapoints = confirmed state.absent_datapoints
    let gone_analyses = confirmed state.absent_analyses
    protect_anchor_keys MapField.requeues live_datapoints
    protect_anchor_keys MapField.started_since live_datapoints
    protect_anchor_keys MapField.soft_stops live_analyses
    protect_anchor_keys MapField.archived_analyses live_analyses
    when (any_entry gone_datapoints || any_entry gone_analyses) (do
      pruned ←
          prune env (live_analyses ++ without gone_analyses (keys state.absent_analyses))
            (live_datapoints ++ without gone_datapoints (keys state.absent_datapoints))
      set_state (λ s. record s {
        absent_datapoints = erase_all gone_datapoints s.absent_datapoints;
        absent_analyses = erase_all gone_analyses s.absent_analyses;
      })
      when pruned (emit env config Severity.normal Reason.status_anchors_pruned ""))

  -- With nothing tracked the counters are dropped and nothing is listed; else one heavy check.
  unfoldable pub check_anchors : List String → List String → List String → Bool → M ⊤
  check_anchors tracked_datapoints tracked_analyses started_ids false =
      set_state (λ s. record s { absent_datapoints = []; absent_analyses = [] })
  check_anchors tracked_datapoints tracked_analyses started_ids true = do
    datapoints ← ask env Call.list_datapoints env.datapoints
    analyses ← ask env Call.list_analyses env.analyses
    let live_datapoints = union started_ids (datapoint_ids datapoints)
    let live_analyses = datapoint_ids analyses
    set_state (λ s. record s {
      absent_datapoints = bump_absences tracked_datapoints live_datapoints s.absent_datapoints;
      absent_analyses = bump_absences tracked_analyses live_analyses s.absent_analyses;
    })
    prune_confirmed live_datapoints live_analyses

  unfoldable pub run_anchor_hygiene : List String → M ⊤
  run_anchor_hygiene started_ids = do
    requeues ← read env (λ s. s.requeue_map)
    soft_stops ← read env (λ s. s.soft_stop_map)
    archived ← read env (λ s. s.archived_map)
    let tracked_datapoints = keys requeues
    let tracked_analyses = union (keys soft_stops) (keys archived)
    check_anchors tracked_datapoints tracked_analyses started_ids
        (any_entry (tracked_datapoints ++ tracked_analyses))

  -- Every tenth tick of the process runs the pass.
  unfoldable pub anchor_hygiene : List String → M ⊤
  anchor_hygiene started_ids = do
    set_state (λ s. record s { ticks = s.ticks + 1 })
    ticks ← gets (λ w. w.prune_state.ticks)
    when (leb (ticks % 10) 0) (run_anchor_hygiene started_ids)
