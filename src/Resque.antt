-- ===== src/Resque.antt =====
-- What the operator reads of Resque's worker registry (`workers_for_analysis` and
-- `pod_name_for_worker` of src/openstudio_operator/redis_client.py). The JSON parser's result is
-- the services' answer.
use Prim.Native.Char.{Char, code}
use openstudio_server_operat.Base.{
  String, Bool, true, false, Option, none, some, List, [], ◌∷◌, ◌&&◌, leb, member, if◌then◌else◌,
  ◌==◌, ◌≡◌, refl,
}
use openstudio_server_operat.Base.{ℕ, keep}
use openstudio_server_operat.Base.Dict.{Dict, lookup}
use openstudio_server_operat.Clock.{Time, elapsed}
use openstudio_server_operat.Store.Cap.{sorted}
use openstudio_server_operat.World.{
  gets, Call, WorkerRecord, Env, Error, M, ◌>>=◌, pure, throw, ask,
}
use openstudio_server_operat.World.Adds.{
  Adds-gets, quiet, Adds, Adds-pure, Adds-throw, Adds-bind, Adds-ask,
}

-- One character before the segments of the text that follows it.
unfoldable pub cut : Char → List String → List String
cut c [] = []
cut c (seg ∷ segs) =
    if leb (code c) 58 && leb 58 (code c) then "" ∷ seg ∷ segs else String.◌∷◌ c seg ∷ segs

-- `worker_id.split(":")`
unfoldable pub split_colon : String → List String
split_colon String.[] = "" ∷ []
split_colon (String.◌∷◌ c s) = cut c (split_colon s)

unfoldable pub pod_of_segments : List String → Option String
pod_of_segments (pod ∷ _ ∷ _ ∷ _) = if pod == "" then none else some pod
pod_of_segments _ = none

unfoldable pub pod_name_for_worker : String → Option String
unfolding split_colon pod_of_segments
pod_name_for_worker worker_id = pod_of_segments (split_colon worker_id)

module _ (env : Env) where
  -- Whether a worker's record says that it processes the analysis: a worker without a record or
  -- without a job's arguments does not, and a record that does not parse raises.
  unfoldable pub record_matches : String → WorkerRecord → M Bool
  record_matches analysis_id WorkerRecord.idle = pure false
  record_matches analysis_id WorkerRecord.garbage = throw Error.redis_error
  record_matches analysis_id (WorkerRecord.job none) = pure false
  record_matches analysis_id (WorkerRecord.job (some args)) = pure (member analysis_id args)

  unfoldable pub matching_workers : String → List String → M (List String)
  matching_workers analysis_id [] = pure []
  matching_workers analysis_id (worker_id ∷ worker_ids) = do
    found ← ask env (Call.get_worker worker_id) (λ t. env.worker_record t worker_id)
    matches ← record_matches analysis_id found
    rest ← matching_workers analysis_id worker_ids
    pure (if matches then worker_id ∷ rest else rest)

  unfoldable pub workers_for_analysis : String → M (List String)
  workers_for_analysis analysis_id = do
    worker_ids ← ask env Call.list_workers env.workers
    matching_workers analysis_id worker_ids

  -- `queue_depth(queue)`
  unfoldable pub queue_depth : String → M ℕ
  queue_depth queue = ask env (Call.read_queue_depth queue) (λ t. env.queue_depth t queue)

  -- One worker's heartbeat: none when the hash has no field for it; one that does not parse raises.
  unfoldable pub parsed_beat : Option (Option Time) → M (Option Time)
  parsed_beat none = pure none
  parsed_beat (some none) = throw Error.redis_error
  parsed_beat (some (some at)) = pure (some at)

  unfoldable pub beats_of : Dict (Option Time) → List String → M (List (String × Option Time))
  beats_of beats [] = pure []
  beats_of beats (worker_id ∷ worker_ids) = do
    at ← parsed_beat (lookup worker_id beats)
    rest ← beats_of beats worker_ids
    pure ((worker_id, at) ∷ rest)

  -- An empty registry is answered without the hash.
  unfoldable pub heartbeats_of : List String → M (List (String × Option Time))
  heartbeats_of [] = pure []
  heartbeats_of (worker_id ∷ worker_ids) = do
    beats ← ask env Call.read_heartbeats env.heartbeats
    beats_of beats (sorted (worker_id ∷ worker_ids))

  unfoldable pub worker_heartbeats : M (List (String × Option Time))
  worker_heartbeats = do
    worker_ids ← ask env Call.list_workers env.workers
    heartbeats_of worker_ids

  -- `heartbeat is None or (now - heartbeat) > threshold_seconds`
  abbrev pub is_stale : Time → Time → Option Time → Bool
  is_stale now threshold none = true
  is_stale now threshold (some at) = elapsed now at threshold

  unfoldable pub stale_workers : Time → M (List (String × Option Time))
  stale_workers threshold = do
    now ← gets (λ w. env.redis_now w.trace)
    beats ← worker_heartbeats
    pure (keep (λ e. is_stale now threshold e.1) beats)

  module _ {p : Call → Bool} (q : (c : Call) → quiet c ≡ true → p c ≡ true) where
    record_matches-Adds :
        (analysis_id : String) (r : WorkerRecord) → Adds p (record_matches analysis_id r)
    unfolding record_matches
    record_matches-Adds analysis_id WorkerRecord.idle = Adds-pure _
    record_matches-Adds analysis_id WorkerRecord.garbage = Adds-throw _
    record_matches-Adds analysis_id (WorkerRecord.job none) = Adds-pure _
    record_matches-Adds analysis_id (WorkerRecord.job (some args)) = Adds-pure _

    matching_workers-Adds :
        (analysis_id : String) (worker_ids : List String)
        → Adds p (matching_workers analysis_id worker_ids)
    unfolding matching_workers
    matching_workers-Adds analysis_id [] = Adds-pure _
    matching_workers-Adds analysis_id (worker_id ∷ worker_ids) =
        Adds-bind _ (Adds-ask env _ _ (q (Call.get_worker worker_id) refl)) (λ found.
          Adds-bind _ (record_matches-Adds analysis_id found)
            (λ _. Adds-bind _ (matching_workers-Adds analysis_id worker_ids) (λ _. Adds-pure _)))

    -- The registry is only read.
    pub workers_for_analysis-Adds :
        (analysis_id : String) → Adds p (workers_for_analysis analysis_id)
    unfolding workers_for_analysis
    workers_for_analysis-Adds analysis_id =
        Adds-bind _ (Adds-ask env _ _ (q Call.list_workers refl))
          (λ worker_ids. matching_workers-Adds analysis_id worker_ids)

    pub queue_depth-Adds : (queue : String) → Adds p (queue_depth queue)
    unfolding queue_depth
    queue_depth-Adds queue = Adds-ask env _ _ (q (Call.read_queue_depth queue) refl)

    parsed_beat-Adds : (b : Option (Option Time)) → Adds p (parsed_beat b)
    unfolding parsed_beat
    parsed_beat-Adds none = Adds-pure _
    parsed_beat-Adds (some none) = Adds-throw _
    parsed_beat-Adds (some (some at)) = Adds-pure _

    beats_of-Adds :
        (beats : Dict (Option Time)) (worker_ids : List String) → Adds p (beats_of beats worker_ids)
    unfolding beats_of
    beats_of-Adds beats [] = Adds-pure _
    beats_of-Adds beats (worker_id ∷ worker_ids) =
        Adds-bind _ (parsed_beat-Adds _)
          (λ _. Adds-bind _ (beats_of-Adds beats worker_ids) (λ _. Adds-pure _))

    heartbeats_of-Adds : (worker_ids : List String) → Adds p (heartbeats_of worker_ids)
    unfolding heartbeats_of
    heartbeats_of-Adds [] = Adds-pure _
    heartbeats_of-Adds (worker_id ∷ worker_ids) =
        Adds-bind _ (Adds-ask env _ _ (q Call.read_heartbeats refl))
          (λ beats. beats_of-Adds beats _)

    pub worker_heartbeats-Adds : Adds p worker_heartbeats
    unfolding worker_heartbeats
    worker_heartbeats-Adds =
        Adds-bind _ (Adds-ask env _ _ (q Call.list_workers refl)) (λ ids. heartbeats_of-Adds ids)

    pub stale_workers-Adds : (threshold : Time) → Adds p (stale_workers threshold)
    unfolding stale_workers
    stale_workers-Adds threshold =
        Adds-bind _ (Adds-gets _) (λ now. Adds-bind _ worker_heartbeats-Adds (λ _. Adds-pure _))
