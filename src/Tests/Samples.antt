-- ===== src/Tests/Samples.antt =====
-- A server with one analysis and one datapoint, both started, and the world before the first tick.
use openstudio_server_operat.Base.{false, String, none, some, [], ◌∷◌, Option}
use openstudio_server_operat.Status.{empty_status}
use openstudio_server_operat.World.{Doc, Env, World, StatusBody, WorkerRecord}

abbrev pub plain_doc : String → Option String → Doc
plain_doc id status = record {
  id = some id;
  status = status;
  analysis_id = some "a1";
  updated_at = none;
  created_at = none;
}

abbrev pub server : Env
server = record {
  refuses = λ t c. none;
  analyses = λ t. plain_doc "a1" (some "completed") ∷ [];
  datapoints = λ t. plain_doc "d1" (some "started") ∷ [];
  started_datapoints = λ t. plain_doc "d1" (some "started") ∷ [];
  analysis_status = λ t a. StatusBody.one (some "started");
  pods = λ t. "pod1" ∷ [];
  workers = λ t. "pod1:7:simulations" ∷ [];
  worker_record = λ t k. WorkerRecord.job (some ("a1" ∷ "d1" ∷ []));
  job = λ t j. [];
  heartbeats = λ t. ("pod1:7:simulations", some 0) ∷ [];
  queue_depth = λ t q. 1;
  redis_now = λ t. 1000000000000;
  selector = λ t d. record { labels = ("app", "worker") ∷ []; expressions = [] };
  pods_of = λ t s.
      record { phase = "Running"; conditions = record { kind = "Ready"; status = "True" } ∷ [] }
      ∷ [];
}

abbrev pub start : World
start = record {
  status = empty_status;
  protected = λ f. [];
  exhausted_seen = [];
  prune_state = record { ticks = 0; absent_datapoints = []; absent_analyses = [] };
  tracker = record { first_observed = none; first_clean = none };
  leg2 = record {
    max_workers_seen = 0;
    empty_registry_since = none;
    layout_warning_emitted = false;
  };
  trace = [];
}
