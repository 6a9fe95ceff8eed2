-- ===== src/Status.antt =====
-- The custom resource's `.status`, the operator's only durable state, as the typed records of
-- src/openstudio_operator/status_store.py.
pub mod Merge
use openstudio_server_operat.Base.{ℕ, String, Option, none, [], ℕ_discrete, str_dec}
use openstudio_server_operat.Base.Dict.{Dict}
use openstudio_server_operat.Clock.{Time}

pub record SoftStopRecord : Type 0 where
  pub issued_at : Time
  pub outcome : String
  pub escalated_at : Option Time
  pub escalation_outcome : Option String

pub record RequeueRecord : Type 0 where
  pub count : ℕ
  pub last_requeued_at : Time

pub record ArchivedAnalysisRecord : Type 0 where
  pub backend : String
  pub bucket : Option String
  pub verified_at : Option Time
  pub job_name : Option String
  pub spawned_at : Option Time

pub record StopRecord : Type 0 where
  pub issued_at : Time
  pub outcome : String
  pub stopped_at : Option Time

unfoldable pub soft_stop_dec : Discrete SoftStopRecord
soft_stop_dec = hlevel (ℕ_discrete, str_dec)

unfoldable pub requeue_dec : Discrete RequeueRecord
requeue_dec = hlevel (ℕ_discrete, str_dec)

unfoldable pub archived_dec : Discrete ArchivedAnalysisRecord
archived_dec = hlevel (ℕ_discrete, str_dec)

unfoldable pub stop_dec : Discrete StopRecord
stop_dec = hlevel (ℕ_discrete, str_dec)

-- The five id-keyed maps, `_STATUS_MAP_FIELDS`.
pub data MapField : Type 0 where
  soft_stops requeues started_since archived_analyses stopped_analyses : MapField

pub record Status : Type 0 where
  pub soft_stop_map : Dict SoftStopRecord
  pub requeue_map : Dict RequeueRecord
  pub started_since_map : Dict Time
  pub archived_map : Dict ArchivedAnalysisRecord
  pub stopped_map : Dict StopRecord
  pub last_recycle_at : Option Time
  pub last_web_background_restart_at : Option Time
  pub stall_window_started_at : Option Time
  pub ineffective_restarts : Option ℕ

abbrev pub empty_status : Status
empty_status = record {
  soft_stop_map = [];
  requeue_map = [];
  started_since_map = [];
  archived_map = [];
  stopped_map = [];
  last_recycle_at = none;
  last_web_background_restart_at = none;
  stall_window_started_at = none;
  ineffective_restarts = none;
}
