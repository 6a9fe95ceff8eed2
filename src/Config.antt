-- ===== src/Config.antt =====
-- The parsed spec of the custom resource (src/openstudio_operator/config.py). Integers are natural
-- numbers: deploy/crd.yaml gives each a minimum of 0 or 1.
pub mod Spec
use openstudio_server_operat.Base.{ℕ, String, Bool, true, false, Option, none}

pub record AnalysisPolicy : Type 0 where
  pub max_duration_minutes : ℕ
  pub graceful_stop_timeout_minutes : ℕ
  pub auto_soft_stop : Bool
  pub force_delete_on_escalation : Bool

pub record DatapointPolicy : Type 0 where
  pub max_datapoint_runtime_minutes : ℕ
  pub max_auto_requeues : ℕ

pub record WorkerPolicy : Type 0 where
  pub recycle_worker_interval_hours : ℕ
  pub recycle_after_analysis : Bool
  pub min_recycle_interval_minutes : ℕ

pub record WebBackgroundPolicy : Type 0 where
  pub stall_window_minutes : ℕ

pub record StoragePolicy : Type 0 where
  pub archive_to_s3 : Bool
  pub backend : Option String
  pub bucket : Option String
  pub secret_ref : Option String
  pub retention_days : ℕ
  pub purge_completed_nfs_files : Bool

pub record RedisSecretRef : Type 0 where
  pub name : String
  pub key : String

pub record RedisCredentials : Type 0 where
  pub secret_ref : Option RedisSecretRef

pub record OperatorConfig : Type 0 where
  pub server_url : String
  pub redis_url : String
  pub redis_credentials : RedisCredentials
  pub dry_run : Bool
  pub target_worker_deployment : String
  pub target_web_background_deployment : String
  pub analysis_policy : AnalysisPolicy
  pub datapoint_policy : DatapointPolicy
  pub worker_policy : WorkerPolicy
  pub web_background_policy : WebBackgroundPolicy
  pub storage_policy : StoragePolicy

-- The defaults of the dataclasses.
abbrev pub default_config : OperatorConfig
default_config = record {
  server_url = "";
  redis_url = "";
  redis_credentials = record { secret_ref = none };
  dry_run = false;
  target_worker_deployment = "";
  target_web_background_deployment = "";
  analysis_policy = record {
    max_duration_minutes = 180;
    graceful_stop_timeout_minutes = 15;
    auto_soft_stop = true;
    force_delete_on_escalation = false;
  };
  datapoint_policy = record { max_datapoint_runtime_minutes = 45; max_auto_requeues = 3 };
  worker_policy = record {
    recycle_worker_interval_hours = 12;
    recycle_after_analysis = true;
    min_recycle_interval_minutes = 30;
  };
  web_background_policy = record { stall_window_minutes = 10 };
  storage_policy = record {
    archive_to_s3 = false;
    backend = none;
    bucket = none;
    secret_ref = none;
    retention_days = 7;
    purge_completed_nfs_files = true;
  };
}
