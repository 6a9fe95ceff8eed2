-- ===== src/Config/Spec.antt =====
-- The raw spec of the custom resource and its parse (`OperatorConfig.from_spec` and
-- `_redis_secret_ref_from_spec` of src/openstudio_operator/config.py). The types of the policies' fields are those of
-- deploy/crd.yaml; the credentials may have any shape. Logs are not modelled.
use openstudio_server_operat.Base.{
  ℕ, String, Bool, true, false, Option, none, some, ◌||◌, ◌==◌, if◌then◌else◌,
}
use openstudio_server_operat.Config.{RedisSecretRef, OperatorConfig}

-- A value: a text, or anything else, an absent one too.
pub data Field : Type 0 where
  no_text : Field
  text : String → Field

-- A mapping, a value that is none, or none at all.
pub data Mapped (A : Type 0) : Type 0 where
  absent wrong : Mapped A
  dict : A → Mapped A

pub record RawRef : Type 0 where
  pub name : Field
  pub key : Field

-- An absent policy is one without fields.
pub record RawAnalysis : Type 0 where
  pub max_duration_minutes : Option ℕ
  pub graceful_stop_timeout_minutes : Option ℕ
  pub auto_soft_stop : Option Bool
  pub force_delete_on_escalation : Option Bool

pub record RawDatapoint : Type 0 where
  pub max_datapoint_runtime_minutes : Option ℕ
  pub max_auto_requeues : Option ℕ

pub record RawWorker : Type 0 where
  pub recycle_worker_interval_hours : Option ℕ
  pub recycle_after_analysis : Option Bool
  pub min_recycle_interval_minutes : Option ℕ

pub record RawStorage : Type 0 where
  pub archive_to_s3 : Option Bool
  pub backend : Option String
  pub bucket : Option String
  pub secret_ref : Option String
  pub retention_days : Option ℕ
  pub purge_completed_nfs_files : Option Bool

-- In `redis_credentials` a falsy value is absent (`or {}`), in the `secretRef` that it holds only null is.
pub record RawSpec : Type 0 where
  pub server_url : Option String
  pub redis_url : Option String
  pub redis_credentials : Mapped (Mapped RawRef)
  pub dry_run : Option Bool
  pub target_worker_deployment : Option String
  pub target_web_background_deployment : Option String
  pub analysis_policy : RawAnalysis
  pub datapoint_policy : RawDatapoint
  pub worker_policy : RawWorker
  pub stall_window_minutes : Option ℕ
  pub storage_policy : RawStorage

-- `raw.get(key, default)`
abbrev pub get_or : {A : Type 0} → Option A → A → A
get_or none default = default
get_or (some a) default = a

-- The computation, a `ValueError`, or the `AttributeError` of `.get` on no mapping.
pub data Parsed (A : Type 0) : Type 0 where
  parsed : A → Parsed A
  value_error attribute_error : Parsed A

-- The name and the key, where both are texts with characters.
abbrev pub full_ref : Field → Field → Option RedisSecretRef
full_ref (text name) (text key) =
    if name == "" || key == "" then none else some (record { name = name; key = key })
full_ref _ _ = none

abbrev pub demand : Option RedisSecretRef → Parsed (Option RedisSecretRef)
demand none = value_error
demand (some ref) = parsed (some ref)

-- `_redis_secret_ref_from_spec`
abbrev pub redis_secret_ref_from_spec : Mapped RawRef → Parsed (Option RedisSecretRef)
redis_secret_ref_from_spec absent = parsed none
redis_secret_ref_from_spec wrong = value_error
redis_secret_ref_from_spec (dict raw) = demand (full_ref raw.name raw.key)

abbrev pub secret_ref_of_credentials : Mapped (Mapped RawRef) → Parsed (Option RedisSecretRef)
secret_ref_of_credentials absent = parsed none
secret_ref_of_credentials wrong = attribute_error
secret_ref_of_credentials (dict secret_ref) = redis_secret_ref_from_spec secret_ref

-- The configuration, once the credentials are parsed.
abbrev pub config_of : RawSpec → Option RedisSecretRef → OperatorConfig
config_of spec secret_ref = record {
  server_url = get_or spec.server_url "";
  redis_url = get_or spec.redis_url "";
  redis_credentials = record { secret_ref = secret_ref };
  dry_run = get_or spec.dry_run false;
  target_worker_deployment = get_or spec.target_worker_deployment "";
  target_web_background_deployment = get_or spec.target_web_background_deployment "";
  analysis_policy = record {
    max_duration_minutes = get_or spec.analysis_policy.max_duration_minutes 180;
    graceful_stop_timeout_minutes = get_or spec.analysis_policy.graceful_stop_timeout_minutes 15;
    auto_soft_stop = get_or spec.analysis_policy.auto_soft_stop true;
    force_delete_on_escalation = get_or spec.analysis_policy.force_delete_on_escalation false;
  };
  datapoint_policy = record {
    max_datapoint_runtime_minutes = get_or spec.datapoint_policy.max_datapoint_runtime_minutes 45;
    max_auto_requeues = get_or spec.datapoint_policy.max_auto_requeues 3;
  };
  worker_policy = record {
    recycle_worker_interval_hours = get_or spec.worker_policy.recycle_worker_interval_hours 12;
    recycle_after_analysis = get_or spec.worker_policy.recycle_after_analysis true;
    min_recycle_interval_minutes = get_or spec.worker_policy.min_recycle_interval_minutes 30;
  };
  web_background_policy = record { stall_window_minutes = get_or spec.stall_window_minutes 10 };
  storage_policy = record {
    archive_to_s3 = get_or spec.storage_policy.archive_to_s3 false;
    backend = spec.storage_policy.backend;
    bucket = spec.storage_policy.bucket;
    secret_ref = spec.storage_policy.secret_ref;
    retention_days = get_or spec.storage_policy.retention_days 7;
    purge_completed_nfs_files = get_or spec.storage_policy.purge_completed_nfs_files true;
  };
}

-- `OperatorConfig.from_spec`
unfoldable pub from_spec : RawSpec → Parsed OperatorConfig
from_spec spec = elim (secret_ref_of_credentials spec.redis_credentials) [
  | parsed secret_ref ↦ parsed (config_of spec secret_ref)
  | value_error ↦ value_error
  | attribute_error ↦ attribute_error
]
