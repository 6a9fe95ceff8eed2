-- ===== src/Retention.antt =====
-- The retention pipeline (src/openstudio_operator/retention.py), the CronJob's tick: archival Jobs
-- of completed analyses, their verification, and the deletion of what is verified. Its Events go
-- through the sink of src/openstudio_operator/prune_entrypoint.py, which swallows a refusal and
-- knows no dry run. `job_name` is any function of names, as
-- `archival_job_name` is one (Retention/JobName.antt); the manifest of a Job is not modelled.
pub mod Documents
pub mod JobName
pub mod Cardinal
pub mod Verified
pub mod Reconcile
pub mod Rule
pub mod Audit
use openstudio_server_operat.Base.{
  ℕ, ◌≤◌, ◌+◌, String, Bool, true, false, Option, none, some, List, [], ◌∷◌, ◌&&◌, ◌||◌, not, leb,
  member, keep, map, if◌then◌else◌, ◌==◌,
}
use openstudio_server_operat.Base.Dict.{Dict, lookup, insert, has, keys}
use openstudio_server_operat.Clock.{Time, days}
use openstudio_server_operat.Config.{OperatorConfig}
use openstudio_server_operat.Status.{ArchivedAnalysisRecord}
use openstudio_server_operat.World.{
  Call, Severity, Reason, Doc, Condition, Env, World, Error, M, ◌>>=◌, ◌>>◌, ⊤, pure, throw, gets,
  when, call, ask, attempt,
}
use openstudio_server_operat.Store.{read, set_archived_analysis, clear_archived_analysis}
use Documents.{
  eligible, Terminal, complete, failed, job_terminal_condition, Progress, no_progress,
  RetentionTickResult, no_retention, note_progress, ids_for, completed_by_id, has_destination,
  text_of, known_backend,
}

module _ (env : Env) where
  -- The Event sink of the CronJob: it catches an `ApiException`, the only refusal of a post that is modelled.
  unfoldable pub post : Severity → Reason → String → M ⊤
  post severity reason subject = do attempt env (Call.post_event severity reason subject); pure tt

  unfoldable pub job_if_found : String → Option ℕ → M (Option (List Condition))
  job_if_found name none = gets (λ w. some (env.job w.trace name))
  job_if_found name (some status) =
      if leb status 404 && leb 404 status
      then pure none
      else throw (Error.refused (Call.read_job name) status)

  unfoldable pub read_job : String → M (Option (List Condition))
  read_job name = do failure ← attempt env (Call.read_job name); job_if_found name failure

  unfoldable pub fail_archival : String → M ⊤
  fail_archival analysis_id = do
    post Severity.warning Reason.analysis_archival_failed analysis_id
    clear_archived_analysis env analysis_id

module _ (env : Env) (config : OperatorConfig) where
  unfoldable pub delete_verified : String → Bool → M Bool
  delete_verified analysis_id just_verified =
      if not config.storage_policy.purge_completed_nfs_files
      then pure false
      else if config.dry_run
      then (do
        when just_verified (post env Severity.normal Reason.analysis_deleted analysis_id)
        pure false)
      else (do
        call env (Call.delete_analysis analysis_id)
        post env Severity.normal Reason.analysis_deleted analysis_id
        clear_archived_analysis env analysis_id
        pure true)

  -- A record that has just been found verified.
  unfoldable pub verify : String → ArchivedAnalysisRecord → M Progress
  verify analysis_id verified = do
    set_archived_analysis env analysis_id verified
    post env Severity.normal Reason.analysis_archival_succeeded analysis_id
    done ← delete_verified analysis_id true
    pure (record { spawned = false; verified = true; deleted = done })

module _ (env : Env) (config : OperatorConfig) (now : Time) where
  unfoldable pub reconcile_condition :
      String → ArchivedAnalysisRecord → Option Terminal → M Progress
  reconcile_condition analysis_id r none = pure no_progress
  reconcile_condition analysis_id r (some failed) =
      fail_archival env analysis_id >> pure no_progress
  reconcile_condition analysis_id r (some complete) = verify env config analysis_id (record {
    backend = r.backend;
    bucket = r.bucket;
    verified_at = some now;
    job_name = r.job_name;
    spawned_at = r.spawned_at;
  })

  unfoldable pub reconcile_job :
      String → ArchivedAnalysisRecord → Option (List Condition) → M Progress
  reconcile_job analysis_id r none = fail_archival env analysis_id >> pure no_progress
  reconcile_job analysis_id r (some conditions) =
      reconcile_condition analysis_id r (job_terminal_condition conditions)

  -- A record that is not verified yet, by its Job's name.
  unfoldable pub reconcile_in_flight : String → ArchivedAnalysisRecord → Option String → M Progress
  reconcile_in_flight analysis_id r none =
      if config.dry_run
      then pure no_progress
      else clear_archived_analysis env analysis_id >> pure no_progress
  reconcile_in_flight analysis_id r (some name) = do
    job ← read_job env name
    reconcile_job analysis_id r job

  unfoldable pub reconcile_present : String → ArchivedAnalysisRecord → Option Time → M Progress
  reconcile_present analysis_id r (some at) = do
    done ← delete_verified env config analysis_id false
    pure (record no_progress { deleted = done })
  reconcile_present analysis_id r none = reconcile_in_flight analysis_id r r.job_name

  unfoldable pub reconcile_tracked : Dict Doc → String → ArchivedAnalysisRecord → M Progress
  reconcile_tracked completed analysis_id r =
      if not (has analysis_id completed)
      then clear_archived_analysis env analysis_id >> pure no_progress
      else reconcile_present analysis_id r r.verified_at

  -- Phase A
  unfoldable pub reconcile_all :
      Dict Doc → Dict ArchivedAnalysisRecord → RetentionTickResult → M RetentionTickResult
  reconcile_all completed [] result = pure result
  reconcile_all completed ((analysis_id, r) ∷ tracked) result = do
    progress ← reconcile_tracked completed analysis_id r
    reconcile_all completed tracked (note_progress analysis_id progress result)

  -- `datapoint_ids_for`: the heavy listing once per tick, and only when a spawn is due.
  unfoldable pub payload_once : Option (List Doc) → M (List Doc)
  payload_once none = ask env Call.list_datapoints env.datapoints
  payload_once (some payload) = pure payload

module _ (env : Env) (config : OperatorConfig) (now : Time) (job_name : String → String) where
  -- The record of a spawned or adopted Job.
  abbrev pub spawn_record : Option Time → Option String → ArchivedAnalysisRecord
  spawn_record verified_at name = record {
    backend = text_of config.storage_policy.backend;
    bucket = config.storage_policy.bucket;
    verified_at = verified_at;
    job_name = name;
    spawned_at = some now;
  }

  -- A fresh Job, with the ids of the datapoint trees that it archives.
  unfoldable pub spawn : String → Option (List Doc) → M (Progress × Option (List Doc))
  spawn analysis_id payload = do
    docs ← payload_once env config now payload
    when (not (known_backend config)) (throw Error.value_error)
    when (not config.dry_run) (call env (Call.create_job (job_name analysis_id)))
    set_archived_analysis env analysis_id
        (spawn_record none (if config.dry_run then none else some (job_name analysis_id)))
    post env Severity.normal Reason.analysis_archival_started analysis_id
    pure (record no_progress { spawned = true }, some docs)

  -- An existing Job by its condition: adopted when it is complete or running, removed when failed.
  unfoldable pub adopt :
      String → Option (List Doc) → Option Terminal → M (Progress × Option (List Doc))
  adopt analysis_id payload (some complete) = do
    progress ← verify env config analysis_id (spawn_record (some now) (some (job_name analysis_id)))
    pure (progress, payload)
  adopt analysis_id payload none = do
    set_archived_analysis env analysis_id (spawn_record none (some (job_name analysis_id)))
    pure (no_progress, payload)
  adopt analysis_id payload (some failed) = do
    when (not config.dry_run) (call env (Call.delete_job (job_name analysis_id)))
    spawn analysis_id payload

  unfoldable pub spawn_or_adopt :
      String → Option (List Doc) → Option (List Condition) → M (Progress × Option (List Doc))
  spawn_or_adopt analysis_id payload none = spawn analysis_id payload
  spawn_or_adopt analysis_id payload (some conditions) =
      adopt analysis_id payload (job_terminal_condition conditions)

  unfoldable pub spawn_archival : String → Option (List Doc) → M (Progress × Option (List Doc))
  spawn_archival analysis_id payload = do
    existing ← read_job env (job_name analysis_id)
    spawn_or_adopt analysis_id payload existing

  -- Phase B
  unfoldable pub spawn_all :
      List String → Option (List Doc) → RetentionTickResult → M RetentionTickResult
  spawn_all [] payload result = pure result
  spawn_all (analysis_id ∷ due) payload result = do
    out ← spawn_archival analysis_id payload
    spawn_all due out.1 (note_progress analysis_id out.0 result)

  -- The completed analyses that are due and were not tracked before phase A.
  unfoldable pub due_ids : Dict ArchivedAnalysisRecord → Dict Doc → List String
  due_ids tracked [] = []
  due_ids tracked ((analysis_id, doc) ∷ completed) =
      if not (has analysis_id tracked)
        && eligible now (days config.storage_policy.retention_days) doc
      then analysis_id ∷ due_ids tracked completed
      else due_ids tracked completed

  unfoldable pub run_phases : M RetentionTickResult
  run_phases = do
    docs ← ask env Call.list_analyses env.analyses
    let completed = completed_by_id docs []
    tracked ← read env (λ s. s.archived_map)
    reconciled ← reconcile_all env config now completed tracked no_retention
    spawn_all (due_ids tracked completed) none reconciled

  -- Passive without `archiveToS3`, and idle while the destination is incomplete.
  unfoldable pub run_retention_tick : M RetentionTickResult
  run_retention_tick =
      if not config.storage_policy.archive_to_s3
      then pure no_retention
      else if not (has_destination config)
      then pure no_retention
      else run_phases
