-- ===== src/Retention/Audit.antt =====
-- `spec.dryRun` over the retention pipeline: archival is only announced.
use openstudio_server_operat.Base.{
  ℕ, String, Bool, true, false, Option, none, some, List, [], ◌∷◌, ◌≡◌, refl, arith, ◌&&◌, not, leb,
}
use openstudio_server_operat.Base.Dict.{Dict, has}
use openstudio_server_operat.Clock.{Time}
use openstudio_server_operat.Config.{OperatorConfig}
use openstudio_server_operat.Status.{ArchivedAnalysisRecord}
use openstudio_server_operat.World.{Call, Severity, Reason, Condition, Doc, Env, ◌>>◌, pure}
use openstudio_server_operat.World.Adds.{
  quiet, Adds, Adds-pure, Adds-bind, Adds-if, Adds-when, Adds-ask, Adds-attempt, Adds-gets,
  Adds-throw,
}
use openstudio_server_operat.Store.Quiet.{
  Adds-read, Adds-set_archived_analysis, Adds-clear_archived_analysis,
}
use openstudio_server_operat.Emitter.{not_dry}
use openstudio_server_operat.Store.{clear_archived_analysis}
use openstudio_server_operat.Retention.{
  post, job_if_found, read_job, fail_archival, delete_verified, verify, reconcile_condition,
  reconcile_job, reconcile_in_flight, reconcile_present, reconcile_tracked, reconcile_all,
  payload_once, spawn, adopt, spawn_or_adopt, spawn_archival, spawn_all, run_phases,
  run_retention_tick,
}
use openstudio_server_operat.Retention.Documents.{
  Terminal, complete, failed, RetentionTickResult, has_destination,
}

-- Reads, status writes and Events.
abbrev pub announces : Call → Bool
announces (Call.post_event _ _ _) = true
announces c = quiet c

module _ (env : Env) (config : OperatorConfig) (now : Time) (job_name : String → String)
    (dry : config.dry_run ≡ true) where
  passes : (c : Call) → quiet c ≡ true → announces c ≡ true
  passes c h = ground arith

  never : {P : Type 0} → config.dry_run ≡ false → P
  never wet = cc

  post-Adds : (s : Severity) (m : Reason) (a : String) → Adds announces (post env s m a)
  unfolding post
  post-Adds s m a = Adds-bind _ (Adds-attempt env _ refl) (λ _. Adds-pure _)

  job_if_found-Adds : (j : String) (o : Option ℕ) → Adds announces (job_if_found env j o)
  unfolding job_if_found
  job_if_found-Adds j none = Adds-gets _
  job_if_found-Adds j (some status) =
      Adds-if (leb status 404 && leb 404 status) (λ _. Adds-pure _) (λ _. Adds-throw _)

  read_job-Adds : (j : String) → Adds announces (read_job env j)
  unfolding read_job
  read_job-Adds j = Adds-bind _ (Adds-attempt env _ refl) (λ o. job_if_found-Adds j o)

  clear-Adds :
      {A : Type 0} (a : String) (x : A) → Adds announces (clear_archived_analysis env a >> pure x)
  clear-Adds a x = Adds-bind _ (Adds-clear_archived_analysis env passes a) (λ _. Adds-pure _)

  fail_archival-Adds :
      {A : Type 0} (a : String) (x : A) → Adds announces (fail_archival env a >> pure x)
  unfolding fail_archival
  fail_archival-Adds a x =
      Adds-bind _ (Adds-bind _ (post-Adds _ _ a) (λ _. Adds-clear_archived_analysis env passes a))
        (λ _. Adds-pure _)

  delete_verified-Adds :
      (a : String) (just : Bool) → Adds announces (delete_verified env config a just)
  unfolding delete_verified
  delete_verified-Adds a just =
      Adds-if (not config.storage_policy.purge_completed_nfs_files) (λ _. Adds-pure _)
        (λ _.
          Adds-if config.dry_run
            (λ _. Adds-bind _ (Adds-when _ _ (λ _. post-Adds _ _ a)) (λ _. Adds-pure _)) never)

  verify-Adds : (a : String) (r : ArchivedAnalysisRecord) → Adds announces (verify env config a r)
  unfolding verify
  verify-Adds a r = Adds-bind _ (Adds-set_archived_analysis env passes a r) (λ _.
      Adds-bind _ (post-Adds _ _ a)
        (λ _. Adds-bind _ (delete_verified-Adds a true) (λ _. Adds-pure _)))

  reconcile_condition-Adds :
      (a : String) (r : ArchivedAnalysisRecord) (t : Option Terminal)
      → Adds announces (reconcile_condition env config now a r t)
  unfolding reconcile_condition
  reconcile_condition-Adds a r none = Adds-pure _
  reconcile_condition-Adds a r (some failed) = fail_archival-Adds a _
  reconcile_condition-Adds a r (some complete) = verify-Adds a _

  reconcile_job-Adds :
      (a : String) (r : ArchivedAnalysisRecord) (found : Option (List Condition))
      → Adds announces (reconcile_job env config now a r found)
  unfolding reconcile_job
  reconcile_job-Adds a r none = fail_archival-Adds a _
  reconcile_job-Adds a r (some cs) = reconcile_condition-Adds a r _

  reconcile_in_flight-Adds :
      (a : String) (r : ArchivedAnalysisRecord) (name : Option String)
      → Adds announces (reconcile_in_flight env config now a r name)
  unfolding reconcile_in_flight
  reconcile_in_flight-Adds a r none =
      Adds-if config.dry_run (λ _. Adds-pure _) (λ _. clear-Adds a _)
  reconcile_in_flight-Adds a r (some j) =
      Adds-bind _ (read_job-Adds j) (λ found. reconcile_job-Adds a r found)

  reconcile_present-Adds :
      (a : String) (r : ArchivedAnalysisRecord) (at : Option Time)
      → Adds announces (reconcile_present env config now a r at)
  unfolding reconcile_present
  reconcile_present-Adds a r none = reconcile_in_flight-Adds a r _
  reconcile_present-Adds a r (some t) =
      Adds-bind _ (delete_verified-Adds a false) (λ _. Adds-pure _)

  reconcile_all-Adds :
      (completed : Dict Doc) (tracked : Dict ArchivedAnalysisRecord) (result : RetentionTickResult)
      → Adds announces (reconcile_all env config now completed tracked result)
  unfolding reconcile_all reconcile_tracked
  reconcile_all-Adds completed [] result = Adds-pure _
  reconcile_all-Adds completed ((a, r) ∷ tracked) result =
      Adds-bind _
        (Adds-if (not (has a completed)) (λ _. clear-Adds a _) (λ _. reconcile_present-Adds a r _))
        (λ progress. reconcile_all-Adds completed tracked _)

  payload_once-Adds :
      (payload : Option (List Doc)) → Adds announces (payload_once env config now payload)
  unfolding payload_once
  payload_once-Adds none = Adds-ask env _ _ refl
  payload_once-Adds (some docs) = Adds-pure _

  spawn-Adds :
      (a : String) (payload : Option (List Doc))
      → Adds announces (spawn env config now job_name a payload)
  unfolding spawn
  spawn-Adds a payload = Adds-bind _ (payload_once-Adds payload) (λ docs.
      Adds-bind _ (Adds-when _ _ (λ _. Adds-throw _)) (λ _.
        Adds-bind _ (Adds-when _ _ (λ wet. never (not_dry wet))) (λ _.
          Adds-bind _ (Adds-set_archived_analysis env passes a _)
            (λ _. Adds-bind _ (post-Adds _ _ a) (λ _. Adds-pure _)))))

  adopt-Adds :
      (a : String) (payload : Option (List Doc)) (t : Option Terminal)
      → Adds announces (adopt env config now job_name a payload t)
  unfolding adopt
  adopt-Adds a payload (some complete) = Adds-bind _ (verify-Adds a _) (λ _. Adds-pure _)
  adopt-Adds a payload (some failed) =
      Adds-bind _ (Adds-when _ _ (λ wet. never (not_dry wet))) (λ _. spawn-Adds a payload)
  adopt-Adds a payload none =
      Adds-bind _ (Adds-set_archived_analysis env passes a _) (λ _. Adds-pure _)

  spawn_or_adopt-Adds :
      (a : String) (payload : Option (List Doc)) (found : Option (List Condition))
      → Adds announces (spawn_or_adopt env config now job_name a payload found)
  unfolding spawn_or_adopt
  spawn_or_adopt-Adds a payload none = spawn-Adds a payload
  spawn_or_adopt-Adds a payload (some cs) = adopt-Adds a payload _

  spawn_all-Adds :
      (due : List String) (payload : Option (List Doc)) (result : RetentionTickResult)
      → Adds announces (spawn_all env config now job_name due payload result)
  unfolding spawn_all spawn_archival
  spawn_all-Adds [] payload result = Adds-pure _
  spawn_all-Adds (a ∷ due) payload result =
      Adds-bind _ (Adds-bind _ (read_job-Adds _) (λ found. spawn_or_adopt-Adds a payload found))
        (λ out. spawn_all-Adds due _ _)

  -- In a dry run a retention tick reads, writes the status and posts Events, whatever the services
  -- answer or refuse and whether it returns or raises: no Job is created or deleted and no analysis
  -- is deleted.
  pub run_retention_tick-announces : Adds announces (run_retention_tick env config now job_name)
  unfolding run_retention_tick run_phases
  run_retention_tick-announces =
      Adds-if (not config.storage_policy.archive_to_s3) (λ _. Adds-pure _)
        (λ _.
          Adds-if (not (has_destination config)) (λ _. Adds-pure _)
            (λ _. Adds-bind _ (Adds-ask env _ _ refl) (λ docs.
              Adds-bind _ (Adds-read env passes _) (λ tracked.
                Adds-bind _ (reconcile_all-Adds _ _ _) (λ reconciled. spawn_all-Adds _ _ _)))))
