-- ===== src/Tests/RetentionTests.antt =====
-- The retention pipeline at work.
use openstudio_server_operat.Base.{
  arith, if◌then◌else◌, String, Bool, none, some, [], ◌∷◌, ◌≡◌, refl, str_dec, ℕ_discrete, true,
  false,
}
use openstudio_server_operat.Base.Dict.{lookup, insert, has, erase, erase_all, keys}
use openstudio_server_operat.Clock.{days}
use openstudio_server_operat.Config.{OperatorConfig, default_config}
use openstudio_server_operat.Status.{archived_dec}
use openstudio_server_operat.World.{Call, Env, World, ok, ◌>>=◌, when, call, ask, attempt}
use openstudio_server_operat.World.Grows.{count_done}
use openstudio_server_operat.World.Triple.{After}
use openstudio_server_operat.Store.{
  read, is_entry, write_map, set_archived_analysis, clear_archived_analysis,
}
use openstudio_server_operat.Store.Cap.{capped_insert}
use openstudio_server_operat.Retention.{
  post, job_if_found, read_job, fail_archival, delete_verified, verify, reconcile_condition,
  reconcile_job, reconcile_in_flight, reconcile_present, reconcile_tracked, reconcile_all,
  payload_once, spawn, adopt, spawn_or_adopt, spawn_archival, spawn_all, due_ids, run_phases,
  run_retention_tick,
}
use openstudio_server_operat.Retention.Documents.{
  completion_time, eligible, job_terminal_condition, ids_for, completed_by_id,
}
use openstudio_server_operat.Base.Texts.{append, size}
use openstudio_server_operat.Retention.JobName.{
  cut_at, dashed, lstrip, rstrip, all_alnum, Label, archival_job_name, archival_job_name-Label,
}
use openstudio_server_operat.Retention.Audit.{announces, run_retention_tick-announces}
use openstudio_server_operat.World.Adds.{Adds}
use openstudio_server_operat.Retention.Rule.{run_retention_tick-Lawful, LawfulSince}
use openstudio_server_operat.Tests.Samples.{server, start}

program : Unit {0}
unfolding lookup insert has erase erase_all keys days archived_dec ◌>>=◌ when call ask attempt
    count_done read is_entry write_map set_archived_analysis clear_archived_analysis capped_insert
    post job_if_found read_job fail_archival delete_verified verify reconcile_condition
    reconcile_job reconcile_in_flight reconcile_present reconcile_tracked reconcile_all payload_once
    spawn adopt spawn_or_adopt spawn_archival spawn_all due_ids run_phases run_retention_tick
    completion_time eligible job_terminal_condition ids_for completed_by_id str_dec ℕ_discrete
program = tt

abbrev archiving : OperatorConfig
archiving = record default_config {
  storage_policy = record default_config.storage_policy {
    archive_to_s3 = true;
    backend = some "s3";
    bucket = some "b";
    secret_ref = some "s";
    retention_days = 0;
  };
}

-- A server where every Job has completed, and one where no Job is found.
abbrev done_server : Env
done_server = record server {
  analyses = λ t.
      record {
        id = some "a1";
        status = some "completed";
        analysis_id = none;
        updated_at = some 0;
        created_at = none;
      }
      ∷ [];
  job = λ t j. record { kind = "Complete"; status = "True" } ∷ [];
}

abbrev is_read_job : Call → Bool
is_read_job (Call.read_job _) = true
is_read_job _ = false

abbrev empty_server : Env
empty_server = record done_server { refuses = λ t c. if is_read_job c then some 404 else none }

abbrev name : String → String
name a = "oscm-archive-x"

-- A completed Job is adopted, and its analysis is deleted.
adopts :
    (run_retention_tick done_server archiving 9 name start).0
    ≡ ok (record { spawned = []; verified = "a1" ∷ []; deleted = "a1" ∷ [] })
unfolding program
adopts = refl

-- With no Job yet one is spawned, and the next tick finds its record.
spawns :
    (run_retention_tick empty_server archiving 9 name start).0
    ≡ ok (record { spawned = "a1" ∷ []; verified = []; deleted = [] })
unfolding program
spawns = refl

abbrev spawned : World
spawned = (run_retention_tick empty_server archiving 9 name start).1

verifies :
    (run_retention_tick done_server archiving 10 name spawned).0
    ≡ ok (record { spawned = []; verified = "a1" ∷ []; deleted = "a1" ∷ [] })
unfolding program
verifies = refl

run_retention_tick-Lawful_example :
    After
      (λ _ w'. LawfulSince done_server archiving 10 name spawned w')
      (LawfulSince done_server archiving 10 name spawned)
      (run_retention_tick done_server archiving 10 name spawned)
run_retention_tick-Lawful_example = run_retention_tick-Lawful done_server archiving 10 name spawned

run_retention_tick-announces_example :
    Adds announces (run_retention_tick done_server (record archiving { dry_run = true }) 10 name)
run_retention_tick-announces_example =
    run_retention_tick-announces done_server (record archiving { dry_run = true }) 10 name refl

-- A digest and a lower-casing that are enough for these names.
abbrev hexdigest : String → String
hexdigest s = "0123456789abcdef"

abbrev lower : String → String
lower s = s

job_names : archival_job_name hexdigest lower "_a__1_" ≡ "oscm-archive-a-1-01234567"
unfolding archival_job_name append cut_at dashed lstrip rstrip
job_names = refl

archival_job_name-Label_example : Label (archival_job_name hexdigest lower "_a__1_")
unfolding all_alnum size
archival_job_name-Label_example =
    archival_job_name-Label hexdigest lower "_a__1_" (omega arith) refl
