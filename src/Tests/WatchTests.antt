-- ===== src/Tests/WatchTests.antt =====
-- The watch-event handler of the singleton guard at work.
use openstudio_server_operat.Base.{
  String, Bool, none, some, List, [], ◌∷◌, ◌≡◌, ◌≤◌, refl, str_dec, same_text, text_self, ◌==◌,
  length, is_some, true,
}
use openstudio_server_operat.Singleton.{
  stamp, resolve_active_cr, sort_crs_by_seniority, by_seniority, insort, same_cr, enforce,
  same_snapshot,
}
use openstudio_server_operat.Singleton.Order.{text_before, is_senior}
use openstudio_server_operat.Config.Spec.{text, absent, dict, RawSpec, from_spec}
use openstudio_server_operat.Singleton.Credentials.{Agrees, from_spec-Agrees}
use openstudio_server_operat.Singleton.RedisEvents.{
  Listed, resolved, forbidden, redis_secret_ref_of, has_redis_secret_ref,
  emit_redis_url_guard_events, emit_redis_secret_ref_forbidden_events,
}
use openstudio_server_operat.Singleton.Watch.{
  Kind, replayed, added, modified, deleted, Event, Reply, get, set, evict, check, skip_guard_relist,
  singleton_guard_event, run, cr_policy_surface, max_guard_cache_entries,
}
use openstudio_server_operat.Singleton.Watch.Bounds.{run_bounded}
use openstudio_server_operat.Singleton.Watch.Once.{times, run_once}
use openstudio_server_operat.Singleton.Watch.Skips.{last_surface, skip_guard_relist-last_surface}
use openstudio_server_operat.Singleton.Watch.Missed.{singleton_guard_event_missed}

-- Mappings by their text.
abbrev same : String → String → Bool
same a b = a == b

abbrev empty_spec : RawSpec
empty_spec = record {
  server_url = none;
  redis_url = none;
  redis_credentials = absent;
  dry_run = none;
  target_worker_deployment = none;
  target_web_background_deployment = none;
  analysis_policy = record {
    max_duration_minutes = none;
    graceful_stop_timeout_minutes = none;
    auto_soft_stop = none;
    force_delete_on_escalation = none;
  };
  datapoint_policy = record { max_datapoint_runtime_minutes = none; max_auto_requeues = none };
  worker_policy = record {
    recycle_worker_interval_hours = none;
    recycle_after_analysis = none;
    min_recycle_interval_minutes = none;
  };
  stall_window_minutes = none;
  storage_policy = record {
    archive_to_s3 = none;
    backend = none;
    bucket = none;
    secret_ref = none;
    retention_days = none;
    purge_completed_nfs_files = none;
  };
}

abbrev plain : Listed
plain = record {
  cr = record { name = some "a"; uid = some "u1"; creation = stamp 10 };
  namespace = some "ns";
  spec = empty_spec;
}

-- One whose Secret may not be read.
abbrev fenced : Listed
fenced = record {
  cr = record { name = some "b"; uid = some "u2"; creation = stamp 20 };
  namespace = some "ns";
  spec = record empty_spec {
    redis_credentials = dict (dict (record { name = text "secret"; key = text "url" }));
  };
}

abbrev listed : Reply
listed = record { listing = some (plain ∷ fenced ∷ []); probe = λ ns ref. forbidden }

abbrev unlisted : Reply
unlisted = record { listing = none; probe = λ ns ref. resolved }

abbrev event_of : Kind → String → Event String
event_of kind spec = record {
  kind = kind;
  key = ("ns", "a");
  body = record {
    uid = some "u1";
    spec = some spec;
    labels = none;
    annotations = none;
    deletion = none;
  };
}

-- The latest first.
abbrev history : List (Event String × Reply)
history = (event_of modified "new", listed) ∷ (event_of replayed "old", listed) ∷ []

program : Unit {0}
unfolding resolve_active_cr sort_crs_by_seniority by_seniority insort same_cr enforce same_snapshot
    text_before is_senior str_dec redis_secret_ref_of has_redis_secret_ref
    emit_redis_url_guard_events emit_redis_secret_ref_forbidden_events get set evict check
    skip_guard_relist singleton_guard_event run
program = tt

told_of_url : (run same history).1.url ≡ ("ns", "a") ∷ []
unfolding program
told_of_url = refl

told_of_secret : (run same history).1.refused ≡ ("ns", "b") ∷ []
unfolding program
told_of_secret = refl

run_bounded_example : length (run same history).0.seen ≤ max_guard_cache_entries
run_bounded_example = run_bounded same history

run_once_example :
    (times ("ns", "a") (run same history).1.url ≤ 1)
    × (times ("ns", "a") (run same history).1.refused ≤ 1)
run_once_example = run_once same history ("ns", "a")

status_write_skipped :
    (skip_guard_relist same (event_of modified "new") (run same history).0).0 ≡ true
unfolding program
status_write_skipped = refl

skip_guard_relist-last_surface_example :
    (modified ≡ modified)
    × ((is_some (run same history).0.last ≡ true)
        × (last_surface ("ns", "a") history
            ≡ some (cr_policy_surface (event_of modified "new").body)))
skip_guard_relist-last_surface_example =
    skip_guard_relist-last_surface same same_text history (event_of modified "new")
      status_write_skipped

guard_resolved : is_some (run same history).0.last ≡ true
unfolding program
guard_resolved = refl

added_live : ¬ (added ≡ deleted)
added_live e = cc

singleton_guard_event_missed_example :
    (skip_guard_relist same
      (event_of modified "third")
      (singleton_guard_event same (event_of added "third") unlisted (run same history).0).0).0
    ≡ true
singleton_guard_event_missed_example =
    singleton_guard_event_missed same same_text text_self (event_of added "third")
      (event_of modified "third") unlisted (run same history).0 guard_resolved added_live refl refl
      refl refl

from_spec-Agrees_example : Agrees fenced.spec (from_spec fenced.spec)
from_spec-Agrees_example = from_spec-Agrees fenced.spec
