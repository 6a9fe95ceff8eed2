-- ===== src/Status/Merge.antt =====
-- What the merge patch of a map's entry (`_set_map_entry` of src/openstudio_operator/status_store.py) makes of the
-- record that is stored: the optional fields that `to_dict` leaves out of the new record stay.
use openstudio_server_operat.Base.{Option, none, some}
use openstudio_server_operat.Status.{SoftStopRecord, ArchivedAnalysisRecord, StopRecord}

-- The new value of an optional field, or else the old one.
abbrev pub or_old : {A : Type 0} → Option A → Option A → Option A
or_old none old = old
or_old (some a) old = some a

abbrev pub soft_stop_record : SoftStopRecord → SoftStopRecord → SoftStopRecord
soft_stop_record new old = record new {
  escalated_at = or_old new.escalated_at old.escalated_at;
  escalation_outcome = or_old new.escalation_outcome old.escalation_outcome;
}

abbrev pub archived_record :
    ArchivedAnalysisRecord → ArchivedAnalysisRecord → ArchivedAnalysisRecord
archived_record new old = record new {
  verified_at = or_old new.verified_at old.verified_at;
  job_name = or_old new.job_name old.job_name;
  spawned_at = or_old new.spawned_at old.spawned_at;
}

abbrev pub stop_record : StopRecord → StopRecord → StopRecord
stop_record new old = record new { stopped_at = or_old new.stopped_at old.stopped_at }

-- A record without optional fields, and a time.
abbrev pub whole : {A : Type 0} → A → A → A
whole new old = new
