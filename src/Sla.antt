-- ===== src/Sla.antt =====
-- The analysis SLA monitor (src/openstudio_operator/handlers/analysis_sla.py): soft stop, grace
-- and escalation.
pub mod Escalation
pub mod Warrants
pub mod Ticks
pub mod Eviction
pub mod Matches
pub mod Stamp
use openstudio_server_operat.Base.{
  ℕ, ◌+◌, String, Bool, true, false, Option, none, some, List, [], ◌∷◌, ◌&&◌, not, member,
  if◌then◌else◌, ◌==◌,
}
use openstudio_server_operat.Base.Dict.{Dict, lookup, has}
use openstudio_server_operat.Clock.{Time, elapsed, minutes, seconds}
use openstudio_server_operat.Config.{OperatorConfig}
use openstudio_server_operat.Status.{SoftStopRecord, StopRecord}
use openstudio_server_operat.World.{
  Call, Severity, Reason, Doc, StatusBody, Env, World, Error, M, ◌>>=◌, ◌>>◌, ⊤, pure, throw, when,
  call, ask,
}
use openstudio_server_operat.Store.{
  read, set_soft_stop, clear_soft_stop, set_stop_record, prune_stop_record,
}
use openstudio_server_operat.Emitter.{emit}
use openstudio_server_operat.Watchdog.Hygiene.{doc_id}
use Escalation.{escalate_analysis}

-- What a tick has done to analyses, by their ids.
pub record SlaTickResult : Type 0 where
  pub soft_stopped : List String
  pub escalated : List String
  pub stopped : List String

abbrev pub no_result : SlaTickResult
no_result = record { soft_stopped = []; escalated = []; stopped = [] }

-- What one anchor came to.
pub record Verdict : Type 0 where
  pub soft_stops : Bool
  pub escalates : Bool
  pub stops : Bool

abbrev pub nothing : Verdict
nothing = record { soft_stops = false; escalates = false; stops = false }

abbrev add_if : Bool → String → List String → List String
add_if b id ids = if b then id ∷ ids else ids

abbrev pub note_verdict : String → Verdict → SlaTickResult → SlaTickResult
note_verdict id v r = record {
  soft_stopped = add_if v.soft_stops id r.soft_stopped;
  escalated = add_if v.escalates id r.escalated;
  stopped = add_if v.stops id r.stopped;
}

-- `analysis.get("status") == "started"`
abbrev says_started : Option String → Bool
says_started none = false
says_started (some s) = s == "started"

unfoldable pub body_is_started : StatusBody → Bool
body_is_started (StatusBody.one s) = says_started s
body_is_started (StatusBody.many []) = false
body_is_started (StatusBody.many (s ∷ _)) = says_started s
body_is_started StatusBody.other_body = false

-- The outcome written for a mutation, by `spec.dryRun`.
abbrev pub issued_outcome : OperatorConfig → String
issued_outcome config = if config.dry_run then "dry-run" else "issued"

module _ (config : OperatorConfig) (now : Time) where
  -- A watching anchor has outlived `maxDurationMinutes`.
  abbrev pub is_overdue : SoftStopRecord → Bool
  is_overdue r =
      r.outcome == "watching"
      && elapsed now r.issued_at (minutes config.analysis_policy.max_duration_minutes)

  abbrev pub is_past_grace : SoftStopRecord → Bool
  is_past_grace r =
      elapsed now r.issued_at (minutes config.analysis_policy.graceful_stop_timeout_minutes)

module _ (env : Env) (config : OperatorConfig) (now : Time) where
  unfoldable pub status_is_started : String → M Bool
  status_is_started analysis_id = do
    body ← ask env (Call.get_analysis_status analysis_id) (λ t. env.analysis_status t analysis_id)
    pure (body_is_started body)

  -- Phase A: the started analyses; one seen for the first time gets its anchor.
  unfoldable pub observe : Dict SoftStopRecord → List Doc → M (List String)
  observe anchors [] = pure []
  observe anchors (doc ∷ docs) = if doc_id doc == "" then observe anchors docs else (do
    started ← status_is_started (doc_id doc)
    when (started && not (has (doc_id doc) anchors)) (
        set_soft_stop env (doc_id doc) (record {
          issued_at = now;
          outcome = "watching";
          escalated_at = none;
          escalation_outcome = none;
        }))
    rest ← observe anchors docs
    pure (if started then doc_id doc ∷ rest else rest))

  unfoldable pub soft_stop : String → SoftStopRecord → M Verdict
  soft_stop analysis_id r = do
    when (not config.dry_run) (call env (Call.soft_stop_analysis analysis_id))
    emit env config Severity.warning Reason.analysis_soft_stopped analysis_id
    set_soft_stop env analysis_id (record {
      issued_at = r.issued_at;
      outcome = issued_outcome config;
      escalated_at = none;
      escalation_outcome = none;
    })
    pure (record nothing { soft_stops = true })

  unfoldable pub escalate : String → Bool → M Verdict
  escalate analysis_id stopped = do
    escalate_analysis env config now analysis_id
    pure (record { soft_stops = false; escalates = true; stops = stopped })

  -- After a grace period that followed a soft stop: the stop record decides, by its `stopped_at`.
  unfoldable pub wait_for_stop : String → Bool → StopRecord → Option Time → M Verdict
  wait_for_stop analysis_id just_set r (some at) = do
    set_stop_record env analysis_id
        (record { issued_at = r.issued_at; outcome = "completed"; stopped_at = some at })
    prune_stop_record env analysis_id
    pure (record nothing { stops = just_set })
  wait_for_stop analysis_id just_set r none =
      if just_set
      then escalate analysis_id true
      else if elapsed now r.issued_at (seconds 60)
      then (do
        set_stop_record env analysis_id
            (record { issued_at = r.issued_at; outcome = "timeout"; stopped_at = some now })
        escalate analysis_id false)
      else pure nothing

  unfoldable pub after_stop_record : String → Bool → Option StopRecord → M Verdict
  after_stop_record analysis_id just_set none =
      if just_set then escalate analysis_id true else throw Error.attribute_error
  after_stop_record analysis_id just_set (some r) =
      wait_for_stop analysis_id just_set r r.stopped_at

  unfoldable pub issue_stop : String → M Verdict
  issue_stop analysis_id = do
    when (not config.dry_run) (call env (Call.stop_analysis analysis_id))
    emit env config Severity.warning Reason.analysis_stopped analysis_id
    set_stop_record env analysis_id
        (record { issued_at = now; outcome = issued_outcome config; stopped_at = none })
    again ← read env (λ s. lookup analysis_id s.stopped_map)
    after_stop_record analysis_id true again

  unfoldable pub stop_phase : String → Option StopRecord → M Verdict
  stop_phase analysis_id none = issue_stop analysis_id
  stop_phase analysis_id (some r) = after_stop_record analysis_id false (some r)

  -- An anchor of a started analysis that has not been escalated: is it overdue, is it past its
  -- grace, has a soft stop been issued.
  unfoldable pub act : String → SoftStopRecord → M Verdict
  act analysis_id r =
      if is_overdue config now r
      then soft_stop analysis_id r
      else if not (is_past_grace config now r)
      then pure nothing
      else if r.outcome == "issued"
      then (do
        found ← read env (λ s. lookup analysis_id s.stopped_map)
        stop_phase analysis_id found)
      else escalate analysis_id false

  unfoldable pub check_started : String → SoftStopRecord → Option Time → M Verdict
  check_started analysis_id r (some at) = pure nothing
  check_started analysis_id r none = act analysis_id r

  unfoldable pub check_anchor : List String → String → SoftStopRecord → M Verdict
  check_anchor started_ids analysis_id r =
      if not (member analysis_id started_ids)
      then clear_soft_stop env analysis_id >> pure nothing
      else check_started analysis_id r r.escalated_at

  unfoldable pub walk_anchors : List String → Dict SoftStopRecord → M SlaTickResult
  walk_anchors started_ids [] = pure no_result
  walk_anchors started_ids ((analysis_id, r) ∷ anchors) = do
    verdict ← check_anchor started_ids analysis_id r
    rest ← walk_anchors started_ids anchors
    pure (note_verdict analysis_id verdict rest)

  unfoldable pub grace_and_escalate : List String → M SlaTickResult
  grace_and_escalate started_ids = do
    anchors ← read env (λ s. s.soft_stop_map)
    walk_anchors started_ids anchors

  unfoldable pub run_sla_tick : M SlaTickResult
  run_sla_tick = if not config.analysis_policy.auto_soft_stop then pure no_result else (do
    anchors ← read env (λ s. s.soft_stop_map)
    analyses ← ask env Call.list_analyses env.analyses
    started_ids ← observe anchors analyses
    grace_and_escalate started_ids)
