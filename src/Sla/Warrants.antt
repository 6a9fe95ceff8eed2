-- ===== src/Sla/Warrants.antt =====
-- What an anchor allows a tick to do to the server and the cluster.
use openstudio_server_operat.Base.{
  is_none, ℕ, String, Bool, true, false, Option, none, some, List, [], ◌∷◌, ◌≡◌, refl, ◌&&◌, ◌||◌,
  not, arith, leb, any, ◌==◌, member,
}
use openstudio_server_operat.Base.Dict.{Dict}
use openstudio_server_operat.Clock.{Time, elapsed, seconds}
use openstudio_server_operat.Config.{OperatorConfig}
use openstudio_server_operat.Status.{SoftStopRecord, StopRecord}
use openstudio_server_operat.World.{Call, Severity, Reason, Env}
use openstudio_server_operat.World.Adds.{
  quiet, Adds, Adds-pure, Adds-throw, Adds-bind, Adds-if, Adds-when, Adds-call, Adds-ask,
  Adds-attempt, Adds-weaken,
}
use openstudio_server_operat.Store.Quiet.{
  Adds-read, Adds-set_soft_stop, Adds-clear_soft_stop, Adds-set_stop_record, Adds-prune_stop_record,
  Adds-mark_soft_stop_escalated,
}
use openstudio_server_operat.Emitter.{Adds-emit, not_dry}
use openstudio_server_operat.Resque.{workers_for_analysis-Adds}
use openstudio_server_operat.Sla.{
  is_overdue, is_past_grace, soft_stop, escalate, wait_for_stop, after_stop_record, issue_stop,
  stop_phase, act, check_started, check_anchor, walk_anchors,
}
use openstudio_server_operat.Sla.Escalation.{
  match_workers, resque_matched_worker_pods, grace_seconds, evict_one, evict_pods, raise_failure,
  escalate_analysis, Tally,
}

-- The grace period that a pod deletion carries.
abbrev pub is_grace : OperatorConfig → Option ℕ → Bool
is_grace config none = not config.analysis_policy.force_delete_on_escalation
is_grace config (some n) = config.analysis_policy.force_delete_on_escalation && leb n 0

-- What an anchor that is not escalated yet warrants at a time: a soft stop once the analysis has
-- been watched for longer than `maxDurationMinutes`; a stop once an issued soft stop has outlived
-- its grace; pod deletions past the grace, with the policy's grace period, unless it is due for a soft stop - of a
-- `watching` anchor within `maxDurationMinutes` too; Events about it once it is due for one of these.
abbrev pub warrants : OperatorConfig → Time → String × SoftStopRecord → Call → Bool
warrants config now (id, r) (Call.soft_stop_analysis a) = a == id && is_overdue config now r
warrants config now (id, r) (Call.stop_analysis a) =
    a == id && (r.outcome == "issued" && is_past_grace config now r)
warrants config now (id, r) (Call.delete_pod pod grace) =
    is_past_grace config now r && (not (is_overdue config now r) && is_grace config grace)
warrants config now (id, r) (Call.post_event _ _ a) =
    a == id && (is_overdue config now r || is_past_grace config now r)
warrants config now (id, r) _ = false

-- Reads and status writes; anything else only outside a dry run, and only what the anchor warrants.
abbrev pub allows : OperatorConfig → Time → String × SoftStopRecord → Call → Bool
allows config now e c =
    quiet c || (not config.dry_run && (is_none e.1.escalated_at && warrants config now e c))

itself : (s : String) → (s == s) ≡ true
itself s = ground arith

module _ (env : Env) (config : OperatorConfig) (now : Time) (id : String) where
  module _ {p : Call → Bool} (q : (c : Call) → quiet c ≡ true → p c ≡ true)
      (event : (s : Severity) (m : Reason)
        → config.dry_run ≡ false
        → p (Call.post_event s m id) ≡ true) where
    match_workers-Adds : (workers : List String) → Adds p (match_workers env workers)
    unfolding match_workers
    match_workers-Adds [] = Adds-pure _
    match_workers-Adds (worker ∷ workers) =
        Adds-bind _ (Adds-ask env _ _ (q Call.list_pods refl)) (λ _. Adds-pure _)

    raise_failure-Adds : (failure : Option (Call × ℕ)) → Adds p (raise_failure failure)
    unfolding raise_failure
    raise_failure-Adds none = Adds-pure _
    raise_failure-Adds (some (c, status)) = Adds-throw _

    module _
        (evict : (pod : String)
          → config.dry_run ≡ false
          → p (Call.delete_pod pod (grace_seconds config)) ≡ true) where
      evict_pods-Adds :
          (victims : List (String × String)) (t : Tally) → Adds p (evict_pods env config victims t)
      unfolding evict_pods evict_one
      evict_pods-Adds [] t = Adds-pure t
      evict_pods-Adds (v ∷ victims) t =
          Adds-bind _
            (Adds-if config.dry_run (λ dry. Adds-pure _)
              (λ wet. Adds-attempt env _ (evict v.0 wet)))
            (λ failure. evict_pods-Adds victims _)

      escalate-Adds : (stopped : Bool) → Adds p (escalate env config now id stopped)
      unfolding escalate escalate_analysis resque_matched_worker_pods
      escalate-Adds stopped =
          Adds-bind _
            (Adds-bind _
              (Adds-bind _ (workers_for_analysis-Adds env q id)
                (λ workers. match_workers-Adds workers))
              (λ victims. Adds-bind _ (evict_pods-Adds victims _) (λ t.
                Adds-bind _ (raise_failure-Adds _) (λ _.
                  Adds-bind _ (Adds-emit env config _ _ id (event _ _))
                    (λ _. Adds-mark_soft_stop_escalated env q id now _)))))
            (λ _. Adds-pure _)

      wait_for_stop-Adds :
          (just_set : Bool) (r : StopRecord) (at : Option Time)
          → Adds p (wait_for_stop env config now id just_set r at)
      unfolding wait_for_stop
      wait_for_stop-Adds just_set r (some at) =
          Adds-bind _ (Adds-set_stop_record env q id _)
            (λ _. Adds-bind _ (Adds-prune_stop_record env q id) (λ _. Adds-pure _))
      wait_for_stop-Adds just_set r none =
          Adds-if just_set (λ _. escalate-Adds true)
            (λ _.
              Adds-if (elapsed now r.issued_at (seconds 60))
                (λ _. Adds-bind _ (Adds-set_stop_record env q id _) (λ _. escalate-Adds false))
                (λ _. Adds-pure _))

      after_stop_record-Adds :
          (just_set : Bool) (found : Option StopRecord)
          → Adds p (after_stop_record env config now id just_set found)
      unfolding after_stop_record
      after_stop_record-Adds just_set none =
          Adds-if just_set (λ _. escalate-Adds true) (λ _. Adds-throw _)
      after_stop_record-Adds just_set (some r) = wait_for_stop-Adds just_set r _

      stop_phase-Adds :
          (config.dry_run ≡ false → p (Call.stop_analysis id) ≡ true)
          → (found : Option StopRecord) → Adds p (stop_phase env config now id found)
      unfolding stop_phase issue_stop
      stop_phase-Adds stop none =
          Adds-bind _ (Adds-when _ _ (λ wet. Adds-call env _ (stop (not_dry wet)))) (λ _.
            Adds-bind _ (Adds-emit env config _ _ id (event _ _)) (λ _.
              Adds-bind _ (Adds-set_stop_record env q id _) (λ _.
                Adds-bind _ (Adds-read env q _) (λ again. after_stop_record-Adds true again))))
      stop_phase-Adds stop (some r) = after_stop_record-Adds false (some r)

    soft_stop-Adds :
        (r : SoftStopRecord)
        → (config.dry_run ≡ false → p (Call.soft_stop_analysis id) ≡ true)
        → Adds p (soft_stop env config now id r)
    unfolding soft_stop
    soft_stop-Adds r stop =
        Adds-bind _ (Adds-when _ _ (λ wet. Adds-call env _ (stop (not_dry wet)))) (λ _.
          Adds-bind _ (Adds-emit env config _ _ id (event _ _))
            (λ _. Adds-bind _ (Adds-set_soft_stop env q id _) (λ _. Adds-pure _)))

  -- One anchor, by what it allows.
  act-Adds :
      (r : SoftStopRecord)
      → r.escalated_at ≡ none
      → Adds (allows config now (id, r)) (act env config now id r)
  unfolding act
  act-Adds r fresh =
      Adds-if (is_overdue config now r)
        (λ overdue. soft_stop-Adds q (event (ground arith)) r (λ wet. ground (arith, itself id)))
        (λ in_time.
          Adds-if (not (is_past_grace config now r)) (λ _. Adds-pure _)
            (λ late.
              Adds-if (r.outcome == "issued")
                (λ issued. Adds-bind _ (Adds-read env q _) (λ found.
                  stop_phase-Adds q (event (ground arith)) (evict in_time late)
                    (λ wet. ground (arith, itself id)) found))
                (λ _. escalate-Adds q (event (ground arith)) (evict in_time late) false)))
    where
      q : (c : Call) → quiet c ≡ true → allows config now (id, r) c ≡ true
      q c h = ground arith

      event :
          is_overdue config now r || is_past_grace config now r ≡ true
          → (s : Severity) (m : Reason) → config.dry_run ≡ false
          → allows config now (id, r) (Call.post_event s m id) ≡ true
      event due s m wet = ground (arith, itself id)

      evict :
          is_overdue config now r ≡ false
          → not (is_past_grace config now r) ≡ false
          → (pod : String) → config.dry_run ≡ false
          → allows config now (id, r) (Call.delete_pod pod (grace_seconds config)) ≡ true
      evict in_time late pod wet = ground arith

  check_started-Adds :
      (r : SoftStopRecord) (at : Option Time)
      → r.escalated_at ≡ at
      → Adds (allows config now (id, r)) (check_started env config now id r at)
  unfolding check_started
  check_started-Adds r (some t) e = Adds-pure _
  check_started-Adds r none e = act-Adds r e

  pub check_anchor-Adds :
      (started_ids : List String) (r : SoftStopRecord)
      → Adds (allows config now (id, r)) (check_anchor env config now started_ids id r)
  unfolding check_anchor
  check_anchor-Adds started_ids r =
      Adds-if (not (member id started_ids))
        (λ gone. Adds-bind _ (Adds-clear_soft_stop env (λ c h. ground arith) id) (λ _. Adds-pure _))
        (λ _. check_started-Adds r _ refl)

-- Some anchor of the map allows the call.
abbrev pub some_allows : OperatorConfig → Time → Dict SoftStopRecord → Call → Bool
some_allows config now anchors c = quiet c || any (λ e. allows config now e c) anchors

pub walk_anchors-Adds :
    (env : Env) (config : OperatorConfig) (now : Time) (started_ids : List String)
    (anchors : Dict SoftStopRecord)
    → Adds (some_allows config now anchors) (walk_anchors env config now started_ids anchors)
unfolding walk_anchors
walk_anchors-Adds env config now started_ids [] = Adds-pure _
walk_anchors-Adds env config now started_ids (e ∷ anchors) =
    Adds-bind _
      (Adds-weaken _ (λ c h. ground arith) (check_anchor-Adds env config now e.0 started_ids e.1))
      (λ verdict.
        Adds-bind _
          (Adds-weaken _ (λ c h. ground arith)
            (walk_anchors-Adds env config now started_ids anchors))
          (λ rest. Adds-pure _))
