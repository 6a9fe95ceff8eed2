-- ===== src/Sla/Stamp.antt =====
-- An escalation is stamped onto the anchor, which makes it the only one.
use openstudio_server_operat.Base.{
  ℕ, String, Option, none, some, List, [], ◌∷◌, ◌≡◌, refl, ap, ◌∙◌, arith, is_yes, if◌then◌else◌,
  ◌==◌, str_dec,
}
use mathlib.Core.Path.{subst}
use openstudio_server_operat.Base.Dict.{Dict, lookup, lookup-insert}
use openstudio_server_operat.Clock.{Time}
use openstudio_server_operat.Config.{OperatorConfig}
use openstudio_server_operat.Status.{SoftStopRecord}
use openstudio_server_operat.World.{Call, Severity, Reason, Env, World}
use openstudio_server_operat.World.Triple.{
  After, returns, raises, After-step, After-mono, After-if, After-when, exec_ask, exec_call,
  exec_gets, After-attempt,
}
use openstudio_server_operat.Store.{stamp_escalated, mark_soft_stop_escalated, write_map}
use openstudio_server_operat.Store.Scalars.{exec_read}
use openstudio_server_operat.Emitter.{emit-After}
use openstudio_server_operat.World.{WorkerRecord}
use openstudio_server_operat.Resque.{record_matches, matching_workers, workers_for_analysis}
use openstudio_server_operat.Sla.Escalation.{
  Tally, match_workers, resque_matched_worker_pods, evict_one, evict_pods, raise_failure,
  escalate_analysis, no_tally,
}

-- The anchor with its escalation.
abbrev pub stamped : Time → String → SoftStopRecord → SoftStopRecord
stamped now outcome r = record r { escalated_at = some now; escalation_outcome = some outcome }

-- From one world to a later one: the anchor was there and has been stamped, all else in the status
-- is as it was.
pub record Stamped (id : String) (now : Time) (w w' : World) : Type 0 where
  pub anchor : SoftStopRecord
  pub outcome : String
  pub found : lookup id w.status.soft_stop_map ≡ some anchor
  pub rest : w'.status ≡ record w.status { soft_stop_map = w'.status.soft_stop_map }
  pub entries :
      (j : String)
      → lookup j w'.status.soft_stop_map
        ≡ (if j == id then some (stamped now outcome anchor) else lookup j w.status.soft_stop_map)

abbrev pub SameStatus : World → World → Type 0
SameStatus w w' = w'.status ≡ w.status

module _ (env : Env) (id : String) (now : Time) where
  same_entry :
      (r r' : SoftStopRecord) (d : Dict SoftStopRecord) (j : String)
      → lookup id d ≡ some r
      → r' ≡ r
      → lookup j d ≡ (if j == id then some r' else lookup j d)
  same_entry r r' d j e p =
      elim (str_dec j id) as (λ q. lookup j d ≡ (if is_yes q then some r' else lookup j d)) [
        | yes q ↦ rw (q, p) e
        | no q ↦ refl
      ]

  stamp_escalated-After :
      (outcome : String) (anchor : Option SoftStopRecord) (w : World)
      → lookup id w.status.soft_stop_map ≡ anchor
      → After
          (λ _ w'. Stamped id now w w')
          (SameStatus w)
          (stamp_escalated env id now outcome anchor w)
  unfolding stamp_escalated write_map
  stamp_escalated-After outcome none w e = raises refl
  stamp_escalated-After outcome (some r) w e =
      After-when _ _ w
        (λ changed. exec_gets _ _ w (
          exec_call env _ _ w
            (returns (record {
              anchor = r;
              outcome = outcome;
              found = e;
              rest = refl;
              entries = λ j. lookup-insert j id (stamped now outcome r) w.status.soft_stop_map;
            }))
            refl))
        (λ same. record {
          anchor = r;
          outcome = outcome;
          found = e;
          rest = refl;
          entries =
              λ j. same_entry r (stamped now outcome r) w.status.soft_stop_map j e (ground arith);
        })

  mark-After :
      (outcome : String) (w : World)
      → After
          (λ _ w'. Stamped id now w w')
          (SameStatus w)
          (mark_soft_stop_escalated env id now outcome w)
  unfolding mark_soft_stop_escalated
  mark-After outcome w =
      exec_read env _ _ w
        (After-mono (stamp_escalated-After outcome _ _ refl)
          (λ _ w' s. record {
            anchor = s.anchor;
            outcome = s.outcome;
            found = s.found;
            rest = s.rest;
            entries = s.entries;
          })
          (λ w' e. e))
        refl

  match_workers-After :
      (workers : List String) (w : World)
      → After (λ _ w'. SameStatus w w') (SameStatus w) (match_workers env workers w)
  unfolding match_workers
  match_workers-After [] w = returns refl
  match_workers-After (worker ∷ workers) w = exec_ask env _ _ _ w (returns refl) refl

  record_matches-After :
      (r : WorkerRecord) (w : World)
      → After (λ _ w'. SameStatus w w') (SameStatus w) (record_matches env id r w)
  unfolding record_matches
  record_matches-After WorkerRecord.idle w = returns refl
  record_matches-After WorkerRecord.garbage w = raises refl
  record_matches-After (WorkerRecord.job none) w = returns refl
  record_matches-After (WorkerRecord.job (some args)) w = returns refl

  matching_workers-After :
      (worker_ids : List String) (w : World)
      → After (λ _ w'. SameStatus w w') (SameStatus w) (matching_workers env id worker_ids w)
  unfolding matching_workers
  matching_workers-After [] w = returns refl
  matching_workers-After (worker_id ∷ worker_ids) w =
      exec_ask env _ _ _ w
        (After-step _ _ (record_matches-After _ _)
          (λ b w₁ e.
            After-step _ w₁ (matching_workers-After worker_ids w₁) (λ _ w₂ e'. returns (e' ∙ e))
              (λ w₂ e'. e' ∙ e))
          (λ w₁ e. e))
        refl

  matched_pods-After :
      (w : World)
      → After (λ _ w'. SameStatus w w') (SameStatus w) (resque_matched_worker_pods env id w)
  unfolding resque_matched_worker_pods workers_for_analysis
  matched_pods-After w =
      After-step {P = λ _ w'. SameStatus w w'} {E = SameStatus w} _ w
        (exec_ask env _ _ _ w (matching_workers-After _ _) refl)
        (λ workers w₁ e.
          After-mono (match_workers-After workers w₁) (λ _ w₂ e'. e' ∙ e) (λ w₂ e'. e' ∙ e))
        (λ w₁ e. e)

  module _ (config : OperatorConfig) where
    evict_pods-After :
        (victims : List (String × String)) (t : Tally) (w : World)
        → After (λ _ w'. SameStatus w w') (SameStatus w) (evict_pods env config victims t w)
    unfolding evict_pods evict_one
    evict_pods-After [] t w = returns refl
    evict_pods-After (v ∷ victims) t w =
        After-step _ w (one w)
          (λ o w₁ e.
            After-mono (evict_pods-After victims _ w₁) (λ _ w₂ e'. e' ∙ e) (λ w₂ e'. e' ∙ e))
          (λ w₁ e. e)
      where
        one :
            (w : World)
            → After (λ _ w'. SameStatus w w') (SameStatus w) (evict_one env config v.0 w)
        one w =
            After-if config.dry_run _ _ w (λ _. returns refl)
              (λ _.
                After-mono (After-attempt env _ w {E = SameStatus w})
                  (λ o w' e. ap (λ (x : World). x.status) e) (λ w' e. e))

    raise_failure-After :
        (failure : Option (Call × ℕ)) (w : World)
        → After (λ _ w'. SameStatus w w') (SameStatus w) (raise_failure failure w)
    unfolding raise_failure
    raise_failure-After none w = returns refl
    raise_failure-After (some f) w = raises refl

    -- An escalation that returns has found the analysis's anchor and stamped it with the time and
    -- an outcome, and has changed nothing else in the status; one that raises, wherever it does,
    -- has left the status as it was.
    pub escalate_analysis-Stamped :
        (w : World)
        → After (λ _ w'. Stamped id now w w') (SameStatus w) (escalate_analysis env config now id w)
    unfolding escalate_analysis
    escalate_analysis-Stamped w =
        After-step _ w (matched_pods-After w)
          (λ victims w₁ e₁.
            After-step _ w₁ (evict_pods-After victims no_tally w₁)
              (λ t w₂ e₂.
                After-step _ w₂ (raise_failure-After _ w₂)
                  (λ _ w₃ e₃.
                    After-step _ w₃
                      (emit-After env config Severity.warning Reason.analysis_escalated id w₃)
                      (λ _ w₄ u.
                        After-mono (mark-After _ w₄)
                          (λ _ w₅ s.
                            moved w₄ w₅ (ap (λ (x : World). x.status) u.rest ∙ e₃ ∙ e₂ ∙ e₁) s)
                          (λ w₅ e. e ∙ ap (λ (x : World). x.status) u.rest ∙ e₃ ∙ e₂ ∙ e₁))
                      (λ w₄ u. ap (λ (x : World). x.status) u.rest ∙ e₃ ∙ e₂ ∙ e₁))
                  (λ w₃ e₃. e₃ ∙ e₂ ∙ e₁))
              (λ w₂ e₂. e₂ ∙ e₁))
          (λ w₁ e₁. e₁)
      where
        moved : (v v' : World) → SameStatus w v → Stamped id now v v' → Stamped id now w v'
        moved v v' e s = record {
          anchor = s.anchor;
          outcome = s.outcome;
          found = subst (λ st. lookup id st.soft_stop_map ≡ some s.anchor) e s.found;
          rest =
              subst (λ st. v'.status ≡ record st { soft_stop_map = v'.status.soft_stop_map }) e
                s.rest;
          entries = λ j.
              subst
                (λ st. lookup j v'.status.soft_stop_map ≡ (
                  if j == id
                  then some (stamped now s.outcome s.anchor)
                  else lookup j st.soft_stop_map))
                e (s.entries j);
        }
