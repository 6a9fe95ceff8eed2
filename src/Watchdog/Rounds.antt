-- ===== src/Watchdog/Rounds.antt =====
-- One round of the watchdog's loop, step by step: the REST call, the Event, the new count and the
-- new clock.
use openstudio_server_operat.Base.{
  ℕ, ◌+◌, ◌≤◌, ◌<◌, String, Bool, true, false, some, ◌∷◌, ◌≡◌, refl, ap, ◌∙◌, suc, arith, length,
  ◌==◌, if◌then◌else◌, not,
}
use openstudio_server_operat.Base.Dict.{lookup}
use openstudio_server_operat.Clock.{Time}
use openstudio_server_operat.Config.{OperatorConfig}
use openstudio_server_operat.Status.{RequeueRecord, Status}
use openstudio_server_operat.World.{Call, Severity, Reason, Env, World, when, call}
use openstudio_server_operat.World.Grows.{Grows, same, harmless, count_done}
use openstudio_server_operat.World.Triple.{
  After, After-step, After-when, After-call, After-mono, exec_gets, exec_update,
}
use openstudio_server_operat.Store.Cap.{status_map_max_entries}
use openstudio_server_operat.Store.Entries.{Wrote}
use openstudio_server_operat.Store.Writes.{
  set_requeue-After, set_started_since-After, requeues_of, put_requeues,
}
use openstudio_server_operat.Emitter.{emit-After}
use openstudio_server_operat.Watchdog.{budget_of, warn_exhausted, requeue}
use openstudio_server_operat.Watchdog.Budget.{
  limit, requeued, counted, Within, Within-trans, Within-kept, requeued-Grows,
}

module _ (env : Env) (config : OperatorConfig) (now : Time) where
  -- One round of the loop, for the datapoint `dp_id`.
  pub record Round (dp_id : String) (w w' : World) : Type 0 where
    pub within : (q : String) → Within (limit config) 0 w w' q
    pub others :
        (j : String)
        → (j == dp_id) ≡ false
        → lookup j w'.status.requeue_map ≡ lookup j w.status.requeue_map
    pub larger : length w'.status.requeue_map ≤ length w.status.requeue_map + 1

  pub Round-kept :
      (dp_id : String) (w w' : World)
      → Grows harmless w.trace w'.trace
      → w'.status.requeue_map ≡ w.status.requeue_map
      → Round dp_id w w'
  Round-kept dp_id w w' g e = record {
    within = λ q. Within-kept w w' q g e;
    others = λ j _. ap (lookup j) e;
    larger = omega (arith, ap (length {A = String × RequeueRecord}) e);
  }

  -- The world after the REST call of a requeue: one more is accepted, or none.
  abbrev Called : String → World → World → Type 0
  Called dp_id w w' =
      (w'.status ≡ w.status)
      × ((q : String) → requeued q w' ≤ requeued q w + (if q == dp_id then 1 else 0))

  call-Called :
      (dp_id : String) (w : World) (b : Bool)
      → Called dp_id w (record w { trace = (Call.requeue_datapoint dp_id, b) ∷ w.trace })
  unfolding count_done
  call-Called dp_id w true = (refl, λ q. ground arith)
  call-Called dp_id w false = (refl, λ q. ground arith)

  Called-Grows :
      (dp_id : String) (w w' w'' : World)
      → Called dp_id w w'
      → w''.status ≡ w'.status
      → Grows harmless w'.trace w''.trace
      → Called dp_id w w''
  Called-Grows dp_id w w' w'' c e g =
      (e ∙ c.0, λ q. omega (arith, c.1 q, requeued-Grows q w' w'' g))

  Called-Within :
      (dp_id : String) (w w' : World)
      → Called dp_id w w'
      → (q : String) → Within (limit config) 1 w w' q
  Called-Within dp_id w w' c q =
      let e = ap (λ (s : Status). budget_of q s.requeue_map) c.0 in
      record { spent = ground (arith, c.1 q, e); bounded = omega (arith, e) }

  call_requeue-After :
      (dp_id : String) (w : World)
      → After
          (λ _ w'. Called dp_id w w')
          (Called dp_id w)
          (when (not config.dry_run) (call env (Call.requeue_datapoint dp_id)) w)
  call_requeue-After dp_id w =
      After-when _ _ w
        (λ _.
          After-mono (After-call env _ w) (λ _ w' h. rw h (call-Called dp_id w true))
            (λ w' h. rw h (call-Called dp_id w false)))
        (λ _. (refl, λ q. omega arith))

  -- Once the new count is stored, the accepted requeue is covered by it.
  stored-Round :
      (dp_id : String) (budget : ℕ) (t : Time) (w w' w'' : World)
      → Called dp_id w w'
      → counted dp_id w ≡ budget
      → suc budget ≤ (limit config)
      → length w.status.requeue_map < status_map_max_entries
      → Wrote requeues_of put_requeues dp_id
          (some (record { count = budget + 1; last_requeued_at = t }))
          w'
          w''
      → Round dp_id w w''
  unfolding budget_of
  stored-Round dp_id budget t w w' w'' c e below room wrote =
      let entries = (rw c.0 at wrote.entries) room in
      record {
        within = λ q. record {
          spent = ground (arith, c.1 q, entries q, requeued-Grows q w' w'' wrote.grown);
          bounded = ground (arith, entries q);
        };
        others = λ j h. ground (arith, entries j);
        larger = omega (arith, wrote.larger, ap (λ (s : Status). length s.requeue_map) c.0);
      }

  Round-Grows :
      (dp_id : String) (w w' w'' : World)
      → Round dp_id w w'
      → Grows harmless w'.trace w''.trace
      → w''.status.requeue_map ≡ w'.status.requeue_map
      → Round dp_id w w''
  Round-Grows dp_id w w' w'' r g e = record {
    within = λ q. Within-trans (r.within q) (Within-kept w' w'' q g e);
    others = λ j h. ap (lookup j) e ∙ r.others j h;
    larger = omega (arith, r.larger, ap (length {A = String × RequeueRecord}) e);
  }

  pub Within-weaken :
      (w w' : World) (q : String) → Within (limit config) 0 w w' q → Within (limit config) 1 w w' q
  Within-weaken w w' q h = record { spent = omega (arith, h.spent); bounded = h.bounded }

  pub requeue-After :
      (dp_id : String) (budget : ℕ) (w : World)
      → counted dp_id w ≡ budget
      → suc budget ≤ (limit config)
      → length w.status.requeue_map < status_map_max_entries
      → After
          (λ _ w'. Round dp_id w w')
          (λ w'. (q : String) → Within (limit config) 1 w w' q)
          (requeue env config now dp_id budget w)
  unfolding requeue
  requeue-After dp_id budget w e below room =
      After-step _ w (call_requeue-After dp_id w)
        (λ _ w₁ c.
          After-step _ w₁ (emit-After env config Severity.normal Reason.datapoint_requeued dp_id w₁)
            (λ _ w₂ u.
              let c₂ = Called-Grows dp_id w w₁ w₂ c (ap (λ (v : World). v.status) u.rest) u.grown in
              After-step _ w₂ (set_requeue-After env dp_id _ w₂)
                (λ _ w₃ wrote.
                  let r = stored-Round dp_id budget now w w₂ w₃ c₂ e below room wrote in
                  After-mono (set_started_since-After env dp_id now w₃)
                    (λ _ w₄ clock.
                      Round-Grows dp_id w w₃ w₄ r clock.grown
                        (ap (λ (v : World). v.status.requeue_map) clock.rest))
                    (λ w₄ u'. λ q. Within-weaken w w₄ q (
                      (Round-Grows dp_id w w₃ w₄ r u'.grown
                          (ap (λ (v : World). v.status.requeue_map) u'.rest)).within
                        q)))
                (λ w₃ u'.
                  Called-Within dp_id w w₃ (
                    Called-Grows dp_id w w₂ w₃ c₂ (ap (λ (v : World). v.status) u'.rest) u'.grown)))
            (λ w₂ u.
              Called-Within dp_id w w₂
                (Called-Grows dp_id w w₁ w₂ c (ap (λ (v : World). v.status) u.rest) u.grown)))
        (λ w₁ c. Called-Within dp_id w w₁ c)

  -- Warning of a spent budget touches neither the counts nor the server.
  pub warn_exhausted-After :
      (dp_id : String) (w : World)
      → After
          (λ _ w'. Round dp_id w w')
          (λ w'. (q : String) → Within (limit config) 1 w w' q)
          (warn_exhausted env config now dp_id w)
  unfolding warn_exhausted
  warn_exhausted-After dp_id w = exec_gets _ _ w (
      After-when _ _ w
        (λ fresh. exec_update _ _ w (
          After-mono
            (emit-After env config Severity.warning Reason.datapoint_requeue_exhausted dp_id _)
            (λ _ w' u.
              Round-kept dp_id w w' u.grown (ap (λ (v : World). v.status.requeue_map) u.rest))
            (λ w' u.
              λ q. Within-kept w w' q u.grown (ap (λ (v : World). v.status.requeue_map) u.rest))))
        (λ seen. Round-kept dp_id w w same refl))
