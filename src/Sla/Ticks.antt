-- ===== src/Sla/Ticks.antt =====
-- A whole tick of the SLA monitor does to the server and the cluster only what an anchor that was
-- stored before it warrants.
use openstudio_server_operat.Base.{
  String, Bool, true, Option, none, some, List, [], ◌∷◌, ◌≡◌, refl, ◌&&◌, not, arith, ◌==◌,
}
use openstudio_server_operat.Base.Dict.{
  Dict, lookup, insert, erase_all, keys, has, any-insert, any-erase_all,
}
use openstudio_server_operat.Clock.{Time, minutes}
use openstudio_server_operat.Config.{OperatorConfig}
use openstudio_server_operat.Status.Merge
use openstudio_server_operat.Status.{SoftStopRecord}
use openstudio_server_operat.World.{Call, Doc, Env, World, when, ask, ◌>>=◌}
use openstudio_server_operat.World.Grows.{Grows, Grows-trans, Grows-weaken, same, more}
use openstudio_server_operat.World.Triple.{
  After, returns, After-step, After-mono, After-when, After-if, exec_call, exec_ask, exec_gets,
}
use openstudio_server_operat.World.Adds.{quiet}
use openstudio_server_operat.Store.{read, set_soft_stop, set_map_entry, write_map}
use openstudio_server_operat.Store.Cap.{merge_onto, capped_insert, evicted_keys}
use openstudio_server_operat.Store.Scalars.{exec_read}
use openstudio_server_operat.Watchdog.Hygiene.{doc_id}
use openstudio_server_operat.Sla.{status_is_started, observe, grace_and_escalate, run_sla_tick}
use openstudio_server_operat.Sla.Warrants.{allows, some_allows, walk_anchors-Adds}

module _ (env : Env) (config : OperatorConfig) (now : Time) where
  -- The second map allows no more than the first.
  abbrev Covers : Dict SoftStopRecord → Dict SoftStopRecord → Type 0
  Covers d d' = (c : Call) → some_allows config now d' c ≡ true → some_allows config now d c ≡ true

  -- A world after reads and status writes that have left no new allowance.
  record Watched (w w' : World) : Type 0 where
    pub grown : Grows quiet w.trace w'.trace
    pub covers : Covers w.status.soft_stop_map w'.status.soft_stop_map

  Watched-trans : {w w' w'' : World} → Watched w w' → Watched w' w'' → Watched w w''
  Watched-trans a b = record {
    grown = Grows-trans a.grown b.grown;
    covers = λ c h. a.covers c (b.covers c h);
  }

  -- The anchor of an analysis seen for the first time.
  abbrev first_sight : SoftStopRecord
  first_sight = record {
    issued_at = now;
    outcome = "watching";
    escalated_at = none;
    escalation_outcome = none;
  }

  -- It allows nothing at the time of its writing, whatever it is merged into.
  first_sight_is_idle :
      (id : String) (o : Option SoftStopRecord) (c : Call)
      → allows config now (id, merge_onto Merge.soft_stop_record first_sight o) c ≡ true
      → quiet c ≡ true
  unfolding minutes
  first_sight_is_idle id none c h = ground arith
  first_sight_is_idle id (some old) c h = ground arith

  insert-Covers :
      (id : String) (o : Option SoftStopRecord) (d : Dict SoftStopRecord)
      → Covers d (insert id (merge_onto Merge.soft_stop_record first_sight o) d)
  insert-Covers id o d c h = ground (
    arith,
    any-insert (λ e. allows config now e c) id (merge_onto Merge.soft_stop_record first_sight o) d,
    first_sight_is_idle id o c,
  )

  capped_insert-Covers :
      (protected : List String) (id : String) (d : Dict SoftStopRecord)
      → Covers d (capped_insert Merge.soft_stop_record protected id first_sight d)
  unfolding capped_insert
  capped_insert-Covers protected id d c h =
      let ks = evicted_keys protected (keys d) in
      ground (
        arith,
        insert-Covers id (lookup id d) d c,
        insert-Covers id (lookup id d) (erase_all ks d) c,
        any-erase_all (λ e. allows config now e c) ks d,
      )

  first_sight-Watched :
      (id : String) (w : World)
      → After (λ _ w'. Watched w w') (Watched w) (set_soft_stop env id first_sight w)
  unfolding set_soft_stop set_map_entry write_map
  first_sight-Watched id w =
      exec_read env _ _ w
        (exec_gets _ _ _ (
          After-when _ _ _
            (λ fresh.
              exec_call env _ _ _
                (returns (record {
                  grown = more _ _ refl (more _ _ refl same);
                  covers = capped_insert-Covers (w.protected _) id w.status.soft_stop_map;
                }))
                (record { grown = more _ _ refl (more _ _ refl same); covers = λ c h. h }))
            (λ old. record { grown = more _ _ refl same; covers = λ c h. h })))
        (record { grown = more _ _ refl same; covers = λ c h. h })

  status_is_started-Watched :
      (id : String) (w : World)
      → After (λ _ w'. Watched w w') (Watched w) (status_is_started env config now id w)
  unfolding status_is_started
  status_is_started-Watched id w =
      exec_ask env _ _ _ w (returns (record { grown = more _ _ refl same; covers = λ c h. h }))
        (record { grown = more _ _ refl same; covers = λ c h. h })

  observe-Watched :
      (anchors : Dict SoftStopRecord) (docs : List Doc) (w : World)
      → After (λ _ w'. Watched w w') (Watched w) (observe env config now anchors docs w)
  unfolding observe
  observe-Watched anchors [] w = returns (record { grown = same; covers = λ c h. h })
  observe-Watched anchors (doc ∷ docs) w =
      After-if (doc_id doc == "") _ _ w (λ _. observe-Watched anchors docs w)
        (λ _.
          After-step _ w (status_is_started-Watched (doc_id doc) w)
            (λ started w₁ h₁.
              After-step _ w₁ (noted started w₁)
                (λ _ w₂ h₂.
                  After-step _ w₂ (observe-Watched anchors docs w₂)
                    (λ rest w₃ h₃. returns (Watched-trans h₁ (Watched-trans h₂ h₃)))
                    (λ w₃ h₃. Watched-trans h₁ (Watched-trans h₂ h₃)))
                (λ w₂ h₂. Watched-trans h₁ h₂))
            (λ w₁ h₁. h₁))
    where
      noted :
          (started : Bool) (w₁ : World)
          → After
              (λ _ w'. Watched w₁ w')
              (Watched w₁)
              (when
                (started && not (has (doc_id doc) anchors))
                (set_soft_stop env (doc_id doc) first_sight)
                w₁)
      noted started w₁ =
          After-when _ _ w₁ (λ _. first_sight-Watched (doc_id doc) w₁)
            (λ _. record { grown = same; covers = λ c h. h })

  -- What a tick is allowed by the policy and by the anchors stored before it.
  abbrev pub tick_allows : Dict SoftStopRecord → Call → Bool
  tick_allows anchors c = config.analysis_policy.auto_soft_stop && some_allows config now anchors c

  grace_and_escalate-After :
      (started_ids : List String) (w : World)
      → After
          (λ _ w'. Grows (some_allows config now w.status.soft_stop_map) w.trace w'.trace)
          (λ w'. Grows (some_allows config now w.status.soft_stop_map) w.trace w'.trace)
          (grace_and_escalate env config now started_ids w)
  unfolding grace_and_escalate
  grace_and_escalate-After started_ids w =
      exec_read env _ _ w
        (After-mono (walk_anchors-Adds env config now started_ids w.status.soft_stop_map _)
          (λ _ w' g. Grows-trans (more _ _ refl same) g)
          (λ w' g. Grows-trans (more _ _ refl same) g))
        (more _ _ refl same)

  active :
      (w : World)
      → After
          (λ _ w'. Grows (some_allows config now w.status.soft_stop_map) w.trace w'.trace)
          (λ w'. Grows (some_allows config now w.status.soft_stop_map) w.trace w'.trace)
          ((do
            anchors ← read env (λ s. s.soft_stop_map)
            analyses ← ask env Call.list_analyses env.analyses
            started_ids ← observe env config now anchors analyses
            grace_and_escalate env config now started_ids)
            w)
  active w =
      exec_read env _ _ w
        (exec_ask env _ _ _ _
          (After-step _ _ (observe-Watched _ _ _)
            (λ ids w₁ h.
              After-mono (grace_and_escalate-After ids w₁)
                (λ _ w₂ g. Grows-trans (watched h) (Grows-weaken h.covers g))
                (λ w₂ g. Grows-trans (watched h) (Grows-weaken h.covers g)))
            (λ w₁ h. watched h))
          (more _ _ refl (more _ _ refl same)))
        (more _ _ refl same)
    where
      watched :
          {w₁ : World}
          → Watched
              (record w { trace = (Call.list_analyses, true) ∷ (Call.read_status, true) ∷ w.trace })
              w₁
          → Grows (some_allows config now w.status.soft_stop_map) w.trace w₁.trace
      watched h =
          Grows-trans (more _ _ refl (more _ _ refl same))
            (Grows-weaken (λ c q. ground arith) h.grown)

  -- Whatever the services answer or refuse, and whether the tick returns or raises: with
  -- `autoSoftStop` off it makes no call at all; in a dry run it reads and writes the status only, and
  -- no Event reaches the cluster, a marked one neither; and otherwise every soft stop, stop, pod
  -- deletion and Event is one that an anchor in the status before the tick warrants. Of the anchors that
  -- are not escalated yet, a `watching` one past `maxDurationMinutes` warrants a soft stop and
  -- no pod deletion; any other one that is past the grace warrants pod deletions with the policy's grace period, a
  -- `watching` one that is still within `maxDurationMinutes` too, and a stop if its soft stop is issued; and each of
  -- these warrants Events about its analysis. An escalated anchor warrants nothing, and neither does one that is written
  -- in this tick.
  pub run_sla_tick-tick_allows :
      (w : World)
      → After
          (λ _ w'. Grows (tick_allows w.status.soft_stop_map) w.trace w'.trace)
          (λ w'. Grows (tick_allows w.status.soft_stop_map) w.trace w'.trace)
          (run_sla_tick env config now w)
  unfolding run_sla_tick
  run_sla_tick-tick_allows w =
      After-if (not config.analysis_policy.auto_soft_stop) _ _ w (λ off. returns same)
        (λ on.
          After-mono (active w) (λ _ w' g. Grows-weaken (λ c h. ground arith) g)
            (λ w' g. Grows-weaken (λ c h. ground arith) g))
