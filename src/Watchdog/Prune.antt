-- ===== src/Watchdog/Prune.antt =====
-- The hygiene pass never drops the count of a datapoint that the server still lists.
use openstudio_server_operat.Base.{
  String, Bool, true, false, List, ◌≡◌, refl, ap, ◌∙◌, arith, member, without, member-append_left,
  member-without,
}
use openstudio_server_operat.Base.Dict.{lookup, lookup-erase_all, keys}
use openstudio_server_operat.Config.{OperatorConfig}
use openstudio_server_operat.World.{Call, Severity, Reason, Env, World, Trace}
use openstudio_server_operat.World.Grows.{Grows, Grows-trans, same, more, harmless}
use openstudio_server_operat.World.Triple.{
  After, returns, After-step, After-when, After-mono, exec_call, exec_ask, exec_gets, exec_update,
}
use openstudio_server_operat.Store.{prune, pruned, dead_keys, protect_anchor_keys}
use openstudio_server_operat.Store.Scalars.{exec_read}
use openstudio_server_operat.Emitter.{emit-After}
use openstudio_server_operat.Watchdog.Hygiene.{
  datapoint_ids, member-union_right, check_anchors, anchor_hygiene, run_anchor_hygiene,
  prune_confirmed,
}

-- The count of `q` is the same, and nothing but harmless calls was made.
pub record KeepsCount (q : String) (w w' : World) : Type 0 where
  pub count : lookup q w'.status.requeue_map ≡ lookup q w.status.requeue_map
  pub grown : Grows harmless w.trace w'.trace

-- A live id's entry survives.
pub lookup-pruned_live :
    (q : String) (live_analyses live_datapoints : List String) (w : World)
    → member q live_datapoints ≡ true
    → lookup q (pruned live_analyses live_datapoints w.status).requeue_map
      ≡ lookup q w.status.requeue_map
unfolding pruned dead_keys
lookup-pruned_live q live_analyses live_datapoints w m = ground (
  arith,
  lookup-erase_all q (without live_datapoints (keys w.status.requeue_map)) w.status.requeue_map,
  member-without q live_datapoints (keys w.status.requeue_map),
)

module _ (env : Env) (q : String) where
  prune-KeepsCount :
      (live_analyses live_datapoints : List String) (w : World)
      → member q live_datapoints ≡ true
      → After
          (λ _ w'. KeepsCount q w w')
          (KeepsCount q w)
          (prune env live_analyses live_datapoints w)
  unfolding prune
  prune-KeepsCount live_analyses live_datapoints w m =
      exec_read env _ _ w
        (After-step _ _
          (After-when {P = λ _ w'. KeepsCount q w w'} _ _ _
            (λ some_dead.
              exec_call env Call.patch_prune _ _
                (returns (record {
                  count = lookup-pruned_live q live_analyses live_datapoints w m;
                  grown = more _ _ refl (more _ _ refl same);
                }))
                (record { count = refl; grown = more _ _ refl (more _ _ refl same) }))
            (λ none_dead. record { count = refl; grown = more _ _ refl same }))
          (λ _ w' k. returns k) (λ w' k. k))
        (record { count = refl; grown = more _ _ refl same })

  prune_confirmed-KeepsCount :
      (config : OperatorConfig) (live_datapoints live_analyses : List String) (w : World)
      → member q live_datapoints ≡ true
      → After
          (λ _ w'. KeepsCount q w w')
          (KeepsCount q w)
          (prune_confirmed env config live_datapoints live_analyses w)
  unfolding prune_confirmed protect_anchor_keys
  prune_confirmed-KeepsCount config live_datapoints live_analyses w m = exec_gets _ _ w (
      exec_update _ _ _ (
        exec_update _ _ _ (
          exec_update _ _ _ (
            exec_update _ _ _ (
              After-when _ _ _
                (λ gone.
                  After-step _ _ (prune-KeepsCount _ _ _ (member-append_left q live_datapoints _ m))
                    (λ any_dead w' k. exec_update _ _ w' (
                      After-when _ _ _
                        (λ _.
                          After-mono
                            (emit-After env config Severity.normal Reason.status_anchors_pruned ""
                              _)
                            (λ _ w'' u. record {
                              count =
                                  ap (λ (v : World). lookup q v.status.requeue_map) u.rest
                                  ∙ k.count;
                              grown = Grows-trans k.grown u.grown;
                            })
                            (λ w'' u. record {
                              count =
                                  ap (λ (v : World). lookup q v.status.requeue_map) u.rest
                                  ∙ k.count;
                              grown = Grows-trans k.grown u.grown;
                            }))
                        (λ _. record { count = k.count; grown = k.grown })))
                    (λ w' k. record { count = k.count; grown = k.grown }))
                (λ kept. record { count = refl; grown = same }))))))

  -- The server's heavy listing shows the datapoint, whenever it is asked.
  abbrev pub Listed : Type 0
  Listed = (t : Trace) → member q (datapoint_ids (env.datapoints t)) ≡ true

  check_anchors-KeepsCount :
      (config : OperatorConfig) (tracked tracked' started_ids : List String) (b : Bool) (w : World)
      → Listed
      → After
          (λ _ w'. KeepsCount q w w')
          (KeepsCount q w)
          (check_anchors env config tracked tracked' started_ids b w)
  unfolding check_anchors
  check_anchors-KeepsCount config tracked tracked' started_ids false w listed =
      returns (record { count = refl; grown = same })
  check_anchors-KeepsCount config tracked tracked' started_ids true w listed =
      exec_ask env _ _ _ w
        (exec_ask env _ _ _ _
          (exec_update _ _ _ (
            After-mono
              (prune_confirmed-KeepsCount config _ _ _
                (member-union_right q started_ids _ (listed _)))
              (λ _ w' k. record {
                count = k.count;
                grown = Grows-trans (more _ _ refl (more _ _ refl same)) k.grown;
              })
              (λ w' k. record {
                count = k.count;
                grown = Grows-trans (more _ _ refl (more _ _ refl same)) k.grown;
              })))
          (record { count = refl; grown = more _ _ refl (more _ _ refl same) }))
        (record { count = refl; grown = more _ _ refl same })

  -- However many confirmations it has gathered and whatever the server refuses, a hygiene pass never
  -- drops or changes the requeue count of a datapoint that the server's full listing always shows,
  -- and it makes no call that changes the server or the cluster.
  pub anchor_hygiene-KeepsCount :
      (config : OperatorConfig) (started_ids : List String) (w : World)
      → Listed
      → After (λ _ w'. KeepsCount q w w') (KeepsCount q w) (anchor_hygiene env config started_ids w)
  unfolding anchor_hygiene run_anchor_hygiene
  anchor_hygiene-KeepsCount config started_ids w listed = exec_update _ _ w (
      exec_gets _ _ _ (
        After-when _ _ _
          (λ tenth.
            exec_read env _ _ _
              (exec_read env _ _ _
                (exec_read env _ _ _
                  (After-mono (check_anchors-KeepsCount config _ _ started_ids _ _ listed)
                    (λ _ w' k. record {
                      count = k.count;
                      grown =
                          Grows-trans (more _ _ refl (more _ _ refl (more _ _ refl same))) k.grown;
                    })
                    (λ w' k. record {
                      count = k.count;
                      grown =
                          Grows-trans (more _ _ refl (more _ _ refl (more _ _ refl same))) k.grown;
                    }))
                  (record {
                    count = refl;
                    grown = more _ _ refl (more _ _ refl (more _ _ refl same));
                  }))
                (record { count = refl; grown = more _ _ refl (more _ _ refl same) }))
              (record { count = refl; grown = more _ _ refl same }))
          (λ other. record { count = refl; grown = same })))
