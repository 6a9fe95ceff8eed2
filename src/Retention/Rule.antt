-- ===== src/Retention/Rule.antt =====
-- The retention tick keeps the cardinal rule: its spawning phase, and the whole.
use openstudio_server_operat.Base.{
  String, Bool, true, false, Option, none, some, List, [], ◌∷◌, ◌≡◌, refl, not, arith, inr,
}
use openstudio_server_operat.Base.Dict.{Dict}
use openstudio_server_operat.Clock.{Time}
use openstudio_server_operat.Config.{OperatorConfig}
use openstudio_server_operat.Status.{ArchivedAnalysisRecord}
use openstudio_server_operat.World.{Call, Condition, Doc, Env, World, Trace}
use openstudio_server_operat.World.Grows.{same, more}
use openstudio_server_operat.World.Triple.{After, returns, After-step, After-if, exec_ask}
use openstudio_server_operat.World.Adds.{
  Adds, Adds-pure, Adds-bind, Adds-when, Adds-call, Adds-ask, Adds-throw,
}
use openstudio_server_operat.Store.Quiet.{Adds-set_archived_analysis}
use openstudio_server_operat.Store.Scalars.{exec_read}
use openstudio_server_operat.Retention.{
  payload_once, spawn, adopt, spawn_or_adopt, spawn_archival, spawn_all, run_phases,
  run_retention_tick,
}
use openstudio_server_operat.Retention.Documents.{
  Terminal, complete, failed, RetentionTickResult, has_destination,
}
use openstudio_server_operat.Retention.Cardinal.{
  is_complete, Lawful, start, keeps, quiet_keeps, Lawful-Grows,
}
use openstudio_server_operat.Retention.Verified.{
  post-Adds, read_job-After, Law, Sure, kept, verify-Law,
}
use openstudio_server_operat.Retention.Reconcile.{itself, complete_is, reconcile_all-Law}

module _ (env : Env) (config : OperatorConfig) (now : Time) (job_name : String → String) where
  payload_once-Adds :
      (payload : Option (List Doc)) → Adds keeps (payload_once env config now payload)
  unfolding payload_once
  payload_once-Adds none = Adds-ask env _ _ refl
  payload_once-Adds (some docs) = Adds-pure _

  spawn-Adds :
      (a : String) (payload : Option (List Doc))
      → Adds keeps (spawn env config now job_name a payload)
  unfolding spawn
  spawn-Adds a payload = Adds-bind _ (payload_once-Adds payload) (λ docs.
      Adds-bind _ (Adds-when _ _ (λ _. Adds-throw _)) (λ _.
        Adds-bind _ (Adds-when _ _ (λ _. Adds-call env _ refl)) (λ _.
          Adds-bind _ (Adds-set_archived_analysis env quiet_keeps a _)
            (λ _. Adds-bind _ (post-Adds env _ _ a) (λ _. Adds-pure _)))))

  module _ (tracked : Dict ArchivedAnalysisRecord) (t₀ : Trace)
      (archive : config.storage_policy.archive_to_s3 ≡ true) where
    abbrev L : World → Type 0
    L = Law env config job_name tracked t₀

    adopt-Law :
        (a : String) (payload : Option (List Doc)) (t : Option Terminal) (w : World)
        → (t ≡ some complete → Sure env config job_name tracked t₀ a w)
        → L w
        → After (λ _ w'. L w') L (adopt env config now job_name a payload t w)
    unfolding adopt
    adopt-Law a payload (some complete) w sure l =
        After-step _ w (verify-Law env config job_name tracked t₀ archive a _ w (sure refl) l)
          (λ _ w' l'. returns l') (λ w' l'. l')
    adopt-Law a payload (some failed) w sure l =
        kept env config job_name tracked t₀ _ w
          (Adds-bind _ (Adds-when _ _ (λ _. Adds-call env _ refl)) (λ _. spawn-Adds a payload)) l
    adopt-Law a payload none w sure l =
        kept env config job_name tracked t₀ _ w
          (Adds-bind _ (Adds-set_archived_analysis env quiet_keeps a _) (λ _. Adds-pure _)) l

    spawn_or_adopt-Law :
        (a : String) (payload : Option (List Doc)) (found : Option (List Condition)) (w : World)
        → ((cs : List Condition)
            → found ≡ some cs
            → is_complete cs ≡ true
            → Sure env config job_name tracked t₀ a w)
        → L w
        → After (λ _ w'. L w') L (spawn_or_adopt env config now job_name a payload found w)
    unfolding spawn_or_adopt
    spawn_or_adopt-Law a payload none w sure l =
        kept env config job_name tracked t₀ _ w (spawn-Adds a payload) l
    spawn_or_adopt-Law a payload (some cs) w sure l =
        adopt-Law a payload _ w (λ e. sure cs refl (complete_is cs e)) l

    spawn_archival-Law :
        (a : String) (payload : Option (List Doc)) (w : World)
        → L w
        → After (λ _ w'. L w') L (spawn_archival env config now job_name a payload w)
    unfolding spawn_archival
    spawn_archival-Law a payload w l =
        After-step _ w (read_job-After env (job_name a) w)
          (λ found w' g.
            spawn_or_adopt-Law a payload found w'
              (λ cs e h. inr (record {
                job = job_name a;
                of_analysis = ground (arith, itself (job_name a));
                seen = g.1 cs e h;
              }))
              (Lawful-Grows env config job_name tracked l g.0))
          (λ w' g. Lawful-Grows env config job_name tracked l g)

    spawn_all-Law :
        (due : List String) (payload : Option (List Doc)) (result : RetentionTickResult) (w : World)
        → L w
        → After (λ _ w'. L w') L (spawn_all env config now job_name due payload result w)
    unfolding spawn_all
    spawn_all-Law [] payload result w l = returns l
    spawn_all-Law (a ∷ due) payload result w l =
        After-step _ w (spawn_archival-Law a payload w l)
          (λ out w' l'. spawn_all-Law due out.1 _ w' l') (λ w' l'. l')

  module _ (w : World) where
    -- Lawful since the tick began, by the records that the status held then.
    abbrev pub LawfulSince : World → Type 0
    LawfulSince w' = Lawful env config job_name w.status.archived_map w.trace w'.trace

    run_phases-Law :
        config.storage_policy.archive_to_s3 ≡ true
        → After (λ _ w'. LawfulSince w') LawfulSince (run_phases env config now job_name w)
    unfolding run_phases
    run_phases-Law archive =
        exec_ask env _ _ _ w
          (exec_read env _ _ _
            (After-step _ _
              (reconcile_all-Law env config now job_name w.status.archived_map w.trace archive _ _ _
                _ (λ f h. h) (read_so_far true))
              (λ result w' l. spawn_all-Law w.status.archived_map w.trace archive _ _ _ w' l)
              (λ w' l. l))
            (read_so_far false))
          (Lawful-Grows env config job_name w.status.archived_map start
            (more Call.list_analyses false refl same))
      where
        read_so_far :
            (b : Bool)
            → Lawful env config job_name w.status.archived_map w.trace
                ((Call.read_status, b) ∷ (Call.list_analyses, true) ∷ w.trace)
        read_so_far b =
            Lawful-Grows env config job_name w.status.archived_map start
              (more Call.read_status b refl (more Call.list_analyses true refl same))

    -- The cardinal rule: whatever the services answer or refuse, and whether the tick returns or
    -- raises, it asks the server to delete an analysis only when `archiveToS3` and
    -- `purgeCompletedNFSFiles` are on and `dryRun` is off, and only after proof of a verified
    -- archive: the status held a verified record of that analysis when the tick began, or, earlier
    -- in the tick, an archival Job of that analysis (the one its record names, or the one of the
    -- deterministic name) was read and its conditions made it complete.
    pub run_retention_tick-Lawful :
        After (λ _ w'. LawfulSince w') LawfulSince (run_retention_tick env config now job_name w)
    unfolding run_retention_tick
    run_retention_tick-Lawful =
        After-if (not config.storage_policy.archive_to_s3) _ _ w (λ off. returns start)
          (λ on.
            After-if (not (has_destination config)) _ _ w (λ idle. returns start)
              (λ ready. run_phases-Law (ground arith)))
