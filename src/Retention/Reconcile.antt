-- ===== src/Retention/Reconcile.antt =====
-- Phase A of the retention tick, over the tracked records, keeps the cardinal rule.
use openstudio_server_operat.Base.{
  is_some, String, Bool, true, false, Option, none, some, List, [], ◌∷◌, ◌≡◌, refl, ◌&&◌, not,
  arith, any, ◌==◌, inl, inr,
}
use openstudio_server_operat.Base.Dict.{Dict, has}
use openstudio_server_operat.Clock.{Time}
use openstudio_server_operat.Config.{OperatorConfig}
use openstudio_server_operat.Status.{ArchivedAnalysisRecord}
use openstudio_server_operat.World.{Condition, Doc, Env, World, Trace}
use openstudio_server_operat.World.Triple.{After, returns, After-step, After-if}
use openstudio_server_operat.World.Adds.{Adds-pure, Adds-bind}
use openstudio_server_operat.Store.Quiet.{Adds-clear_archived_analysis}
use openstudio_server_operat.Retention.{
  reconcile_condition, reconcile_job, reconcile_in_flight, reconcile_present, reconcile_tracked,
  reconcile_all,
}
use openstudio_server_operat.Retention.Documents.{
  Terminal, complete, failed, job_terminal_condition, RetentionTickResult,
}
use openstudio_server_operat.Retention.Cardinal.{
  is_complete, is_name, is_job_of, quiet_keeps, Lawful-Grows,
}
use openstudio_server_operat.Retention.Verified.{
  fail_archival-Adds, read_job-After, Law, Sure, kept, delete_verified-Law, verify-Law,
}

pub itself : (s : String) → (s == s) ≡ true
itself s = ground arith

pub complete_is :
    (cs : List Condition) → job_terminal_condition cs ≡ some complete → is_complete cs ≡ true
complete_is cs e = rw (is_complete, e) refl

module _ (env : Env) (config : OperatorConfig) (now : Time) (job_name : String → String) where
  module _ (tracked : Dict ArchivedAnalysisRecord) (t₀ : Trace)
      (archive : config.storage_policy.archive_to_s3 ≡ true) where
    abbrev L : World → Type 0
    L = Law env config job_name tracked t₀

    -- The entry is one of the tracked ones.
    abbrev Held : String → ArchivedAnalysisRecord → Type 0
    Held a r = (f : String × ArchivedAnalysisRecord → Bool) → f (a, r) ≡ true → any f tracked ≡ true

    reconcile_condition-Law :
        (a : String) (r : ArchivedAnalysisRecord) (t : Option Terminal) (w : World)
        → (t ≡ some complete → Sure env config job_name tracked t₀ a w)
        → L w
        → After (λ _ w'. L w') L (reconcile_condition env config now a r t w)
    unfolding reconcile_condition
    reconcile_condition-Law a r none w sure l = returns l
    reconcile_condition-Law a r (some failed) w sure l =
        kept env config job_name tracked t₀ _ w
          (Adds-bind _ (fail_archival-Adds env a) (λ _. Adds-pure _)) l
    reconcile_condition-Law a r (some complete) w sure l =
        verify-Law env config job_name tracked t₀ archive a _ w (sure refl) l

    reconcile_job-Law :
        (a : String) (r : ArchivedAnalysisRecord) (found : Option (List Condition)) (w : World)
        → ((cs : List Condition)
            → found ≡ some cs
            → is_complete cs ≡ true
            → Sure env config job_name tracked t₀ a w)
        → L w
        → After (λ _ w'. L w') L (reconcile_job env config now a r found w)
    unfolding reconcile_job
    reconcile_job-Law a r none w sure l =
        kept env config job_name tracked t₀ _ w
          (Adds-bind _ (fail_archival-Adds env a) (λ _. Adds-pure _)) l
    reconcile_job-Law a r (some cs) w sure l =
        reconcile_condition-Law a r _ w (λ e. sure cs refl (complete_is cs e)) l

    reconcile_in_flight-Law :
        (a : String) (r : ArchivedAnalysisRecord) (name : Option String) (w : World)
        → ((j : String) → name ≡ some j → is_job_of job_name tracked a j ≡ true)
        → L w
        → After (λ _ w'. L w') L (reconcile_in_flight env config now a r name w)
    unfolding reconcile_in_flight
    reconcile_in_flight-Law a r none w named l =
        After-if config.dry_run _ _ w (λ _. returns l)
          (λ _.
            kept env config job_name tracked t₀ _ w
              (Adds-bind _ (Adds-clear_archived_analysis env quiet_keeps a) (λ _. Adds-pure _)) l)
    reconcile_in_flight-Law a r (some j) w named l =
        After-step _ w (read_job-After env j w)
          (λ found w' g.
            reconcile_job-Law a r found w'
              (λ cs e h. inr (record { job = j; of_analysis = named j refl; seen = g.1 cs e h }))
              (Lawful-Grows env config job_name tracked l g.0))
          (λ w' g. Lawful-Grows env config job_name tracked l g)

    reconcile_tracked-Law :
        (completed : Dict Doc) (a : String) (r : ArchivedAnalysisRecord) (w : World)
        → Held a r
        → L w
        → After (λ _ w'. L w') L (reconcile_tracked env config now completed a r w)
    unfolding reconcile_tracked reconcile_present
    reconcile_tracked-Law completed a r w held l =
        After-if (not (has a completed)) _ _ w
          (λ _.
            kept env config job_name tracked t₀ _ w
              (Adds-bind _ (Adds-clear_archived_analysis env quiet_keeps a) (λ _. Adds-pure _)) l)
          (λ _. present r.verified_at refl)
      where
        present :
            (at : Option Time)
            → r.verified_at ≡ at
            → After (λ _ w'. L w') L (reconcile_present env config now a r at w)
        present (some t) e =
            After-step _ w
              (delete_verified-Law env config job_name tracked t₀ archive a false w
                (inl (held (λ e. a == e.0 && is_some e.1.verified_at) (ground (arith, itself a))))
                l)
              (λ _ w' l'. returns l') (λ w' l'. l')
        present none e =
            reconcile_in_flight-Law a r r.job_name w
              (λ j e.
                ground (arith, held (λ e. a == e.0 && is_name j e.1.job_name), itself a, itself j))
              l

    pub reconcile_all-Law :
        (completed : Dict Doc) (entries : Dict ArchivedAnalysisRecord)
        (result : RetentionTickResult) (w : World)
        → ((f : String × ArchivedAnalysisRecord → Bool)
            → any f entries ≡ true
            → any f tracked ≡ true)
        → L w
        → After (λ _ w'. L w') L (reconcile_all env config now completed entries result w)
    unfolding reconcile_all
    reconcile_all-Law completed [] result w held l = returns l
    reconcile_all-Law completed (e ∷ entries) result w held l =
        After-step _ w (reconcile_tracked-Law completed e.0 e.1 w (λ f h. held f (ground arith)) l)
          (λ progress w' l'.
            reconcile_all-Law completed entries _ w' (λ f h. held f (ground arith)) l')
          (λ w' l'. l')
