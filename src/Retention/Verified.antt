-- ===== src/Retention/Verified.antt =====
-- The steps of the retention tick that verify and delete keep the cardinal rule.
use openstudio_server_operat.Base.{
  ℕ, String, Bool, true, false, Option, none, some, List, ◌∷◌, ◌≡◌, ◌≢◌, refl, sym, ◌&&◌, not,
  arith, leb,
}
use mathlib.Core.Path.{subst}
use openstudio_server_operat.Base.Dict.{Dict}
use openstudio_server_operat.Config.{OperatorConfig}
use openstudio_server_operat.Status.{ArchivedAnalysisRecord}
use openstudio_server_operat.World.{Call, Severity, Reason, Condition, Env, World, Trace, M}
use openstudio_server_operat.World.Grows.{Grows, Grows-trans, same, more}
use openstudio_server_operat.World.Triple.{
  After, returns, raises, After-step, After-mono, After-if, exec_attempt, exec_call, succeeded,
}
use openstudio_server_operat.World.Adds.{Adds, Adds-pure, Adds-bind, Adds-when, Adds-attempt}
use openstudio_server_operat.Store.Quiet.{Adds-set_archived_analysis, Adds-clear_archived_analysis}
use openstudio_server_operat.Retention.{
  post, job_if_found, read_job, fail_archival, delete_verified, verify,
}
use openstudio_server_operat.Retention.Cardinal.{
  is_complete, Seen, now, Verified, Lawful, other, keeps, quiet_keeps, Lawful-Grows, Verified-Grows,
}

some_inj : {A : Type 0} {a b : A} → some a ≡ some b → a ≡ b
some_inj e = cc

none_is_not : {A : Type 0} (a : A) → none ≢ some a
none_is_not a e = cc

delete_inj : {a b : String} → Call.delete_analysis a ≡ Call.delete_analysis b → a ≡ b
delete_inj e = cc

module _ (env : Env) where
  pub post-Adds : (s : Severity) (m : Reason) (a : String) → Adds keeps (post env s m a)
  unfolding post
  post-Adds s m a = Adds-bind _ (Adds-attempt env _ refl) (λ _. Adds-pure _)

  pub fail_archival-Adds : (a : String) → Adds keeps (fail_archival env a)
  unfolding fail_archival
  fail_archival-Adds a =
      Adds-bind _ (post-Adds _ _ a) (λ _. Adds-clear_archived_analysis env quiet_keeps a)

  -- What a Job that is read and found complete proves.
  abbrev pub Shows : String → Option (List Condition) → Trace → Type 0
  Shows j found t = (cs : List Condition) → found ≡ some cs → is_complete cs ≡ true → Seen env j t

  job_if_found-After :
      (j : String) (w : World) (o : Option ℕ)
      → After
          (λ found w'. Grows keeps w.trace w'.trace × Shows j found w'.trace)
          (λ w'. Grows keeps w.trace w'.trace)
          (job_if_found env j o (record w { trace = (Call.read_job j, succeeded o) ∷ w.trace }))
  unfolding job_if_found
  job_if_found-After j w none =
      returns
        (more _ _ refl same, λ cs e h. now (subst (λ c. is_complete c ≡ true) (sym (some_inj e)) h))
  job_if_found-After j w (some status) =
      After-if (leb status 404 && leb 404 status) _ _ _
        (λ _. returns (more _ _ refl same, λ cs e h. absurd (none_is_not cs e)))
        (λ _. raises (more _ _ refl same))

  pub read_job-After :
      (j : String) (w : World)
      → After
          (λ found w'. Grows keeps w.trace w'.trace × Shows j found w'.trace)
          (λ w'. Grows keeps w.trace w'.trace)
          (read_job env j w)
  unfolding read_job
  read_job-After j w = exec_attempt env (Call.read_job j) _ w (job_if_found-After j w)

  module _ (config : OperatorConfig) (job_name : String → String)
      (tracked : Dict ArchivedAnalysisRecord) (t₀ : Trace) where
    abbrev pub Law : World → Type 0
    Law w = Lawful env config job_name tracked t₀ w.trace

    abbrev pub Sure : String → World → Type 0
    Sure a w = Verified env config job_name tracked a w.trace

    -- An action that deletes nothing.
    pub kept :
        {A : Type 0} (m : M A) (w : World) → Adds keeps m → Law w → After (λ _ w'. Law w') Law (m w)
    kept m w h l =
        After-mono (h w) (λ _ w' g. Lawful-Grows env config job_name tracked l g)
          (λ w' g. Lawful-Grows env config job_name tracked l g)

    module _ (archive : config.storage_policy.archive_to_s3 ≡ true) where
      pub delete_verified-Law :
          (a : String) (just : Bool) (w : World)
          → Sure a w
          → Law w
          → After (λ _ w'. Law w') Law (delete_verified env config a just w)
      unfolding delete_verified
      delete_verified-Law a just w sure l =
          After-if (not config.storage_policy.purge_completed_nfs_files) _ _ w (λ _. returns l)
            (λ purge.
              After-if config.dry_run _ _ w
                (λ dry.
                  kept _ w (Adds-bind _ (Adds-when _ _ (λ _. post-Adds _ _ a)) (λ _. Adds-pure _))
                    l)
                (λ wet.
                  exec_call env (Call.delete_analysis a) _ w
                    (kept _ _
                      (Adds-bind _ (post-Adds _ _ a) (λ _.
                        Adds-bind _ (Adds-clear_archived_analysis env quiet_keeps a)
                          (λ _. Adds-pure _)))
                      (asked true purge wet))
                    (asked false purge wet)))
        where
          asked :
              (b : Bool)
              → not config.storage_policy.purge_completed_nfs_files ≡ false
              → config.dry_run ≡ false
              → Lawful env config job_name tracked t₀ ((Call.delete_analysis a, b) ∷ w.trace)
          asked b purge wet =
              other _ b
                (λ a' e. (
                  subst (λ x. Verified env config job_name tracked x w.trace) (delete_inj e) sure,
                  ground arith,
                ))
                l

      pub verify-Law :
          (a : String) (r : ArchivedAnalysisRecord) (w : World)
          → Sure a w
          → Law w
          → After (λ _ w'. Law w') Law (verify env config a r w)
      unfolding verify
      verify-Law a r w sure l =
          After-step _ w (Adds-set_archived_analysis env quiet_keeps a r w)
            (λ _ w₁ g₁.
              After-step _ w₁ (post-Adds _ _ a w₁)
                (λ _ w₂ g₂.
                  After-step _ w₂
                    (delete_verified-Law a true w₂
                      (Verified-Grows env config job_name tracked sure (Grows-trans g₁ g₂))
                      (Lawful-Grows env config job_name tracked l (Grows-trans g₁ g₂)))
                    (λ _ w₃ l₃. returns l₃) (λ w₃ l₃. l₃))
                (λ w₂ g₂. Lawful-Grows env config job_name tracked l (Grows-trans g₁ g₂)))
            (λ w₁ g₁. Lawful-Grows env config job_name tracked l g₁)
