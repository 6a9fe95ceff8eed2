-- ===== src/Retention/Cardinal.antt =====
-- The cardinal rule of the retention pipeline: unverified data is never destroyed.
use openstudio_server_operat.Base.{
  is_some, String, Bool, true, false, Option, none, some, List, ◌∷◌, ◌≡◌, ◌≢◌, ◌&&◌, ◌||◌, not,
  arith, any, ◌==◌, ◌⊎◌, inl, inr,
}
use openstudio_server_operat.Base.Dict.{Dict}
use openstudio_server_operat.Config.{OperatorConfig}
use openstudio_server_operat.Status.{ArchivedAnalysisRecord}
use openstudio_server_operat.World.{Call, Condition, Env, Trace}
use openstudio_server_operat.World.Grows.{Grows, same, more}
use openstudio_server_operat.World.Adds.{quiet}
use openstudio_server_operat.Retention.Documents.{complete, failed, job_terminal_condition}

-- A completed Job.
abbrev pub is_complete : List Condition → Bool
is_complete cs = elim (job_terminal_condition cs) [
  | none ↦ false
  | some t ↦ elim t [ complete ↦ true | failed ↦ false ]
]

-- Calls that delete no analysis.
abbrev pub keeps : Call → Bool
keeps (Call.delete_analysis _) = false
keeps _ = true

pub quiet_keeps : (c : Call) → quiet c ≡ true → keeps c ≡ true
quiet_keeps c h = ground arith

deletes_not : (c : Call) (a : String) → keeps c ≡ true → c ≢ Call.delete_analysis a
deletes_not c a h e = ground arith

-- The status held a verified record of the analysis.
abbrev pub recorded : Dict ArchivedAnalysisRecord → String → Bool
recorded tracked a = any (λ e. a == e.0 && is_some e.1.verified_at) tracked

abbrev pub is_name : String → Option String → Bool
is_name j none = false
is_name j (some name) = j == name

-- An archival Job of the analysis: the one that a record names, or the deterministic one.
abbrev pub is_job_of : (String → String) → Dict ArchivedAnalysisRecord → String → String → Bool
is_job_of job_name tracked a j =
    j == job_name a || any (λ e. a == e.0 && is_name j e.1.job_name) tracked

-- The Job has been read and found complete.
pub data Seen (env : Env) (j : String) : Trace → Type 0 where
  now :
      {t : Trace}
      → is_complete (env.job ((Call.read_job j, true) ∷ t) j) ≡ true
      → Seen env j ((Call.read_job j, true) ∷ t)
  before : {x : Call × Bool} {t : Trace} → Seen env j t → Seen env j (x ∷ t)

module _ (env : Env) (config : OperatorConfig) (job_name : String → String)
    (tracked : Dict ArchivedAnalysisRecord) where
  -- Proof of a verified archive, among what had happened by then.
  pub record Proof (a : String) (t : Trace) : Type 0 where
    pub job : String
    pub of_analysis : is_job_of job_name tracked a job ≡ true
    pub seen : Seen env job t

  abbrev pub Verified : String → Trace → Type 0
  Verified a t = (recorded tracked a ≡ true) ⊎ Proof a t

  -- What the policy must say for a deletion.
  abbrev pub may_delete : Bool
  may_delete =
      config.storage_policy.archive_to_s3
      && (config.storage_policy.purge_completed_nfs_files && not config.dry_run)

  -- Since the trace `t₀` only verified analyses have been asked to be deleted.
  pub data Lawful (t₀ : Trace) : Trace → Type 0 where
    start : Lawful t₀ t₀
    other :
        {t : Trace} (c : Call) (b : Bool)
        → ((a : String) → c ≡ Call.delete_analysis a → Verified a t × (may_delete ≡ true))
        → Lawful t₀ t
        → Lawful t₀ ((c, b) ∷ t)

  pub Lawful-Grows : {t₀ t u : Trace} → Lawful t₀ t → Grows keeps t u → Lawful t₀ u
  Lawful-Grows l same = l
  Lawful-Grows l (more c b h g) = other c b (λ a e. absurd (deletes_not c a h e)) (Lawful-Grows l g)

  Seen-Grows : {j : String} {t u : Trace} → Seen env j t → Grows keeps t u → Seen env j u
  Seen-Grows s same = s
  Seen-Grows s (more c b h g) = before (Seen-Grows s g)

  pub Verified-Grows : {a : String} {t u : Trace} → Verified a t → Grows keeps t u → Verified a u
  Verified-Grows (inl h) g = inl h
  Verified-Grows (inr p) g =
      inr (record { job = p.job; of_analysis = p.of_analysis; seen = Seen-Grows p.seen g })
