-- ===== src/World/Adds.antt =====
-- Which calls an action adds to the trace, whether it returns or raises: rules by the shape of the
-- action.
use openstudio_server_operat.Base.{
  Bool, true, false, Option, none, some, ◌∷◌, ◌≡◌, refl, if◌then◌else◌, ℕ,
}
use openstudio_server_operat.World.{
  Call, Env, World, Trace, Error, Outcome, ok, M, ◌>>=◌, ⊤, pure, throw, gets, when, call, ask,
  attempt, on_raise, ignoring,
}
use openstudio_server_operat.World.Grows.{Grows, Grows-trans, Grows-weaken, same, more}
use openstudio_server_operat.World.Triple.{
  After, returns, raises, After-step, After-call, After-ask, After-mono, After-on_raise,
  After-ignoring,
}

-- Calls that only read, or that write the custom resource's status.
abbrev pub quiet : Call → Bool
quiet Call.list_analyses = true
quiet Call.list_datapoints = true
quiet Call.list_started_datapoints = true
quiet (Call.get_analysis_status _) = true
quiet Call.read_status = true
quiet (Call.patch_entry _ _) = true
quiet Call.patch_last_recycle_at = true
quiet Call.patch_prune = true
quiet Call.patch_web_background_restart_at = true
quiet Call.patch_stall_window = true
quiet Call.patch_ineffective_restarts = true
quiet Call.read_heartbeats = true
quiet (Call.read_queue_depth _) = true
quiet (Call.read_deployment _) = true
quiet (Call.list_pods_of _) = true
quiet Call.list_pods = true
quiet (Call.read_job _) = true
quiet Call.list_workers = true
quiet (Call.get_worker _) = true
quiet _ = false

-- The action adds calls that pass the test only.
abbrev pub Adds : (Call → Bool) → {A : Type 0} → M A → Type 0
Adds p m =
    (w : World) → After (λ _ w'. Grows p w.trace w'.trace) (λ w'. Grows p w.trace w'.trace) (m w)

module _ {p : Call → Bool} where
  pub Adds-pure : {A : Type 0} (a : A) → Adds p (pure a)
  Adds-pure a w = returns same

  pub Adds-throw : {A : Type 0} (e : Error) → Adds p {A = A} (throw e)
  Adds-throw e w = raises same

  pub Adds-gets : {A : Type 0} (f : World → A) → Adds p (gets f)
  Adds-gets f w = returns same

  pub Adds-bind :
      {A B : Type 0} (m : M A) {f : A → M B}
      → Adds p m
      → ((a : A) → Adds p (f a))
      → Adds p (m >>= f)
  Adds-bind m h k w =
      After-step m w (h w)
        (λ a w' g. After-mono (k a w') (λ _ _ g'. Grows-trans g g') (λ _ g'. Grows-trans g g'))
        (λ w' g. g)

  pub Adds-if :
      {A : Type 0} (b : Bool) {m n : M A}
      → (b ≡ true → Adds p m)
      → (b ≡ false → Adds p n)
      → Adds p (if b then m else n)
  Adds-if true f g = f refl
  Adds-if false f g = g refl

  pub Adds-when : (b : Bool) (m : M ⊤) → (b ≡ true → Adds p m) → Adds p (when b m)
  unfolding when
  Adds-when true m f w = f refl w
  Adds-when false m f w = returns same

  pub Adds-on_raise :
      {A : Type 0} (m : M A) (handler : M ⊤)
      → Adds p m
      → Adds p handler
      → Adds p (on_raise m handler)
  Adds-on_raise m handler h k w =
      After-on_raise m handler w (h w)
        (λ w' g. After-mono (k w') (λ _ _ g'. Grows-trans g g') (λ _ g'. Grows-trans g g'))

  pub Adds-ignoring : (m : M ⊤) → Adds p m → Adds p (ignoring m)
  Adds-ignoring m h w = After-ignoring m w (h w)

  pub Adds-weaken :
      {q : Call → Bool} {A : Type 0} (m : M A)
      → ((c : Call) → p c ≡ true → q c ≡ true)
      → Adds p m
      → Adds q m
  Adds-weaken m f h w = After-mono (h w) (λ _ _ g. Grows-weaken f g) (λ _ g. Grows-weaken f g)

module _ {p : Call → Bool} (env : Env) where
  pub Adds-call : (c : Call) → p c ≡ true → Adds p (call env c)
  Adds-call c h w =
      After-mono (After-call env c w) (λ _ w' e. rw e (more c true h same))
        (λ w' e. rw e (more c false h same))

  pub Adds-ask : {A : Type 0} (c : Call) (f : Trace → A) → p c ≡ true → Adds p (ask env c f)
  Adds-ask c f h w =
      After-mono (After-ask env c f w) (λ _ w' e. rw e.1 (more c true h same))
        (λ w' e. rw e (more c false h same))

  pub Adds-attempt : (c : Call) → p c ≡ true → Adds p (attempt env c)
  unfolding attempt
  Adds-attempt c h w = settled (env.refuses w.trace c)
    where
      settled :
          (o : Option ℕ)
          → After
              (λ _ w'. Grows p w.trace w'.trace)
              (λ w'. Grows p w.trace w'.trace)
              (elim o as (λ _. Outcome (Option ℕ) × World) [
                | none ↦ (ok none, record w { trace = (c, true) ∷ w.trace })
                | some code ↦ (ok (some code), record w { trace = (c, false) ∷ w.trace })
              ])
      settled none = returns (more c true h same)
      settled (some code) = returns (more c false h same)
