-- ===== src/Sla/Matches.antt =====
-- Which pods `_resque_matched_worker_pods` of src/openstudio_operator/handlers/analysis_sla.py picks for an eviction.
use openstudio_server_operat.Base.{
  String, Bool, true, false, none, some, List, [], ◌∷◌, ◌≡◌, refl, sym, ap, ◌∙◌, arith, not, member,
  keep, if◌then◌else◌, ◌==◌, same_text, text_self,
}
use mathlib.Core.Path.{subst}
use openstudio_server_operat.World.{Call, Env, World, Trace, WorkerRecord}
use openstudio_server_operat.World.Triple.{After, returns, raises, After-step, exec_ask}
use openstudio_server_operat.Resque.{
  pod_name_for_worker, record_matches, matching_workers, workers_for_analysis,
}
use openstudio_server_operat.Sla.Escalation.{match_pods, match_workers, resque_matched_worker_pods}
use openstudio_server_operat.Sla.Eviction.{All, none_left, next, All-map, IsMatch, match_pods-All}

-- One trace continues another.
pub data Later (t : Trace) : Trace → Type 0 where
  now : Later t t
  then_call : {c : Call × Bool} {u : Trace} → Later t u → Later t (c ∷ u)

Later-tail : {c : Call × Bool} {t u : Trace} → Later (c ∷ t) u → Later t u
Later-tail now = then_call now
Later-tail (then_call h) = then_call (Later-tail h)

Later-trans : {t u v : Trace} → Later t u → Later u v → Later t v
Later-trans a now = a
Later-trans a (then_call h) = then_call (Later-trans a h)

All-member :
    (P : String → Type 0) (xs : List String) (x : String) → All P xs → member x xs ≡ true → P x
All-member P [] x h m = cc
All-member P (y ∷ ys) x (next p ps) m = split (x == y) refl (λ h. All-member P ys x ps h) m
  where
    split :
        (b : Bool)
        → (x == y) ≡ b
        → (member x ys ≡ true → P x)
        → (if b then true else member x ys) ≡ true
        → P x
    split true e rest h = subst P (sym (same_text x y e)) p
    split false e rest h = rest h

member-keep :
    (f : String → Bool) (x : String) (ys : List String)
    → member x (keep f ys) ≡ true
    → (member x ys ≡ true) × (f x ≡ true)
member-keep f x [] m = cc
member-keep f x (y ∷ ys) m = split (x == y) refl (f y) refl (λ h. member-keep f x ys h) m
  where
    split :
        (b : Bool)
        → (x == y) ≡ b
        → (c : Bool) → f y ≡ c
        → (member x (keep f ys) ≡ true → (member x ys ≡ true) × (f x ≡ true))
        → member x (if c then y ∷ keep f ys else keep f ys) ≡ true
        → ((if b then true else member x ys) ≡ true) × (f x ≡ true)
    split true e true g rest h = (refl, ap f (same_text x y e) ∙ g)
    split true e false g rest h = (refl, (rest h).1)
    split false e true g rest h = rest (rw e at h)
    split false e false g rest h = rest h

module _ (env : Env) (analysis_id : String) where
  -- A worker's record that has been read between two worlds names the analysis among its job's arguments.
  abbrev pub Processes : World → World → String → Type 0
  Processes w w' worker =
      (t : Trace) × (args : List String) × Later w.trace t
      × Later ((Call.get_worker worker, true) ∷ t) w'.trace
      × (env.worker_record ((Call.get_worker worker, true) ∷ t) worker
          ≡ WorkerRecord.job (some args))
      × (member analysis_id args ≡ true)

  abbrev Found : WorkerRecord → Bool → Type 0
  Found r b =
      b ≡ true
      → (args : List String) × (r ≡ WorkerRecord.job (some args)) × (member analysis_id args ≡ true)

  record_matches-Found :
      (r : WorkerRecord) (w : World)
      → After (λ b w'. (w' ≡ w) × Found r b) (λ _. Unit) (record_matches env analysis_id r w)
  unfolding record_matches
  record_matches-Found WorkerRecord.idle w = returns (refl, λ e. cc)
  record_matches-Found WorkerRecord.garbage w = raises tt
  record_matches-Found (WorkerRecord.job none) w = returns (refl, λ e. cc)
  record_matches-Found (WorkerRecord.job (some args)) w = returns (refl, λ e. (args, refl, e))

  -- What is known of the workers that are found among the registered ones.
  abbrev Known : List String → World → World → List String → Type 0
  Known ids w w' found =
      Later w.trace w'.trace × All (λ v. (member v ids ≡ true) × Processes w w' v) found

  matching_workers-Known :
      (ids : List String) (w : World)
      → After
          (λ found w'. Known ids w w' found)
          (λ _. Unit)
          (matching_workers env analysis_id ids w)
  unfolding matching_workers
  matching_workers-Known [] w = returns (now, none_left)
  matching_workers-Known (id ∷ ids) w =
      exec_ask env _ _ _ w
        (After-step _ _ (record_matches-Found _ _)
          (λ b w₁ h.
            After-step _ w₁ (matching_workers-Known ids w₁)
              (λ found w₂ k. returns (grown b w₁ w₂ found h k)) (λ w₂ e. tt))
          (λ w₁ e. tt))
        tt
    where
      asked : World
      asked = record w { trace = (Call.get_worker id, true) ∷ w.trace }

      grown :
          (b : Bool) (w₁ w₂ : World) (found : List String)
          → (w₁ ≡ asked) × Found (env.worker_record asked.trace id) b
          → Known ids w₁ w₂ found
          → Known (id ∷ ids) w w₂ (if b then id ∷ found else found)
      grown b w₁ w₂ found (e, f) (l, all) = (Later-tail onward, split b f)
        where
          onward : Later asked.trace w₂.trace
          onward = subst (λ (v : World). Later v.trace w₂.trace) e l

          older : (v : String) → Processes w₁ w₂ v → Processes w w₂ v
          older v (t, args, a, read, r, m) =
              (t, args, Later-tail (subst (λ (u : World). Later u.trace t) e a), read, r, m)

          others : All (λ v. (member v (id ∷ ids) ≡ true) × Processes w w₂ v) found
          others = All-map (λ v h. (ground (arith, h.0), older v h.1)) all

          split :
              (b : Bool)
              → Found (env.worker_record asked.trace id) b
              → All
                  (λ v. (member v (id ∷ ids) ≡ true) × Processes w w₂ v)
                  (if b then id ∷ found else found)
          split true f =
              let (args, r, m) = f refl in
              next (rw (text_self id) refl, (w.trace, args, now, onward, r, m)) others
          split false f = others

  -- What makes a pod a victim: it is one of the namespace's, and the id of a worker that is registered and processes
  -- the analysis names it.
  abbrev pub Victim : World → World → String × String → Type 0
  Victim w w' v =
      (member v.0 (env.pods w'.trace) ≡ true)
      × ((v.0 == "") ≡ false)
      × (pod_name_for_worker v.1 ≡ some v.0)
      × (member v.1 (env.workers ((Call.list_workers, true) ∷ w.trace)) ≡ true)
      × Processes w w' v.1

  listed : World → World
  listed w = record w { trace = (Call.list_workers, true) ∷ w.trace }

  match_workers-Victim :
      (w w₁ : World) (workers : List String)
      → Known (env.workers (listed w).trace) (listed w) w₁ workers
      → After (λ victims w'. All (Victim w w') victims) (λ _. Unit) (match_workers env workers w₁)
  unfolding match_workers match_pods listed
  match_workers-Victim w w₁ [] k = returns none_left
  match_workers-Victim w w₁ (id ∷ ids) k =
      exec_ask env _ _ _ w₁
        (returns (
          All-map (λ v m. victim v m)
            (match_pods-All (keep (λ p. not (p == "")) (env.pods here)) (id ∷ ids))))
        tt
    where
      here : Trace
      here = (Call.list_pods, true) ∷ w₁.trace

      victim :
          (v : String × String)
          → IsMatch (keep (λ p. not (p == "")) (env.pods here)) (id ∷ ids) v
          → Victim w (record w₁ { trace = here }) v
      victim v (in_pods, (in_workers, named)) =
          let (pod, full) = member-keep (λ p. not (p == "")) v.0 (env.pods here) in_pods in
          let (known, found) = All-member _ (id ∷ ids) v.1 k.1 in_workers in
          let (t, args, a, read, r, m) = found in
          (pod, ground arith, named, known, (t, args, Later-tail a, then_call read, r, m))

  -- Whatever the services answer: a pod is picked for an eviction only if the list of the namespace's pods has it and
  -- the id of a worker names it, a worker that is in Resque's registry and whose record, as it is read by this call,
  -- has the analysis among its job's arguments.
  pub resque_matched_worker_pods-Victim :
      (w : World)
      → After
          (λ victims w'. All (Victim w w') victims)
          (λ _. Unit)
          (resque_matched_worker_pods env analysis_id w)
  unfolding resque_matched_worker_pods workers_for_analysis listed
  resque_matched_worker_pods-Victim w =
      After-step _ w (exec_ask env _ _ _ w (matching_workers-Known _ _) tt)
        (λ workers w₁ k. match_workers-Victim w w₁ workers k) (λ w₁ e. tt)
