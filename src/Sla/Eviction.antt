-- ===== src/Sla/Eviction.antt =====
-- What an escalation to worker-pod eviction does and how it is accounted for.
use openstudio_server_operat.Base.{
  ℕ, ◌+◌, suc, String, Bool, true, false, Option, none, some, List, [], ◌∷◌, ◌≡◌, refl, arith,
  length, member, if◌then◌else◌,
}
use openstudio_server_operat.Config.{OperatorConfig}
use openstudio_server_operat.World.{Call, Env, World}
use openstudio_server_operat.World.Grows.{count_done}
use openstudio_server_operat.World.Triple.{After, returns, After-mono, exec_attempt, succeeded}
use openstudio_server_operat.Resque.{pod_name_for_worker}
use openstudio_server_operat.Sla.Escalation.{
  Tally, tally_one, evict_one, evict_pods, grace_seconds, match_pods, add_match,
}

abbrev pub is_pod_deletion : Call → Bool
is_pod_deletion (Call.delete_pod _ _) = true
is_pod_deletion _ = false

-- The pods that the cluster has agreed to delete.
abbrev pub pods_deleted : World → ℕ
pods_deleted w = count_done is_pod_deletion w.trace

-- From one tally and world to later ones, with `n` victims between: each victim is counted once, and
-- those counted as evicted are those whose deletion was accepted.
pub record Accounted (n : ℕ) (t : Tally) (w : World) (t' : Tally) (w' : World) : Type 0 where
  pub each : t'.evicted + t'.failed ≡ t.evicted + t.failed + n
  pub accepted : pods_deleted w' + t.evicted ≡ pods_deleted w + t'.evicted

module _ (env : Env) (config : OperatorConfig) (wet : config.dry_run ≡ false) where
  one_more :
      (pod : String) (n : ℕ) (o : Option ℕ) (t t' : Tally) (w w' : World)
      → Accounted n
          (tally_one (Call.delete_pod pod (grace_seconds config)) o t)
          (record w { trace = (Call.delete_pod pod (grace_seconds config), succeeded o) ∷ w.trace })
          t'
          w'
      → Accounted (suc n) t w t' w'
  unfolding count_done
  one_more pod n none t t' w w' h = record {
    each = omega (arith, h.each);
    accepted = omega (arith, h.accepted);
  }
  one_more pod n (some status) t t' w w' h = record {
    each = omega (arith, h.each);
    accepted = omega (arith, h.accepted);
  }

  -- Outside a dry run the eviction loop never raises, whatever the cluster refuses with an `ApiException`: each victim is
  -- tallied once, as evicted or as failed, and the evicted count has grown by exactly the number of
  -- pod deletions that the cluster accepted.
  pub evict_pods-Accounted :
      (victims : List (String × String)) (t : Tally) (w : World) {E : World → Type 0}
      → After (λ t' w'. Accounted (length victims) t w t' w') E (evict_pods env config victims t w)
  unfolding evict_pods evict_one
  evict_pods-Accounted [] t w = returns (record { each = omega arith; accepted = refl })
  evict_pods-Accounted (v ∷ victims) t w = rw wet (
      exec_attempt env _ _ w (λ o.
        After-mono (evict_pods-Accounted victims _ _)
          (λ t' w' h. one_more v.0 (length victims) o t t' w w' h) (λ w' e. e)))

-- A worker and a pod that match.
abbrev pub IsMatch : List String → List String → String × String → Type 0
IsMatch pods workers v =
    (member v.0 pods ≡ true) × ((member v.1 workers ≡ true) × (pod_name_for_worker v.1 ≡ some v.0))

pub data All {A : Type 0} (P : A → Type 0) : List A → Type 0 where
  none_left : All P []
  next : {x : A} {xs : List A} → P x → All P xs → All P (x ∷ xs)

pub All-map :
    {A : Type 0} {P Q : A → Type 0} {xs : List A} → ((x : A) → P x → Q x) → All P xs → All Q xs
All-map f none_left = none_left
All-map f (next p ps) = next (f _ p) (All-map f ps)

add_match-All :
    (pods workers : List String) (worker : String) (pod : Option String)
    (rest : List (String × String))
    → pod_name_for_worker worker ≡ pod
    → All (IsMatch pods (worker ∷ workers)) rest
    → All (IsMatch pods (worker ∷ workers)) (add_match pods worker pod rest)
unfolding add_match
add_match-All pods workers worker none rest e h = h
add_match-All pods workers worker (some pod) rest e h = picked (member pod pods) refl
  where
    picked :
        (b : Bool)
        → member pod pods ≡ b
        → All (IsMatch pods (worker ∷ workers)) (if b then (pod, worker) ∷ rest else rest)
    picked true m = next (m, (ground arith, e)) h
    picked false m = h

-- A match is one of the pods and one of the workers, and the hostname in the worker's id names the pod.
pub match_pods-All :
    (pods workers : List String) → All (IsMatch pods workers) (match_pods pods workers)
unfolding match_pods
match_pods-All pods [] = none_left
match_pods-All pods (worker ∷ workers) =
    add_match-All pods workers worker _ _ refl
      (All-map (λ v h. (h.0, (ground arith, h.1.1))) (match_pods-All pods workers))
