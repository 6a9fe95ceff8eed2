-- ===== src/Watchdog/Budget.antt =====
-- The requeue budget: how many requeues the server has accepted for a datapoint, against the count
-- that the status holds for it.
use openstudio_server_operat.Base.{ℕ, ◌+◌, ◌≤◌, String, Bool, true, false, ◌≡◌, ap, arith, ◌==◌}
use openstudio_server_operat.Base.Dict.{Dict, lookup}
use openstudio_server_operat.Config.{OperatorConfig}
use openstudio_server_operat.Status.{RequeueRecord}
use openstudio_server_operat.World.{Call, World}
use openstudio_server_operat.World.Grows.{Grows, harmless, count_done, count_done-Grows}
use openstudio_server_operat.Watchdog.{budget_of}
use Prim.Native.Nat.{max}

-- `maxAutoRequeues`
abbrev pub limit : OperatorConfig → ℕ
limit config = config.datapoint_policy.max_auto_requeues

abbrev pub requeues_id : String → Call → Bool
requeues_id q (Call.requeue_datapoint d) = q == d
requeues_id q _ = false

-- Requeues of `q` that the server has accepted, and the count that the status holds.
abbrev pub requeued : String → World → ℕ
requeued q w = count_done (requeues_id q) w.trace

abbrev pub counted : String → World → ℕ
counted q w = budget_of q w.status.requeue_map

-- From one world to a later one: every accepted requeue is counted, but for `slack` of them, and
-- the count does not pass the limit.
pub record Within (limit slack : ℕ) (w w' : World) (q : String) : Type 0 where
  pub spent : requeued q w' + counted q w ≤ requeued q w + counted q w' + slack
  pub bounded : counted q w' ≤ max (counted q w) limit

pub Within-trans :
    {limit slack : ℕ} {w w' w'' : World} {q : String}
    → Within limit 0 w w' q
    → Within limit slack w' w'' q
    → Within limit slack w w'' q
Within-trans a b = record {
  spent = omega (arith, a.spent, b.spent);
  bounded = omega (arith, a.bounded, b.bounded);
}

harmless_is_no_requeue : (q : String) (c : Call) → harmless c ≡ true → requeues_id q c ≡ false
harmless_is_no_requeue q c h = ground arith

-- Harmless calls requeue nothing.
pub requeued-Grows :
    (q : String) (w w' : World) → Grows harmless w.trace w'.trace → requeued q w' ≡ requeued q w
requeued-Grows q w w' g = count_done-Grows (harmless_is_no_requeue q) g

-- What keeps the counts, and makes harmless calls only, stays within every limit.
pub Within-kept :
    {limit slack : ℕ} (w w' : World) (q : String)
    → Grows harmless w.trace w'.trace
    → w'.status.requeue_map ≡ w.status.requeue_map
    → Within limit slack w w' q
Within-kept w w' q g e = record {
  spent = omega (arith, requeued-Grows q w w' g, ap (budget_of q) e);
  bounded = omega (arith, ap (budget_of q) e);
}

-- The count of `q` depends on its own entry only.
pub budget_of_lem :
    (q : String) (d d' : Dict RequeueRecord)
    → lookup q d ≡ lookup q d'
    → budget_of q d ≡ budget_of q d'
unfolding budget_of
budget_of_lem q d d' e = ground arith
