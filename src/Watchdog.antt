-- ===== src/Watchdog.antt =====
-- The zombie datapoint watchdog (src/openstudio_operator/handlers/datapoint_watchdog.py).
-- Reads of `started_since` and `requeues` go to the tick's own copies, as in the source; an id
-- occurs once in a tick, so the copies' updates after a requeue are never read and are left out.
pub mod Hygiene
pub mod Budget
pub mod Rounds
pub mod Clocks
pub mod Ids
pub mod Prune
pub mod Loop
pub mod Ticks
use openstudio_server_operat.Base.{
  ℕ, ◌+◌, String, Bool, true, false, Option, none, some, List, [], ◌∷◌, ◌&&◌, not, leb, member,
  without, if◌then◌else◌, ◌==◌,
}
use openstudio_server_operat.Base.Dict.{Dict, lookup, insert, erase_all, has, keys}
use openstudio_server_operat.Clock.{Time, elapsed, minutes}
use openstudio_server_operat.Config.{OperatorConfig}
use openstudio_server_operat.Status.{RequeueRecord}
use openstudio_server_operat.World.{
  Call, Severity, Reason, Env, World, Error, M, ◌>>=◌, ◌>>◌, ⊤, pure, throw, gets, update, when,
  call, ask, for_each,
}
use openstudio_server_operat.Store.{read, set_requeue, set_started_since, clear_started_since}
use openstudio_server_operat.Emitter.{emit}
use Hygiene.{datapoint_ids, anchor_hygiene}

-- `requeues[dp_id].count if dp_id in requeues else 0`
unfoldable pub budget_of : String → Dict RequeueRecord → ℕ
budget_of dp_id requeues = elim (lookup dp_id requeues) [ none ↦ 0 | some r ↦ r.count ]

module _ (env : Env) (config : OperatorConfig) (now : Time) where
  -- The budget is spent: one Warning Event for each datapoint in the life of the process.
  unfoldable pub warn_exhausted : String → M ⊤
  warn_exhausted dp_id = do
    seen ← gets (λ w. w.exhausted_seen)
    when (not (member dp_id seen)) (do
      update (λ w. record w { exhausted_seen = dp_id ∷ w.exhausted_seen })
      emit env config Severity.warning Reason.datapoint_requeue_exhausted dp_id)

  unfoldable pub requeue : String → ℕ → M ⊤
  requeue dp_id budget = do
    when (not config.dry_run) (call env (Call.requeue_datapoint dp_id))
    emit env config Severity.normal Reason.datapoint_requeued dp_id
    set_requeue env dp_id (record { count = budget + 1; last_requeued_at = now })
    set_started_since env dp_id now

  -- A datapoint with that budget spent so far: is it over its runtime, is the budget exhausted.
  unfoldable pub judge : String → ℕ → Bool → Bool → M Bool
  judge dp_id budget false exhausted = pure false
  judge dp_id budget true true = warn_exhausted dp_id >> pure false
  judge dp_id budget true false = requeue dp_id budget >> pure true

  -- The body of the loop over the started datapoints, by the datapoint's clock: whether it was
  -- requeued.
  unfoldable pub watch_clock : ℕ → String → Option Time → M Bool
  watch_clock budget dp_id none = throw (Error.key_error dp_id)
  watch_clock budget dp_id (some since) =
      judge dp_id budget
        (elapsed now since (minutes config.datapoint_policy.max_datapoint_runtime_minutes))
        (leb config.datapoint_policy.max_auto_requeues budget)

  unfoldable pub watch_one : Dict RequeueRecord → Dict Time → String → M Bool
  watch_one requeues started_since dp_id =
      watch_clock (budget_of dp_id requeues) dp_id (lookup dp_id started_since)

  unfoldable pub watch_loop : Dict RequeueRecord → Dict Time → List String → M (List String)
  watch_loop requeues started_since [] = pure []
  watch_loop requeues started_since (dp_id ∷ ids) = do
    done ← watch_one requeues started_since dp_id
    rest ← watch_loop requeues started_since ids
    pure (if done then dp_id ∷ rest else rest)

  -- Starts the clock of a datapoint that has none: the copy with its new entry.
  unfoldable pub start_clocks : List String → Dict Time → M (Dict Time)
  start_clocks [] started_since = pure started_since
  start_clocks (dp_id ∷ ids) started_since = do
    when (not (has dp_id started_since)) (set_started_since env dp_id now)
    start_clocks ids
        (if has dp_id started_since then started_since else insert dp_id now started_since)

  -- The tick up to the hygiene pass, with the started ids that it saw.
  unfoldable pub watch : List String → M (List String)
  watch started_ids = do
    started_since ← read env (λ s. s.started_since_map)
    let departed = without started_ids (keys started_since)
    for_each departed (clear_started_since env)
    started_since ← start_clocks started_ids (erase_all departed started_since)
    requeues ← read env (λ s. s.requeue_map)
    watch_loop requeues started_since started_ids

  unfoldable pub run_watchdog_tick : M (List String)
  run_watchdog_tick = do
    docs ← ask env Call.list_started_datapoints env.started_datapoints
    let started_ids = datapoint_ids docs
    requeued ← watch started_ids
    anchor_hygiene env config started_ids
    pure requeued
