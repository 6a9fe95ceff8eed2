-- ===== src/Recycler.antt =====
-- The gated worker recycler (src/openstudio_operator/handlers/worker_recycler.py).
pub mod Gate
pub mod Runs
use openstudio_server_operat.Base.{
  String, Bool, true, false, Option, none, some, List, ◌&&◌, not, any, if◌then◌else◌, ◌==◌,
}
use openstudio_server_operat.Clock.{Time, elapsed, minutes, hours}
use openstudio_server_operat.Config.{OperatorConfig}
use openstudio_server_operat.World.{
  Call, Severity, Reason, Doc, Env, World, M, ◌>>=◌, ◌>>◌, ⊤, pure, gets, when, call, ask,
}
use openstudio_server_operat.Store.{read, set_last_recycle_at}
use openstudio_server_operat.Emitter.{emit}

pub data Trigger : Type 0 where
  analysis_completed interval_elapsed : Trigger

-- `doc.get("status") == word`
abbrev pub has_status : String → Doc → Bool
has_status word doc = elim doc.status [ none ↦ false | some s ↦ s == word ]

-- `_blocks_recycle`
abbrev blocks_recycle : Doc → Bool
blocks_recycle = has_status "started"

-- `last is None or now - last > span`
abbrev pub due : Time → Option Time → Time → Bool
due now none span = true
due now (some last) span = elapsed now last span

unfoldable pub armed_trigger : List Doc → OperatorConfig → Time → Option Time → Option Trigger
armed_trigger analyses config now last =
    if config.worker_policy.recycle_after_analysis
      && (any (has_status "completed") analyses && not (any blocks_recycle analyses))
    then some analysis_completed
    else if due now last (hours config.worker_policy.recycle_worker_interval_hours)
    then some interval_elapsed
    else none

-- `config.target_worker_deployment or DEFAULT_WORKER_DEPLOYMENT`
abbrev pub worker_deployment : OperatorConfig → String
worker_deployment config =
    if config.target_worker_deployment == "" then "worker" else config.target_worker_deployment

module _ (env : Env) (config : OperatorConfig) (now : Time) where
  -- The tick once a trigger has fired.
  unfoldable pub recycle : Trigger → M (Option Trigger)
  recycle trigger = do
    when (not config.dry_run) (call env (Call.restart_deployment (worker_deployment config) now))
    emit env config Severity.normal Reason.worker_recycled (worker_deployment config)
    set_last_recycle_at env now
    pure (some trigger)

  unfoldable pub recycle_if : Option Trigger → M (Option Trigger)
  recycle_if none = pure none
  recycle_if (some trigger) = recycle trigger

  unfoldable pub after_gate : Option Time → M (Option Trigger)
  after_gate last = do
    analyses ← ask env Call.list_analyses env.analyses
    recycle_if (armed_trigger analyses config now last)

  -- The gate, open or closed.
  unfoldable pub gate : Option Time → Bool → M (Option Trigger)
  gate last true = after_gate last
  gate last false = pure none

  unfoldable pub run_recycler_tick : M (Option Trigger)
  run_recycler_tick = do
    last ← read env (λ s. s.last_recycle_at)
    gate last (due now last (minutes config.worker_policy.min_recycle_interval_minutes))
