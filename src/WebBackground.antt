-- ===== src/WebBackground.antt =====
-- The web-background monitor (src/openstudio_operator/handlers/web_background_monitor.py): restarts
-- the web-background Deployment when a queue stall has been sustained for a whole window. Its gauges
-- are not modelled.
pub mod Sensing
pub mod Window
pub mod Streak
pub mod Senses
pub mod Steps
pub mod Ticks
pub mod Runs
pub mod Quiet
use openstudio_server_operat.Base.{
  is_none, is_some, ℕ, ◌+◌, ◌*◌, String, Bool, true, false, Option, none, some, ◌&&◌, not, leb, ltb,
  if◌then◌else◌, ◌==◌,
}
use openstudio_server_operat.Clock.{Time, elapsed, minutes, seconds}
use openstudio_server_operat.Config.{OperatorConfig}
use openstudio_server_operat.World.{
  Call, Severity, Reason, StallWindowTracker, Env, World, M, ◌>>=◌, ◌>>◌, ⊤, pure, gets, update,
  when, call, on_raise, ignoring,
}
use openstudio_server_operat.Store.{
  read, or_zero, set_last_web_background_restart_at, set_stall_window_started_at,
  set_ineffective_restarts,
}
use openstudio_server_operat.Emitter.{emit}
use openstudio_server_operat.Recycler.{due}
use Sensing.{stall_condition_holds, set_leg2}
use Window.{track, no_window}

-- `_backoff_windows`: the last threshold that is reached gives the windows to wait.
unfoldable pub backoff_windows : ℕ → ℕ
backoff_windows ineffective =
    if leb 7 ineffective
    then 8
    else if leb 5 ineffective
    then 6
    else if leb 3 ineffective
    then 4
    else 2

-- `config.target_web_background_deployment or DEFAULT_WEB_BACKGROUND_DEPLOYMENT`
abbrev pub web_background_deployment : OperatorConfig → String
web_background_deployment config =
    if config.target_web_background_deployment == ""
    then "web-background"
    else config.target_web_background_deployment

abbrev pub stall_window : OperatorConfig → Time
stall_window config = minutes config.web_background_policy.stall_window_minutes

abbrev pub set_tracker : (StallWindowTracker → StallWindowTracker) → M ⊤
set_tracker f = update (λ w. record w { tracker = f w.tracker })

-- A clean period that has lasted for the window.
abbrev pub is_clean : Time → Time → Option Time → Bool
is_clean now window none = false
is_clean now window (some first) = leb (first + window) now

-- The action waits for its backoff.
abbrev pub is_deferred : Time → Time → Time → ℕ → Bool
is_deferred now window last ineffective =
    ltb 2 (backoff_windows ineffective)
    && not (elapsed now last (window * backoff_windows ineffective))

module _ (env : Env) (config : OperatorConfig) (now : Time) where
  -- `_maybe_warn_resque_layout_unknown`
  unfoldable pub warn_layout_unknown : M ⊤
  warn_layout_unknown = do
    warns ← gets (λ w.
        not w.leg2.layout_warning_emitted
        && (leb w.leg2.max_workers_seen 0 && is_clean now (seconds 60) w.leg2.empty_registry_since))
    when warns (do
      set_leg2 (λ l. record l { layout_warning_emitted = true })
      emit env config Severity.warning Reason.resque_key_layout_unknown "")

  -- A failed read is no evidence: the window starts over.
  unfoldable pub blind : M ⊤
  blind = do set_tracker (λ _. no_window); set_stall_window_started_at env none

  unfoldable pub restore_from : Option Time → M ⊤
  restore_from none = pure tt
  restore_from (some at) = set_tracker (λ t. record t { first_observed = some at })

  -- The window's begin that an earlier process has left in the status.
  unfoldable pub restore : M ⊤
  restore = do persisted ← read env (λ s. s.stall_window_started_at); restore_from persisted

  unfoldable pub observe : Bool → M Bool
  observe holds = do
    t ← gets (λ w. w.tracker)
    set_tracker (λ _. (track t holds now (stall_window config)).0)
    pure (track t holds now (stall_window config)).1

  -- Keeps the status in step with the tracker.
  unfoldable pub checkpoint : Bool → Bool → M ⊤
  checkpoint window_began holds =
      if window_began
      then (do first ← gets (λ w. w.tracker.first_observed); set_stall_window_started_at env first)
      else when (not holds) (set_stall_window_started_at env none)

  -- `last_restart is not None or store.get_web_background_ineffective_restarts() > 0`
  unfoldable pub is_armed : Option Time → M Bool
  is_armed none = do
    ineffective ← read env (λ s. or_zero s.ineffective_restarts)
    pure (ltb 0 ineffective)
  is_armed (some at) = pure true

  unfoldable pub disarm : Option Time → Bool → M ⊤
  disarm last armed = when armed (do
    set_ineffective_restarts env 0
    when (is_some last) (set_last_web_background_restart_at env none))

  -- One whole window without a stall ends the cycle of restarts.
  unfoldable pub conclude_clean : Option Time → Bool → M ⊤
  conclude_clean last holds = do
    clean ← gets (λ w. not holds && is_clean now (stall_window config) w.tracker.first_clean)
    when clean (do armed ← is_armed last; disarm last armed)

  -- A restart after a restart shows that the one before had no effect.
  unfoldable pub count_ineffective : Option Time → M ⊤
  count_ineffective none = pure tt
  count_ineffective (some last) = do
    before ← read env (λ s. or_zero s.ineffective_restarts)
    set_ineffective_restarts env (before + 1)
    when (leb 3 (before + 1))
        (emit env config Severity.warning Reason.web_background_restart_ineffective "")

  unfoldable pub fire : Option Time → M Bool
  fire last = do
    when (not config.dry_run)
        (call env (Call.restart_deployment (web_background_deployment config) now))
    emit env config Severity.warning Reason.web_background_restarted
        (web_background_deployment config)
    set_stall_window_started_at env none
    set_last_web_background_restart_at env (some now)
    count_ineffective last
    set_tracker (λ _. no_window)
    pure true

  -- The action, unless the breaker defers it.
  unfoldable pub fire_unless_deferred : Option Time → M Bool
  fire_unless_deferred none = fire none
  fire_unless_deferred (some last) = do
    ineffective ← read env (λ s. or_zero s.ineffective_restarts)
    if is_deferred now (stall_window config) last ineffective then pure false else fire (some last)

  unfoldable pub decide : Option Time → Bool → M Bool
  decide last holds = do
    window_began ← gets (λ w. holds && is_none w.tracker.first_observed)
    when window_began restore
    sustained ← observe holds
    checkpoint window_began holds
    conclude_clean last holds
    if sustained then fire_unless_deferred last else pure false

  -- The code catches `RedisClientError` and `ApiException`: all that the reads of the condition are modelled to raise.
  unfoldable pub sense : M Bool
  sense = on_raise (stall_condition_holds env config now) blind

  -- The tick once the cooldown is over.
  unfoldable pub after_cooldown : Option Time → M Bool
  after_cooldown last = do holds ← sense; ignoring warn_layout_unknown; decide last holds

  unfoldable pub cooldown : Option Time → Bool → M Bool
  cooldown last true = after_cooldown last
  cooldown last false = pure false

  unfoldable pub run_stall_tick : M Bool
  run_stall_tick = do
    last ← read env (λ s. s.last_web_background_restart_at)
    cooldown last (due now last (stall_window config))
