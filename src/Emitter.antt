-- ===== src/Emitter.antt =====
-- `EventEmitter.emit` (src/openstudio_operator/events.py): the one place where a dry run drops an
-- Event; its counters are not modelled.
use openstudio_server_operat.Base.{arith, Bool, ◌≡◌, refl, String, true, false, not}
use openstudio_server_operat.Config.{OperatorConfig}
use openstudio_server_operat.World.{Call, Severity, Reason, Env, World, M, ⊤, when, call}
use openstudio_server_operat.World.Grows.{same, Untouched, Untouched-call}
use openstudio_server_operat.World.Adds.{Adds, Adds-call, Adds-when}
use openstudio_server_operat.World.Triple.{After, After-when, After-call, After-mono}

unfoldable pub emit : Env → OperatorConfig → Severity → Reason → String → M ⊤
emit env config severity reason subject =
    when (not config.dry_run) (call env (Call.post_event severity reason subject))

-- An Event changes nothing but the trace.
pub emit-After :
    (env : Env) (config : OperatorConfig) (severity : Severity) (reason : Reason) (subject : String)
    (w : World)
    → After (λ _ w'. Untouched w w') (Untouched w) (emit env config severity reason subject w)
unfolding emit
emit-After env config severity reason subject w =
    After-when _ _ w
      (λ _.
        After-mono (After-call env _ w)
          (λ _ w' h. rw h (Untouched-call w (Call.post_event severity reason subject) true refl))
          (λ w' h. rw h (Untouched-call w (Call.post_event severity reason subject) false refl)))
      (λ _. record { rest = refl; grown = same })

pub not_dry : {b : Bool} → not b ≡ true → b ≡ false
not_dry {b} h = ground arith

-- A dry run posts nothing.
pub Adds-emit :
    {p : Call → Bool} (env : Env) (config : OperatorConfig) (severity : Severity) (reason : Reason)
    (subject : String)
    → (config.dry_run ≡ false → p (Call.post_event severity reason subject) ≡ true)
    → Adds p (emit env config severity reason subject)
unfolding emit
Adds-emit env config severity reason subject h =
    Adds-when _ _ (λ wet. Adds-call env _ (h (not_dry wet)))
