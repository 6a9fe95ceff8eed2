-- ===== src/World.antt =====
-- The operator's surroundings. A handler's tick is a state-and-exception action: it makes calls
-- (REST, Kubernetes, Resque), each of which succeeds or raises, and what was done before a raise
-- stays done. Every call is noted in a trace with its result.
pub mod Triple
pub mod Grows
pub mod Adds
pub mod Keeps
use openstudio_server_operat.Base.{
  ℕ, String, Bool, true, false, Option, none, some, List, [], ◌∷◌, if◌then◌else◌,
}
use openstudio_server_operat.Base.Dict.{Dict}
use openstudio_server_operat.Clock.{Time}
use openstudio_server_operat.Status.{MapField, Status}

pub data Severity : Type 0 where
  normal warning : Severity

pub data Reason : Type 0 where
  analysis_soft_stopped analysis_escalated analysis_stopped : Reason
  datapoint_requeued datapoint_requeue_exhausted status_anchors_pruned : Reason
  worker_recycled : Reason
  web_background_restarted web_background_restart_ineffective resque_key_layout_unknown : Reason
  analysis_archival_started analysis_archival_succeeded analysis_archival_failed : Reason
  analysis_deleted : Reason

-- What leaves the process. An Event is kept by its type, its reason and the object that it names;
-- its prose is not.
pub data Call : Type 0 where
  list_analyses list_datapoints list_started_datapoints : Call
  get_analysis_status : String → Call
  soft_stop_analysis stop_analysis delete_analysis requeue_datapoint : String → Call
  read_status : Call
  patch_entry : MapField → String → Call
  patch_last_recycle_at patch_prune : Call
  patch_web_background_restart_at patch_stall_window patch_ineffective_restarts : Call
  restart_deployment : String → Time → Call
  list_pods : Call
  delete_pod : String → Option ℕ → Call
  read_job create_job delete_job : String → Call
  list_workers : Call
  read_heartbeats : Call
  read_queue_depth : String → Call
  read_deployment list_pods_of : String → Call
  get_worker : String → Call
  post_event : Severity → Reason → String → Call

abbrev pub Trace : Type 0
Trace = List (Call × Bool)

-- A document of `GET /analyses.json` or `GET /data_points.json`: an absent or null field is `none`.
pub record Doc : Type 0 where
  pub id : Option String
  pub status : Option String
  pub analysis_id : Option String
  pub updated_at : Option Time
  pub created_at : Option Time

-- The answer of `GET /analyses/{id}/status.json`: the wrapper for one match with its `status`, the
-- list for none or many with their `status` fields, or another body.
pub data StatusBody : Type 0 where
  one : Option String → StatusBody
  many : List (Option String) → StatusBody
  other_body : StatusBody

-- A Kubernetes Job's `status.conditions`, each by its type and its status.
pub record Condition : Type 0 where
  pub kind : String
  pub status : String

-- A worker's entry in Resque's registry: no value, a value that is not JSON, or the `payload.args` of
-- the parsed value (`none` where the value, its payload or its arguments have another shape).
pub data WorkerRecord : Type 0 where
  idle garbage : WorkerRecord
  job : Option (List String) → WorkerRecord

-- A `matchExpressions` entry of a Deployment's selector: its key, its operator and its values.
pub record Expression : Type 0 where
  pub key : String
  pub operator : String
  pub values : List String

-- A Deployment's selector: `matchLabels` sorted by key, and `matchExpressions`.
pub record Selector : Type 0 where
  pub labels : List (String × String)
  pub expressions : List Expression

-- A pod's phase and conditions.
pub record Pod : Type 0 where
  pub phase : String
  pub conditions : List Condition

-- What the services answer, as any function of all that has been asked so far. `refuses` gives the
-- HTTP status of the exception that a call raises, or `none` where it succeeds. Such an exception is of the class that
-- its service's client raises (`ApiException`, `RedisClientError`, `OpenStudioApiError`); transport errors of another
-- class are not modelled.
pub record Env : Type 0 where
  pub refuses : Trace → Call → Option ℕ
  pub analyses : Trace → List Doc
  pub datapoints : Trace → List Doc
  pub started_datapoints : Trace → List Doc
  pub analysis_status : Trace → String → StatusBody
  pub pods : Trace → List String
  pub workers : Trace → List String
  pub worker_record : Trace → String → WorkerRecord
  pub job : Trace → String → List Condition
  -- the heartbeat hash: for each field the parsed time, or `none` where it does not parse
  pub heartbeats : Trace → Dict (Option Time)
  pub queue_depth : Trace → String → ℕ
  -- the Redis client's clock
  pub redis_now : Trace → Time
  pub selector : Trace → String → Selector
  pub pods_of : Trace → String → List Pod

-- The datapoint watchdog's caches for this custom resource, in the process's memory:
-- `_EXHAUSTED_WARNED` and the `AnchorPruneState` of `_ANCHOR_PRUNE`.
pub record AnchorPruneState : Type 0 where
  pub ticks : ℕ
  pub absent_datapoints : Dict ℕ
  pub absent_analyses : Dict ℕ

-- The web-background monitor's caches for this custom resource: `StallWindowTracker` and
-- `Leg2SafeguardState`.
pub record StallWindowTracker : Type 0 where
  pub first_observed : Option Time
  pub first_clean : Option Time

pub record Leg2SafeguardState : Type 0 where
  pub max_workers_seen : ℕ
  pub empty_registry_since : Option Time
  pub layout_warning_emitted : Bool

pub record World : Type 0 where
  pub status : Status
  -- `_PROTECTED_ANCHOR_KEYS` of this custom resource
  pub protected : MapField → List String
  pub exhausted_seen : List String
  pub prune_state : AnchorPruneState
  pub tracker : StallWindowTracker
  pub leg2 : Leg2SafeguardState
  pub trace : Trace

pub data Error : Type 0 where
  refused : Call → ℕ → Error
  store_error : MapField → String → Error
  key_error : String → Error
  attribute_error value_error redis_error : Error

pub data Outcome (A : Type 0) : Type 0 where
  ok : A → Outcome A
  raise : Error → Outcome A

abbrev pub M : Type 0 → Type 0
M A = World → Outcome A × World

infixl 5 ◌>>=◌ ◌>>◌
unfoldable pub ◌>>=◌ : {A B : Type 0} → M A → (A → M B) → M B
◌>>=◌ m f w = let (r, w') = m w in elim r [ ok a ↦ f a w' | raise e ↦ (raise e, w') ]

abbrev pub ◌>>◌ : {A B : Type 0} → M A → M B → M B
m >> k = m >>= λ _. k

abbrev pub ⊤ : Type 0
⊤ = Unit

module _ {A : Type 0} where
  abbrev pub pure : A → M A
  pure a w = (ok a, w)

  abbrev pub throw : Error → M A
  throw e w = (raise e, w)

  abbrev pub gets : (World → A) → M A
  gets f w = (ok (f w), w)

  abbrev pub ended : Outcome A → Bool
  ended (ok _) = true
  ended (raise _) = false

abbrev pub modify : (Status → Status) → M ⊤
modify f w = (ok tt, record w { status = f w.status })

abbrev pub update : (World → World) → M ⊤
update f w = (ok tt, f w)

-- `if b: m`
unfoldable pub when : Bool → M ⊤ → M ⊤
when true m w = m w
when false m w = (ok tt, w)

module _ (env : Env) where
  unfoldable pub call : Call → M ⊤
  call c w = elim (env.refuses w.trace c) [
    | none ↦ (ok tt, record w { trace = (c, true) ∷ w.trace })
    | some code ↦ (raise (refused c code), record w { trace = (c, false) ∷ w.trace })
  ]

  -- A call whose refusal is caught: the HTTP status of the exception.
  unfoldable pub attempt : Call → M (Option ℕ)
  attempt c w = elim (env.refuses w.trace c) [
    | none ↦ (ok none, record w { trace = (c, true) ∷ w.trace })
    | some code ↦ (ok (some code), record w { trace = (c, false) ∷ w.trace })
  ]

  -- A call that brings an answer back.
  unfoldable pub ask : {A : Type 0} → Call → (Trace → A) → M A
  ask c f = do call c; gets (λ w. f w.trace)

-- `try: m except ...: handler; raise`, where every exception of `m` is of a class that is caught.
unfoldable pub on_raise : {A : Type 0} → M A → M ⊤ → M A
on_raise m handler w =
    let (r, w') = m w in elim r [ ok a ↦ (ok a, w') | raise e ↦ (handler >>= λ _. throw e) w' ]

-- `try: m except Exception: pass`
unfoldable pub ignoring : M ⊤ → M ⊤
ignoring m w = (ok tt, (m w).1)

-- `for x in xs: body(x)`
unfoldable pub for_each : {A : Type 0} → List A → (A → M ⊤) → M ⊤
for_each [] body = pure tt
for_each (x ∷ xs) body = do body x; for_each xs body

-- Whether a call made now succeeds.
abbrev pub accepts : Env → World → Call → Bool
accepts env w c = elim (env.refuses w.trace c) [ none ↦ true | some _ ↦ false ]

-- A call that has been made and has succeeded.
pub data Done (c : Call) : Trace → Type 0 where
  here : {t : Trace} → Done c ((c, true) ∷ t)
  there : {x : Call × Bool} {t : Trace} → Done c t → Done c (x ∷ t)
