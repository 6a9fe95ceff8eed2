-- ===== src/RestClient.antt =====
-- The REST client (src/openstudio_operator/openstudio_client.py): `OpenStudioClient._request`, its
-- retries and its backoff, and the check of the CA bundle. `requests.Session.request` is a parameter:
-- what it answers to each attempt. The metrics are not modelled.
pub mod Attempts
pub mod Backoff
pub mod Outcome
use openstudio_server_operat.Base.{
  ℕ, zero, suc, ◌+◌, ◌*◌, String, Bool, true, false, Option, none, some, List, [], ◌∷◌, ltb, not,
  if◌then◌else◌, ◌==◌, ◌++◌,
}

pub data Method : Type 0 where
  get post put delete patch : Method

-- What one `session.request` comes to: a response with its status code, one of `_TRANSIENT_EXCEPTIONS`, or
-- another exception, which passes through.
pub data Answer : Type 0 where
  response : ℕ → Answer
  transient other_exception : String → Answer

-- `last_error`
pub data LastError : Type 0 where
  no_error : LastError
  http : ℕ → LastError
  exception : String → LastError

-- What `_request` comes to: a response, an `OpenStudioApiError` for a 4xx response, for a 5xx response to
-- another verb than GET or for the last attempt, or another exception.
pub data Reply : Type 0 where
  responded : ℕ → Reply
  rejected : ℕ → Reply
  not_repeated : ℕ → Reply
  exhausted : LastError → Reply
  raised : String → Reply

-- Whether an attempt ends the request.
pub data Verdict : Type 0 where
  done : Reply → Verdict
  again : LastError → Verdict

-- `method.upper() == "GET"`
abbrev pub is_get : Method → Bool
is_get Method.get = true
is_get _ = false

unfoldable pub judge_status : Bool → ℕ → Verdict
judge_status idempotent code =
    if ltb code 400
    then done (responded code)
    else if ltb code 500
    then done (rejected code)
    else if idempotent
    then again (http code)
    else done (not_repeated code)

unfoldable pub judge_answer : Method → Answer → Verdict
judge_answer method (response code) = judge_status (is_get method) code
judge_answer method (transient e) = again (exception e)
judge_answer method (other_exception e) = done (raised e)

-- The requests that were sent, and the retries that were slept for.
pub record Effort : Type 0 where
  pub reply : Reply
  pub sent : ℕ
  pub slept : List ℕ

-- `if attempt: _sleep(...)`
abbrev pub naps : ℕ → List ℕ
naps zero = []
naps (suc n) = suc n ∷ []

-- `for attempt in range(...)`, from `attempt` on, with `left` attempts to come.
unfoldable pub attempt_from : Method → (ℕ → Answer) → ℕ → ℕ → LastError → Effort
attempt_from method answers zero attempt last = record {
  reply = exhausted last;
  sent = 0;
  slept = [];
}
attempt_from method answers (suc left) attempt last =
    let rest = attempt_from method answers left (suc attempt) in
    elim (judge_answer method (answers attempt)) [
      | done reply ↦ record { reply = reply; sent = 1; slept = naps attempt }
      | again e ↦ record {
        reply = (rest e).reply;
        sent = suc (rest e).sent;
        slept = naps attempt ++ (rest e).slept;
      }
    ]

-- `_request` with `max_retries`; the n-th attempt is answered with `answers n`.
unfoldable pub request : ℕ → Method → (ℕ → Answer) → Effort
unfolding attempt_from
request max_retries method answers = attempt_from method answers (suc max_retries) 0 no_error
