-- ===== src/RestClient/Outcome.antt =====
-- A whole `_request`, told by its answers alone.
use openstudio_server_operat.Base.{
  ℕ, zero, suc, ◌+◌, ◌≤◌, Bool, true, false, List, [], ◌∷◌, ◌++◌, ◌≡◌, ◌⊎◌, inl, inr, refl, ap,
  arith, ltb, if◌then◌else◌,
}
use mathlib.Core.Path.{subst}
use openstudio_server_operat.RestClient.{
  Method, Answer, response, transient, other_exception, LastError, no_error, http, exception, Reply,
  responded, rejected, not_repeated, exhausted, raised, Verdict, done, again, judge_answer,
  judge_status, Effort, naps, attempt_from, request, is_get,
}
use openstudio_server_operat.RestClient.Attempts.{Repeats}

-- The reply to an answer that is not repeated: by the class of its status, or the exception.
abbrev pub final : Answer → Reply
final (response code) =
    if ltb code 400
    then responded code
    else if ltb code 500
    then rejected code
    else not_repeated code
final (transient e) = exhausted (exception e)
final (other_exception e) = raised e

-- The error that a repeated answer leaves.
abbrev pub error_of : Answer → LastError
error_of (response code) = http code
error_of (transient e) = exception e
error_of (other_exception e) = no_error

-- `n` numbers from `first` on.
abbrev pub counting : ℕ → ℕ → List ℕ
counting zero first = []
counting (suc n) first = first ∷ counting n (suc first)

module _ (method : Method) (answers : ℕ → Answer) where
  abbrev pub Ends : Answer → Type 0
  Ends a = ¬ (Repeats method answers a)

  abbrev Judged : Answer → Verdict → Type 0
  Judged a (done reply) = Ends a × (reply ≡ final a)
  Judged a (again e) = Repeats method answers a × (e ≡ error_of a)

  judge_status-Judged : (code : ℕ) → Judged (response code) (judge_status (is_get method) code)
  unfolding judge_status
  judge_status-Judged code = split (ltb code 400) refl (ltb code 500) refl (is_get method) refl
    where
      split :
          (a : Bool)
          → ltb code 400 ≡ a
          → (b : Bool) → ltb code 500 ≡ b
          → (c : Bool) → is_get method ≡ c
          → Judged (response code) (
              if a
              then done (responded code)
              else if b
              then done (rejected code)
              else if c
              then again (http code)
              else done (not_repeated code))
      split true e b f c g = ((λ r. ground (arith, r.1)), ground arith)
      split false e true f c g = ((λ r. ground (arith, r.1)), ground arith)
      split false e false f true g = ((g, ground arith), refl)
      split false e false f false g = ((λ r. ground (arith, r.0)), ground arith)

  judge_answer-Judged : (a : Answer) → Judged a (judge_answer method a)
  unfolding judge_answer
  judge_answer-Judged (response code) = judge_status-Judged code
  judge_answer-Judged (transient e) = (tt, refl)
  judge_answer-Judged (other_exception e) = ((λ r. cc), refl)

  abbrev pub AllRepeat : ℕ → ℕ → Type 0
  AllRepeat zero first = Unit
  AllRepeat (suc n) first = Repeats method answers (answers first) × AllRepeat n (suc first)

  -- What the last answer makes of the request, where `spent` says that no attempt is left.
  abbrev pub Concluded : Reply → Answer → Type 0 → Type 0
  Concluded reply a spent =
      (Ends a × (reply ≡ final a))
      ⊎ (Repeats method answers a × (reply ≡ exhausted (error_of a)) × spent)

  -- A request of at most `left` attempts.
  abbrev pub Explained : ℕ → Effort → Type 0
  Explained left r =
      (n : ℕ) × (r.sent ≡ suc n)
      × (suc n ≤ left)
      × AllRepeat n 0
      × (r.slept ≡ counting n 1)
      × Concluded r.reply (answers n) (suc n ≡ left)

  -- The attempts from `first` on, with `left` at most.
  abbrev ExplainedFrom : ℕ → ℕ → Effort → Type 0
  ExplainedFrom left first r =
      (n : ℕ) × (last : ℕ) × (r.sent ≡ suc n)
      × (suc n ≤ left)
      × (last ≡ first + n)
      × AllRepeat n first
      × (r.slept ≡ naps first ++ counting n (suc first))
      × Concluded r.reply (answers last) (suc n ≡ left)

  naps-end : (n : ℕ) → naps n ≡ naps n ++ []
  naps-end zero = refl
  naps-end (suc n) = refl

  attempt_from-ExplainedFrom :
      (left first : ℕ) (last : LastError)
      → ExplainedFrom (suc left) first (attempt_from method answers (suc left) first last)
  unfolding attempt_from
  attempt_from-ExplainedFrom zero first last =
      split (judge_answer method (answers first)) (judge_answer-Judged (answers first))
    where
      split :
          (v : Verdict)
          → Judged (answers first) v
          → ExplainedFrom 1 first (elim v as (λ _. Effort) [
            | done reply ↦ record { reply = reply; sent = 1; slept = naps first }
            | again e ↦ record {
              reply = (attempt_from method answers zero (suc first) e).reply;
              sent = suc (attempt_from method answers zero (suc first) e).sent;
              slept = naps first ++ (attempt_from method answers zero (suc first) e).slept;
            }
          ])
      split (done reply) j = (0, first, refl, omega arith, omega arith, tt, naps-end first, inl j)
      split (again e) j = (
        0,
        first,
        refl,
        omega arith,
        omega arith,
        tt,
        refl,
        inr (j.0, ap (λ x. exhausted x) j.1, refl),
      )
  attempt_from-ExplainedFrom (suc left) first last =
      split (λ e. attempt_from-ExplainedFrom left (suc first) e)
        (judge_answer method (answers first)) (judge_answer-Judged (answers first))
    where
      rest : LastError → Effort
      rest e = attempt_from method answers (suc left) (suc first) e

      later :
          (n : ℕ) (reply : Reply) (a : Answer)
          → Concluded reply a (suc n ≡ suc left)
          → Concluded reply a (suc (suc n) ≡ suc (suc left))
      later n reply a (inl h) = inl h
      later n reply a (inr (repeats, reply_is, spent)) =
          inr (repeats, reply_is, ap (λ k. suc k) spent)

      split :
          ((e : LastError) → ExplainedFrom (suc left) (suc first) (rest e))
          → (v : Verdict) → Judged (answers first) v
          → ExplainedFrom (suc (suc left)) first (elim v as (λ _. Effort) [
            | done reply ↦ record { reply = reply; sent = 1; slept = naps first }
            | again e ↦ record {
              reply = (rest e).reply;
              sent = suc (rest e).sent;
              slept = naps first ++ (rest e).slept;
            }
          ])
      split ih (done reply) j =
          (0, first, refl, omega arith, omega arith, tt, naps-end first, inl j)
      split ih (again e) j =
          let (n, last, sent, bound, at, repeats, slept, end) = ih e in
          (
            suc n,
            last,
            ap (λ k. suc k) sent,
            omega arith,
            omega arith,
            (j.0, repeats),
            ap (λ xs. naps first ++ xs) slept,
            later n _ _ end,
          )

  -- `_request`, told by its answers alone: it sends one attempt at least and `max_retries + 1` at most. Each answer but
  -- the last is one to repeat: a transient exception, or for GET a status of 500 or above. It sleeps before each
  -- attempt but the first, for the retries 1, 2 and so on. The last answer is not one to repeat, and gives the reply
  -- by its status or its exception; or it is one, no attempt is left, and the reply reports its error.
  pub request-Explained :
      (max_retries : ℕ) → Explained (suc max_retries) (request max_retries method answers)
  unfolding request
  request-Explained max_retries =
      let (n, last, sent, bound, at, repeats, slept, end) =
        attempt_from-ExplainedFrom max_retries 0 no_error in
      (
        n,
        sent,
        bound,
        repeats,
        slept,
        subst
            (λ k.
              Concluded (request max_retries method answers).reply (answers k)
                (suc n ≡ suc max_retries))
            (omega arith) end,
      )
