-- ===== src/RestClient/Attempts.antt =====
-- Which attempts `_request` makes, and what it makes of their answers.
use openstudio_server_operat.Base.{
  ℕ, zero, suc, ◌+◌, ◌≤◌, String, true, false, List, [], ◌∷◌, ◌++◌, ◌≡◌, refl, ap, ◌∙◌, arith,
  length,
}
use openstudio_server_operat.RestClient.{
  Method, Answer, response, transient, other_exception, LastError, no_error, Reply, exhausted,
  Verdict, done, again, judge_answer, Effort, naps, attempt_from, request, is_get,
}

-- The reference: the answers are judged one after the other, and the first verdict that ends the request
-- decides; without one the last error does.
abbrev pub verdicts : Method → (ℕ → Answer) → ℕ → ℕ → List Verdict
verdicts method answers zero first = []
verdicts method answers (suc n) first =
    judge_answer method (answers first) ∷ verdicts method answers n (suc first)

abbrev pub first_reply : LastError → List Verdict → Reply
first_reply last [] = exhausted last
first_reply last (done reply ∷ vs) = reply
first_reply last (again e ∷ vs) = first_reply e vs

-- The attempts up to the first that ends the request.
abbrev pub tries : List Verdict → ℕ
tries [] = 0
tries (done reply ∷ vs) = 1
tries (again e ∷ vs) = suc (tries vs)

-- The numbers from `first`, `n` of them, without zero.
abbrev pub retries_from : ℕ → ℕ → List ℕ
retries_from zero first = []
retries_from (suc n) first = naps first ++ retries_from n (suc first)

abbrev pub Matches : Effort → LastError → List Verdict → ℕ → Type 0
Matches r last vs first =
    (r.reply ≡ first_reply last vs)
    × (r.sent ≡ tries vs)
    × (r.slept ≡ retries_from (tries vs) first)

naps-nil : (n : ℕ) → naps n ≡ naps n ++ []
naps-nil zero = refl
naps-nil (suc n) = refl

module _ (method : Method) (answers : ℕ → Answer) where
  attempt_from-Matches :
      (left first : ℕ) (last : LastError)
      → Matches
          (attempt_from method answers left first last)
          last
          (verdicts method answers left first)
          first
  unfolding attempt_from
  attempt_from-Matches zero first last = (refl, refl, refl)
  attempt_from-Matches (suc left) first last =
      split (λ e. attempt_from-Matches left (suc first) e) (judge_answer method (answers first))
    where
      split :
          ((e : LastError)
            → Matches
                (attempt_from method answers left (suc first) e)
                e
                (verdicts method answers left (suc first))
                (suc first))
          → (v : Verdict)
          → Matches
              (elim v as (λ _. Effort) [
                | done reply ↦ record { reply = reply; sent = 1; slept = naps first }
                | again e ↦ record {
                  reply = (attempt_from method answers left (suc first) e).reply;
                  sent = suc (attempt_from method answers left (suc first) e).sent;
                  slept = naps first ++ (attempt_from method answers left (suc first) e).slept;
                }
              ])
              last
              (v ∷ verdicts method answers left (suc first))
              first
      split ih (done reply) = (refl, refl, naps-nil first)
      split ih (again er) =
          ((ih er).0, ap (λ n. suc n) (ih er).1, ap (λ xs. naps first ++ xs) (ih er).2)

  -- The request's reply, the number of attempts and the retries that were slept for are those of the
  -- reference over the verdicts on its first `max_retries + 1` answers.
  pub request-Matches :
      (max_retries : ℕ)
      → Matches
          (request max_retries method answers)
          no_error
          (verdicts method answers (suc max_retries) 0)
          0
  unfolding request
  request-Matches max_retries = attempt_from-Matches (suc max_retries) 0 no_error

length-naps : (n first : ℕ) → length (retries_from n (suc first)) ≡ n
length-naps zero first = refl
length-naps (suc n) first = ap (λ k. suc k) (length-naps n (suc first))

module _ (method : Method) (answers : ℕ → Answer) where
  tries-bound : (n first : ℕ) → tries (verdicts method answers n first) ≤ n
  tries-bound zero first = omega arith
  tries-bound (suc n) first =
      split (judge_answer method (answers first)) (tries-bound n (suc first))
    where
      split :
          (v : Verdict)
          → tries (verdicts method answers n (suc first)) ≤ n
          → tries (v ∷ verdicts method answers n (suc first)) ≤ suc n
      split (done reply) h = omega arith
      split (again e) h = omega arith

  tries-some : (n first : ℕ) → 1 ≤ tries (verdicts method answers (suc n) first)
  tries-some n first = split (judge_answer method (answers first))
    where
      split : (v : Verdict) → 1 ≤ tries (v ∷ verdicts method answers n (suc first))
      split (done reply) = omega arith
      split (again e) = omega arith

  length-retries : (n : ℕ) → 1 ≤ n → suc (length (retries_from n 0)) ≡ n
  length-retries zero h = omega arith
  length-retries (suc n) h = ap (λ k. suc k) (length-naps n 0)

  pub request-bounded :
      (max_retries : ℕ)
      → let r = request max_retries method answers in
        (1 ≤ r.sent) × (r.sent ≤ max_retries + 1) × (suc (length r.slept) ≡ r.sent)
  request-bounded max_retries =
      let m = request-Matches method answers max_retries in
      let low = tries-some max_retries 0 in
      let high = tries-bound (suc max_retries) 0 in
      (rw m.1 low, rw m.1 (omega arith), rw (m.1, m.2) (length-retries _ low))

  -- What makes `_request` try again: a transient exception, or for GET a response of 500 or above.
  abbrev pub Repeats : Answer → Type 0
  Repeats (response code) = (is_get method ≡ true) × (500 ≤ code)
  Repeats (transient e) = Unit
  Repeats (other_exception e) = true ≡ false

  tries-transient :
      (n first : ℕ)
      → ((i : ℕ) → (e : String) × (answers i ≡ transient e))
      → tries (verdicts method answers n first) ≡ n
  unfolding judge_answer
  tries-transient zero first h = refl
  tries-transient (suc n) first h =
      rw (h first).1 (ap (λ k. suc k) (tries-transient n (suc first) h))

  -- Where every attempt meets a transient exception, a request of any verb is sent `max_retries + 1`
  -- times: a POST and a DELETE too.
  pub request-transient :
      (max_retries : ℕ)
      → ((i : ℕ) → (e : String) × (answers i ≡ transient e))
      → (request max_retries method answers).sent ≡ suc max_retries
  request-transient max_retries h =
      (request-Matches method answers max_retries).1 ∙ tries-transient (suc max_retries) 0 h
