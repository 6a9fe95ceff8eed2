-- ===== src/RestClient/Backoff.antt =====
-- `_jittered_backoff`, in thousandths of `backoff_base_seconds`: `random.uniform(0.5, 1.5)` is a parameter, any
-- function of the retry.
use openstudio_server_operat.Base.{ℕ, zero, suc, ◌+◌, ◌-◌, ◌*◌, ◌≤◌, List, [], ◌∷◌, ◌≡◌, sym, arith}
use native.Mathlib.Nat.{le_trans, mul-le-mul_left, mul-le-mul_right}
use openstudio_server_operat.RestClient.{Method, Answer, request}
use openstudio_server_operat.RestClient.Attempts.{
  retries_from, request-Matches, request-bounded, tries, verdicts,
}

-- `2 ** n`
unfoldable pub two_to : ℕ → ℕ
two_to zero = 1
two_to (suc n) = 2 * two_to n

unfoldable pub jittered_backoff : (ℕ → ℕ) → ℕ → ℕ → ℕ
unfolding two_to
jittered_backoff jitter base retry = jitter retry * (base * two_to (retry - 1))

-- The time that a list of retries sleeps.
unfoldable pub slept_time : (ℕ → ℕ) → ℕ → List ℕ → ℕ
slept_time jitter base [] = 0
slept_time jitter base (retry ∷ retries) =
    jittered_backoff jitter base retry + slept_time jitter base retries

zero_add : (n : ℕ) → 0 + n ≡ n
zero_add n = omega arith

suc_add : (n m : ℕ) → suc n + m ≡ suc (n + m)
suc_add n m = omega arith

two_to_mono : (m k : ℕ) → two_to m ≤ two_to (k + m)
unfolding two_to
two_to_mono m zero = rw (zero_add m) (omega arith)
two_to_mono m (suc k) = rw (suc_add k m) (omega (arith, two_to_mono m k))

module _ (jitter : ℕ → ℕ) (base : ℕ) where
  abbrev cap : ℕ → ℕ
  cap n = 1500 * (base * two_to n)

  module _ (at_most : (n : ℕ) → jitter n ≤ 1500) where
    before : (n : ℕ) → suc n - 1 ≡ n
    before n = omega arith

    backoff-cap : (n : ℕ) → jittered_backoff jitter base (suc n) ≤ cap n
    unfolding jittered_backoff
    backoff-cap n = rw (before n) (mul-le-mul_right (base * two_to n) (at_most (suc n)))

    slept_time-cap :
        (n first : ℕ)
        → slept_time jitter base (retries_from n (suc first)) + cap first ≤ cap (n + first)
    unfolding slept_time two_to
    slept_time-cap zero first = rw (zero_add first) (omega arith)
    slept_time-cap (suc n) first =
        rw (shift n first) (omega (arith, backoff-cap first, slept_time-cap n (suc first)))
      where
        shift : (n first : ℕ) → suc n + first ≡ n + suc first
        shift n first = omega arith

    cap_mono : (m n : ℕ) → m ≤ n → cap m ≤ cap n
    cap_mono m n h =
        mul-le-mul_left 1500
          (mul-le-mul_left base (rw (sym (rejoin m n h)) (two_to_mono m (n - m))))
      where
        rejoin : (m n : ℕ) → m ≤ n → n - m + m ≡ n
        rejoin m n h = omega arith

    retries-cap :
        (n max_retries : ℕ)
        → 1 ≤ n
        → n ≤ max_retries + 1
        → slept_time jitter base (retries_from n 0) + cap 0 ≤ cap max_retries
    retries-cap zero max_retries h k = absurd (omega arith)
    retries-cap (suc n) max_retries h k =
        le_trans (slept_time-cap n 0) (rw (add_zero n) (cap_mono n max_retries (omega arith)))
      where
        add_zero : (n : ℕ) → n + 0 ≡ n
        add_zero n = omega arith

    -- With a jitter of at most 1.5 a request sleeps, over all its retries, at most 1.5 times the backoff's base
    -- times `2 ** max_retries - 1`.
    pub request-slept :
        (max_retries : ℕ) (method : Method) (answers : ℕ → Answer)
        → slept_time jitter base (request max_retries method answers).slept + 1500 * base
          ≤ 1500 * (base * two_to max_retries)
    unfolding two_to
    request-slept max_retries method answers =
        let m = request-Matches method answers max_retries in
        let bounds = request-bounded method answers max_retries in
        rw m.2 (
          omega (
            arith,
            retries-cap (tries (verdicts method answers (suc max_retries) 0)) max_retries
                (rw (sym m.1) bounds.0) (rw (sym m.1) bounds.1),
          ))
