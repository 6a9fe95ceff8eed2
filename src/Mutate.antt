-- ===== src/Mutate.antt =====
-- `StatusStore._mutate` (src/openstudio_operator/status_store.py): the read-modify-write cycle with its retries on
-- a conflict. The API server's answers to the reads and patches of each attempt are parameters. The metrics, the
-- cache that a read leaves and the length of the sleeps are not modelled.
use openstudio_server_operat.Base.{
  ℕ, zero, suc, ◌+◌, ◌≤◌, Bool, true, false, Option, none, some, ◌≡◌, refl, ap, ◌∙◌, ◌⊎◌, inl, inr,
  arith, is_yes, ℕ_discrete, if◌then◌else◌,
}

abbrev pub max_conflict_retries : ℕ
max_conflict_retries = 5

-- What `build_patch` makes of a status: no patch, a patch, or a `StatusStoreError`.
pub data Built (P : Type 0) : Type 0 where
  no_patch build_error : Built P
  patch_of : P → Built P

-- A read brings a status, raises with an HTTP status, or raises another exception.
pub data Read (S : Type 0) : Type 0 where
  status : S → Read S
  read_refused : ℕ → Read S
  read_failed : Read S

-- A patch is accepted, raises with an HTTP status, or raises another exception.
pub data Answer : Type 0 where
  accepted : Answer
  patch_refused : ℕ → Answer
  patch_failed : Answer

-- What `_mutate` comes to: no write, the patch that was applied, the `ApiException` of a read or a patch, another
-- exception of theirs, the `StatusStoreError` of `build_patch`, or `StatusStoreConflictError`.
pub data Mutation (P : Type 0) : Type 0 where
  skipped conflict_error store_error other_exception : Mutation P
  written : P → Mutation P
  api_exception : ℕ → Mutation P

abbrev pub is_conflict : {P : Type 0} → Mutation P → Bool
is_conflict conflict_error = true
is_conflict _ = false

module _ {S P : Type 0} (build_patch : S → Built P) (read : ℕ → Read S)
    (answer : ℕ → P → Answer) where
  -- Whether an attempt is to be made again: its end, or none on a conflict.
  unfoldable after_patch : P → Answer → Option (Mutation P)
  after_patch patch accepted = some (written patch)
  after_patch patch patch_failed = some other_exception
  after_patch patch (patch_refused code) =
      if is_yes (ℕ_discrete code 409) then none else some (api_exception code)

  unfoldable after_build : ℕ → Built P → Option (Mutation P)
  unfolding after_patch
  after_build attempt no_patch = some skipped
  after_build attempt build_error = some store_error
  after_build attempt (patch_of patch) = after_patch patch (answer attempt patch)

  unfoldable after_read : ℕ → Read S → Option (Mutation P)
  unfolding after_build
  after_read attempt (read_refused code) = some (api_exception code)
  after_read attempt read_failed = some other_exception
  after_read attempt (status s) = after_build attempt (build_patch s)

  -- The attempts from `attempt` on, with `left` to come, and the attempts that were made.
  unfoldable mutate_from : ℕ → ℕ → Mutation P × ℕ
  unfolding after_read
  mutate_from zero attempt = (conflict_error, 0)
  mutate_from (suc left) attempt =
      let rest = mutate_from left (suc attempt) in
      elim (after_read attempt (read attempt)) [ none ↦ (rest.0, suc rest.1) | some end ↦ (end, 1) ]

  unfoldable pub mutate : Mutation P × ℕ
  unfolding mutate_from
  mutate = mutate_from max_conflict_retries 1

  -- An attempt that ended in a conflict: its read succeeded and gave a patch, which the server refused with 409.
  abbrev pub Conflicts : ℕ → Type 0
  Conflicts n =
      (s : S) × (patch : P) × (read n ≡ status s)
      × (build_patch s ≡ patch_of patch)
      × (answer n patch ≡ patch_refused 409)

  abbrev pub AllConflict : ℕ → ℕ → Type 0
  AllConflict zero attempt = Unit
  AllConflict (suc n) attempt = Conflicts attempt × AllConflict n (suc attempt)

  -- What the result says of the last attempt.
  abbrev pub Ended : Mutation P → ℕ → Type 0
  Ended skipped n = (s : S) × (read n ≡ status s) × (build_patch s ≡ no_patch)
  Ended store_error n = (s : S) × (read n ≡ status s) × (build_patch s ≡ build_error)
  Ended other_exception n =
      (read n ≡ read_failed)
      ⊎ ((s : S) × (patch : P) × (read n ≡ status s)
          × (build_patch s ≡ patch_of patch)
          × (answer n patch ≡ patch_failed))
  Ended (written patch) n =
      (s : S) × (read n ≡ status s) × (build_patch s ≡ patch_of patch) × (answer n patch ≡ accepted)
  Ended (api_exception code) n =
      (read n ≡ read_refused code)
      ⊎ ((s : S) × (patch : P) × (read n ≡ status s)
          × (build_patch s ≡ patch_of patch)
          × (answer n patch ≡ patch_refused code)
          × (¬ (code ≡ 409)))
  Ended conflict_error n = Conflicts n

  -- An attempt either ends the cycle or has met a conflict.
  abbrev Judged : ℕ → Option (Mutation P) → Type 0
  Judged n none = Conflicts n
  Judged n (some end) = Ended end n × (is_conflict end ≡ false)

  judge_patch :
      (n : ℕ) (s : S) (patch : P) (a : Answer)
      → read n ≡ status s
      → build_patch s ≡ patch_of patch
      → answer n patch ≡ a
      → Judged n (after_patch patch a)
  unfolding after_patch
  judge_patch n s patch accepted p q a = ((s, p, q, a), refl)
  judge_patch n s patch patch_failed p q a = (inr (s, patch, p, q, a), refl)
  judge_patch n s patch (patch_refused code) p q a = split (ℕ_discrete code 409)
    where
      split :
          (d : Dec (code ≡ 409)) → Judged n (if is_yes d then none else some (api_exception code))
      split (yes e) = (s, patch, p, q, a ∙ ap (λ c. patch_refused c) e)
      split (no e) = (inr (s, patch, p, q, a, e), refl)

  judge_build :
      (n : ℕ) (s : S) (o : Built P)
      → read n ≡ status s
      → build_patch s ≡ o
      → Judged n (after_build n o)
  unfolding after_build
  judge_build n s no_patch p q = ((s, p, q), refl)
  judge_build n s build_error p q = ((s, p, q), refl)
  judge_build n s (patch_of patch) p q = judge_patch n s patch (answer n patch) p q refl

  judge_read : (n : ℕ) (r : Read S) → read n ≡ r → Judged n (after_read n r)
  unfolding after_read
  judge_read n (read_refused code) p = (inl p, refl)
  judge_read n read_failed p = (inl p, refl)
  judge_read n (status s) p = judge_build n s (build_patch s) p refl

  -- What is known of a cycle with `left` attempts from `first` on: it makes one attempt at least and `left` at most, all
  -- but the last one met a conflict, and the last one explains the result.
  abbrev pub Explained : ℕ → ℕ → Mutation P × ℕ → Type 0
  Explained left first (result, made) =
      (n : ℕ) × (last : ℕ) × (made ≡ suc n)
      × (suc n ≤ left)
      × (last ≡ n + first)
      × AllConflict n first
      × Ended result last
      × (is_conflict result ≡ true → made ≡ left)

  mutate_from-Explained :
      (left first : ℕ) → Explained (suc left) first (mutate_from (suc left) first)
  unfolding mutate_from
  mutate_from-Explained zero first =
      split (after_read first (read first)) (judge_read first (read first) refl)
    where
      split :
          (o : Option (Mutation P))
          → Judged first o
          → Explained 1 first
              (elim o as (λ _. Mutation P × ℕ) [ none ↦ (conflict_error, 1) | some end ↦ (end, 1) ])
      split none j = (0, first, refl, omega arith, omega arith, tt, j, λ c. refl)
      split (some end) (j, k) = (0, first, refl, omega arith, omega arith, tt, j, λ c. cc)
  mutate_from-Explained (suc left) first =
      split (mutate_from (suc left) (suc first)) (mutate_from-Explained left (suc first))
        (after_read first (read first)) (judge_read first (read first) refl)
    where
      split :
          (rest : Mutation P × ℕ)
          → Explained (suc left) (suc first) rest
          → (o : Option (Mutation P)) → Judged first o
          → Explained (suc (suc left)) first (elim o as (λ _. Mutation P × ℕ) [
            | none ↦ (rest.0, suc rest.1)
            | some end ↦ (end, 1)
          ])
      split rest (n, last, made, bound, at, conflicts, ended, spent) none j = (
        suc n,
        last,
        ap (λ k. suc k) made,
        omega arith,
        omega arith,
        (j, conflicts),
        ended,
        λ c. ap (λ k. suc k) (spent c),
      )
      split rest ih (some end) (j, k) = (0, first, refl, omega arith, omega arith, tt, j, λ c. cc)

  -- `_mutate` always ends, after one attempt at least and five at most. Every attempt but the last met a conflict: the
  -- server refused with 409 the patch that was built from that attempt's own read. The last attempt explains the
  -- result: the patch that is reported as written was built from the last read and accepted, nothing was
  -- written where that read called for no patch, another refusal or exception of that attempt, or the raise of its `build_patch`, is passed on as it is, and a
  -- `StatusStoreConflictError` means that all five attempts met a conflict.
  pub mutate-Explained : Explained max_conflict_retries 1 mutate
  unfolding mutate
  mutate-Explained = mutate_from-Explained 4 1
