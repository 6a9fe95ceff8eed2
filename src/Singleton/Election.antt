-- ===== src/Singleton/Election.antt =====
-- Which custom resource is served.
use mathlib.Core.Path.{subst}
use mathlib.Core.List.{Memᴰ}
use mathlib.Core.List.Memᴰ.{head, tail}
use openstudio_server_operat.Base.{
  Bool, true, false, Option, none, some, List, [], ◌∷◌, ◌≡◌, refl, sym, ap, ◌∙◌, arith, same_text,
  text_self, if◌then◌else◌, ◌==◌,
}
use openstudio_server_operat.Singleton.{
  Cr, Guarded, ok, guard_error, seniority, insort, by_seniority, first_of, all_parse,
  sort_crs_by_seniority, resolve_active_cr, is_active, is_winner, same_cr, or_empty, gated,
}
use openstudio_server_operat.Singleton.Order.{
  is_senior, is_senior-asym, is_senior_trans, is_senior-connected,
}

-- Nothing in the list is senior.
abbrev pub Oldest : Cr → List Cr → Type 0
Oldest w items = (x : Cr) → Memᴰ x items → is_senior (seniority x) (seniority w) ≡ false

-- The oldest of the list, or none of an empty one.
abbrev pub Elected : List Cr → Option Cr → Type 0
Elected items none = (x : Cr) → ¬ (Memᴰ x items)
Elected items (some w) = Memᴰ w items × Oldest w items

abbrev pick : Cr → Option Cr → Cr
pick x none = x
pick x (some y) = if is_senior (seniority y) (seniority x) then y else x

first-insort : (x : Cr) (ys : List Cr) → first_of (insort x ys) ≡ some (pick x (first_of ys))
unfolding insort
first-insort x [] = refl
first-insort x (y ∷ ys) = split (is_senior (seniority y) (seniority x))
  where
    split :
        (b : Bool)
        → first_of (if b then y ∷ insort x ys else x ∷ y ∷ ys) ≡ some (if b then y else x)
    split true = refl
    split false = refl

not_senior_self : (x y : Cr) → y ≡ x → is_senior (seniority y) (seniority x) ≡ false
not_senior_self x y e = rw e (self (is_senior (seniority x) (seniority x)) refl)
  where
    self : (b : Bool) → is_senior (seniority x) (seniority x) ≡ b → b ≡ false
    self false h = refl
    self true h = sym h ∙ is_senior-asym (seniority x) (seniority x) h

Elected-pick :
    (x : Cr) (xs : List Cr) (o : Option Cr) → Elected xs o → Elected (x ∷ xs) (some (pick x o))
Elected-pick x xs none h = (head refl, oldest)
  where
    oldest : Oldest x (x ∷ xs)
    oldest z (head e) = not_senior_self x z e
    oldest z (tail m) = absurd (h z m)
Elected-pick x xs (some y) h = split (is_senior (seniority y) (seniority x)) refl
  where
    before : is_senior (seniority y) (seniority x) ≡ true → Oldest y (x ∷ xs)
    before e z (head p) = rw p (is_senior-asym (seniority y) (seniority x) e)
    before e z (tail m) = h.1 z m

    after : is_senior (seniority y) (seniority x) ≡ false → Oldest x (x ∷ xs)
    after e z (head p) = not_senior_self x z p
    after e z (tail m) = is_senior_trans (seniority z) (seniority y) (seniority x) (h.1 z m) e

    split :
        (b : Bool)
        → is_senior (seniority y) (seniority x) ≡ b
        → Elected (x ∷ xs) (some (if b then y else x))
    split true e = (tail h.0, before e)
    split false e = (head refl, after e)

by_seniority-Elected : (items : List Cr) → Elected items (first_of (by_seniority items))
unfolding by_seniority
by_seniority-Elected [] = λ x m. elim m [ ]
by_seniority-Elected (x ∷ xs) =
    subst (Elected (x ∷ xs)) (sym (first-insort x (by_seniority xs)))
      (Elected-pick x xs _ (by_seniority-Elected xs))

-- What the election says of a list: that it is elected, or that a creation time does not parse.
abbrev pub Resolved : List Cr → Guarded (Option Cr) → Type 0
Resolved items (ok o) = Elected items o × (all_parse items ≡ true)
Resolved items guard_error = all_parse items ≡ false

-- The custom resource that is served is one of the list and nothing in the list is senior to it - older,
-- or of the same age with a lesser name, or with its name and a lesser uid -, and there is one unless the
-- list is empty; the election fails exactly where a creation time does not parse.
pub resolve_active_cr-Resolved : (items : List Cr) → Resolved items (resolve_active_cr items)
unfolding resolve_active_cr sort_crs_by_seniority
resolve_active_cr-Resolved items = split (all_parse items) refl
  where
    split :
        (b : Bool)
        → all_parse items ≡ b
        → Resolved items
            (elim (if b then ok (by_seniority items) else guard_error)
              as (λ _. Guarded (Option Cr)) [
                | ok ordered ↦ ok (first_of ordered)
                | guard_error ↦ guard_error
              ])
    split true e = (by_seniority-Elected items, e)
    split false e = e

-- The order in which the list arrives does not matter: two lists with the same members elect the same key.
pub resolve_active_cr-same :
    (xs ys : List Cr) (w v : Cr)
    → ((x : Cr) → Memᴰ x xs → Memᴰ x ys)
    → ((x : Cr) → Memᴰ x ys → Memᴰ x xs)
    → resolve_active_cr xs ≡ ok (some w)
    → resolve_active_cr ys ≡ ok (some v)
    → seniority w ≡ seniority v
resolve_active_cr-same xs ys w v sub sup e f =
    let p = subst (Resolved xs) e (resolve_active_cr-Resolved xs) in
    let q = subst (Resolved ys) f (resolve_active_cr-Resolved ys) in
    is_senior-connected (seniority w) (seniority v) (q.0.1 w (sub w p.0.0)) (p.0.1 v (sup v q.0.0))

-- Every custom resource of the list carries a uid, as the API server gives it.
abbrev pub Identified : List Cr → Type 0
Identified items = (x : Cr) → Memᴰ x items → (or_empty x.uid == "") ≡ false

-- The handlers of exactly one custom resource run.
pub record Served (items : List Cr) (w : Cr) : Type 1 where
  pub listed : Memᴰ w items
  pub runs : {A : Type 0} (tick : A) → gated (some w) (some items) tick ≡ some tick
  pub alone :
      {A : Type 0} (tick : A) (body : Cr)
      → (or_empty body.uid == "") ≡ false
      → gated (some body) (some items) tick ≡ some tick
      → or_empty body.uid ≡ or_empty w.uid

same_cr-uid :
    (a b : Cr)
    → (or_empty a.uid == "") ≡ false
    → (or_empty b.uid == "") ≡ false
    → same_cr a b ≡ true
    → or_empty a.uid ≡ or_empty b.uid
unfolding same_cr
same_cr-uid a b h k e = same_text (or_empty a.uid) (or_empty b.uid) (ground arith)

same_cr_self : (a : Cr) → (or_empty a.uid == "") ≡ false → same_cr a a ≡ true
unfolding same_cr
same_cr_self a h = rw h (text_self (or_empty a.uid))

-- What `gated` makes of the election's result.
abbrev activity : Cr → Guarded (Option Cr) → Guarded Bool
activity body (ok winner) = ok (is_winner body winner)
activity body guard_error = guard_error

abbrev ran_if : {A : Type 0} → A → Guarded Bool → Option A
ran_if tick (ok b) = if b then some tick else none
ran_if tick guard_error = none

ran_same :
    {A : Type 0} (tick : A) (b : Bool) → (if b then some tick else none) ≡ some tick → b ≡ true
ran_same tick true h = refl
ran_same tick false h = cc

gated_runs :
    {A : Type 0} (items : List Cr) (w body : Cr) (tick : A)
    → resolve_active_cr items ≡ ok (some w)
    → gated (some body) (some items) tick ≡ (if same_cr body w then some tick else none)
unfolding gated is_active
gated_runs items w body tick e = ap (ran_if tick) (ap (λ r. activity body r) e)

-- Where every custom resource of a list that is not empty carries a uid and every creation time parses,
-- there is exactly one whose handlers run: those of another uid are skipped.
pub gated-Served :
    (items : List Cr) (x : Cr)
    → Memᴰ x items
    → all_parse items ≡ true
    → Identified items
    → (w : Cr) × Served items w
gated-Served items x m parse ids =
    split (resolve_active_cr items) refl (resolve_active_cr-Resolved items)
  where
    split :
        (r : Guarded (Option Cr))
        → resolve_active_cr items ≡ r
        → Resolved items r
        → (w : Cr) × Served items w
    split (ok none) e h = absurd (h.0 x m)
    split (ok (some w)) e h = (
      w,
      record {
        listed = h.0.0;
        runs = λ tick. gated_runs items w w tick e ∙ rw (same_cr_self w (ids w h.0.0)) refl;
        alone = λ tick body b ran.
            same_cr-uid body w b (ids w h.0.0)
              (ran_same tick (same_cr body w) (sym (gated_runs items w body tick e) ∙ ran));
      },
    )
    split guard_error e h = cc
