-- ===== src/Singleton/Noise.antt =====
-- The change-gated Events of `enforce`: a snapshot that has been seen is silent.
use mathlib.Core.Path.{subst}
use mathlib.Core.List.{Memᴰ}
use mathlib.Core.List.Memᴰ.{head, tail}
use openstudio_server_operat.Base.{
  String, Bool, true, false, Option, none, some, List, [], ◌∷◌, ◌≡◌, refl, sym, ap, arith, not,
  same_text, text_self, if◌then◌else◌, ◌==◌, map, member,
}
use openstudio_server_operat.Singleton.{
  Cr, Guarded, ok, guard_error, seniority, resolve_active_cr, is_winner, cr_name, same_field,
  Snapshot, subset, same_snapshot, is_known, losers, snapshot, enforce, GuardEvent, all_parse,
  guard_events,
}
use openstudio_server_operat.Singleton.Election.{
  Resolved, resolve_active_cr-Resolved, resolve_active_cr-same,
}

member-head : (s : String) (ss : List String) → member s (s ∷ ss) ≡ true
member-head s ss = rw (text_self s) refl

member-tail : (s x : String) (ss : List String) → member s ss ≡ true → member s (x ∷ ss) ≡ true
member-tail s x ss m = ground arith

member-subset :
    (s : String) (ss ts : List String)
    → subset ss ts ≡ true
    → member s ss ≡ true
    → member s ts ≡ true
member-subset s [] ts h m = cc
member-subset s (x ∷ ss) ts h m = split (λ h' m'. member-subset s ss ts h' m') (s == x) refl
  where
    split :
        (subset ss ts ≡ true → member s ss ≡ true → member s ts ≡ true)
        → (b : Bool) → (s == x) ≡ b
        → member s ts ≡ true
    split ih true e = subst (λ t. member t ts ≡ true) (sym (same_text s x e)) (ground arith)
    split ih false e = ih (ground arith) (ground arith)

subset-all :
    (ss ts : List String)
    → ((s : String) → member s ss ≡ true → member s ts ≡ true)
    → subset ss ts ≡ true
subset-all [] ts h = refl
subset-all (s ∷ ss) ts h =
    rw (h s (member-head s ss)) (subset-all ss ts (λ t m. h t (member-tail t s ss m)))

subset_trans :
    (ss ts us : List String) → subset ss ts ≡ true → subset ts us ≡ true → subset ss us ≡ true
subset_trans ss ts us h k =
    subset-all ss us (λ s m. member-subset s ts us k (member-subset s ss ts h m))

same_field_trans :
    (a b c : Option String) → same_field a b ≡ true → same_field b c ≡ true → same_field a c ≡ true
same_field_trans none none c h k = k
same_field_trans none (some t) c h k = cc
same_field_trans (some s) none c h k = cc
same_field_trans (some s) (some t) none h k = cc
same_field_trans (some s) (some t) (some u) h k = rw (same_text s t h) k

same_field_self : (o : Option String) → same_field o o ≡ true
same_field_self none = refl
same_field_self (some s) = text_self s

same_snapshot_self : (a : Snapshot) → same_snapshot a a ≡ true
unfolding same_snapshot
same_snapshot_self a = rw (same_field_self a.0) (rw (subset-all a.1 a.1 (λ s m. m)) refl)

same_snapshot_trans :
    (a b c : Snapshot)
    → same_snapshot a b ≡ true
    → same_snapshot b c ≡ true
    → same_snapshot a c ≡ true
unfolding same_snapshot
same_snapshot_trans a b c h k =
    ground (arith, same_field_trans a.0 b.0 c.0, subset_trans a.1 b.1 c.1, subset_trans c.1 b.1 a.1)

-- The names of the losers are among those of a list that has all the members.
member-names :
    (winner : Option Cr) (x : Cr) (ys : List Cr)
    → Memᴰ x ys
    → is_winner x winner ≡ false
    → member (cr_name x) (map cr_name (losers winner ys)) ≡ true
member-names winner x [] m e = elim m [ ]
member-names winner x (y ∷ ys) (head p) e =
    rw (sym p) (rw e (member-head (cr_name x) (map cr_name (losers winner ys))))
member-names winner x (y ∷ ys) (tail m) e =
    split (is_winner y winner) (member-names winner x ys m e)
  where
    split :
        (b : Bool)
        → member (cr_name x) (map cr_name (losers winner ys)) ≡ true
        → member
            (cr_name x)
            (map cr_name (if not b then y ∷ losers winner ys else losers winner ys))
          ≡ true
    split true h = h
    split false h = member-tail (cr_name x) (cr_name y) (map cr_name (losers winner ys)) h

subset-names :
    (winner : Option Cr) (xs ys : List Cr)
    → ((x : Cr) → Memᴰ x xs → Memᴰ x ys)
    → subset (map cr_name (losers winner xs)) (map cr_name (losers winner ys)) ≡ true
subset-names winner [] ys sub = refl
subset-names winner (x ∷ xs) ys sub =
    split (is_winner x winner) refl (subset-names winner xs ys (λ z m. sub z (tail m)))
  where
    split :
        (b : Bool)
        → is_winner x winner ≡ b
        → subset (map cr_name (losers winner xs)) (map cr_name (losers winner ys)) ≡ true
        → subset
            (map cr_name (if not b then x ∷ losers winner xs else losers winner xs))
            (map cr_name (losers winner ys))
          ≡ true
    split true e h = h
    split false e h = rw (member-names winner x ys (sub x (head refl)) e) h

module _ (xs ys : List Cr) (sub : (x : Cr) → Memᴰ x xs → Memᴰ x ys)
    (sup : (x : Cr) → Memᴰ x ys → Memᴰ x xs)
    (keys : (x y : Cr) → Memᴰ x xs → Memᴰ y xs → seniority x ≡ seniority y → x ≡ y) where
  same_winner :
      (o p : Option Cr) → resolve_active_cr xs ≡ ok o → resolve_active_cr ys ≡ ok p → o ≡ p
  same_winner none none e f = refl
  same_winner none (some v) e f =
      let a = subst (Resolved xs) e (resolve_active_cr-Resolved xs) in
      let b = subst (Resolved ys) f (resolve_active_cr-Resolved ys) in absurd (a.0 v (sup v b.0.0))
  same_winner (some w) none e f =
      let a = subst (Resolved xs) e (resolve_active_cr-Resolved xs) in
      let b = subst (Resolved ys) f (resolve_active_cr-Resolved ys) in absurd (b.0 w (sub w a.0.0))
  same_winner (some w) (some v) e f =
      let a = subst (Resolved xs) e (resolve_active_cr-Resolved xs) in
      let b = subst (Resolved ys) f (resolve_active_cr-Resolved ys) in
      ap (λ x. some x) (keys w v a.0.0 (sup v b.0.0) (resolve_active_cr-same xs ys w v sub sup e f))

  -- The second of two snapshots with the same members counts as seen.
  known_again :
      (winner : Option Cr) (last : Snapshot)
      → same_snapshot (snapshot winner xs) last ≡ true
      → same_snapshot (snapshot winner ys) last ≡ true
  unfolding same_snapshot
  known_again winner last h =
      same_snapshot_trans (snapshot winner ys) (snapshot winner xs) last
        (rw (same_field_self (snapshot winner ys).0)
          (rw (subset-names winner ys xs sup) (subset-names winner xs ys sub)))
        h

  abbrev noted :
      Bool → Option Snapshot → Option Cr → List Cr → Guarded (Option Snapshot × List GuardEvent)
  noted b last winner items =
      if b
      then ok (last, [])
      else ok (some (snapshot winner items), guard_events winner (losers winner items))

  -- What `enforce` makes of an elected one, and of a failed election.
  abbrev settle :
      List Cr → Option Snapshot → Guarded (Option Cr) → Guarded (Option Snapshot × List GuardEvent)
  settle items last (ok winner) = noted (is_known (snapshot winner items) last) last winner items
  settle items last guard_error = guard_error

  silent :
      (winner : Option Cr) (last after : Option Snapshot) (events : List GuardEvent)
      → settle xs last (ok winner) ≡ ok (after, events)
      → settle ys after (ok winner) ≡ ok (after, [])
  silent winner last after events e = split (is_known (snapshot winner xs) last) refl e
    where
      seen :
          (l : Option Snapshot)
          → is_known (snapshot winner xs) l ≡ true
          → settle ys l (ok winner) ≡ ok (l, [])
      seen none h = cc
      seen (some l) h = rw (known_again winner l h) refl

      split :
          (b : Bool)
          → is_known (snapshot winner xs) last ≡ b
          → noted b last winner xs ≡ ok (after, events)
          → settle ys after (ok winner) ≡ ok (after, [])
      split true h e =
          subst (λ l. settle ys l (ok winner) ≡ ok (l, [])) (ground arith) (seen last h)
      split false h e =
          subst (λ l. settle ys l (ok winner) ≡ ok (l, [])) (ground arith)
            (seen (some (snapshot winner xs)) (same_snapshot_self (snapshot winner xs)))

  -- After `enforce` has taken note of a list, a list with the same members in any order is silent: no Event is
  -- emitted and the state stays, where no two of the members have the same key and every creation time parses.
  pub enforce-silent :
      (last after : Option Snapshot) (events : List GuardEvent)
      → all_parse ys ≡ true
      → enforce xs last ≡ ok (after, events)
      → enforce ys after ≡ ok (after, [])
  unfolding enforce
  enforce-silent last after events parse e =
      split (resolve_active_cr xs) refl (resolve_active_cr ys) refl e
    where
      clash : {P : Type 0} → all_parse ys ≡ false → P
      clash f = cc

      split :
          (r : Guarded (Option Cr))
          → resolve_active_cr xs ≡ r
          → (q : Guarded (Option Cr)) → resolve_active_cr ys ≡ q
          → settle xs last r ≡ ok (after, events)
          → settle ys after q ≡ ok (after, [])
      split guard_error h q k e = cc
      split (ok o) h guard_error k e = clash (subst (Resolved ys) k (resolve_active_cr-Resolved ys))
      split (ok o) h (ok p) k e =
          subst (λ winner. settle ys after (ok winner) ≡ ok (after, [])) (same_winner o p h k)
            (silent o last after events e)
