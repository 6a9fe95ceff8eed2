-- ===== src/Singleton/Watch/Skips.antt =====
-- What the fingerprints of the watch-event handler stand for: which events go without a relist.
use openstudio_server_operat.Base.{
  Bool, true, false, Option, none, some, List, [], ◌∷◌, ◌≡◌, refl, ap, arith, if◌then◌else◌, ◌&&◌,
  same_text, is_some,
}
use openstudio_server_operat.CrCache.{Key, is_key}
use openstudio_server_operat.CrCache.Lookups.{key_self}
use openstudio_server_operat.Singleton.{Snapshot}
use openstudio_server_operat.Singleton.Watch.{
  find, pop, push_last, get, Surface, Kind, replayed, added, modified, deleted, Event, Reply,
  Process, Emitted, is_modified, with_seen, cr_policy_surface, check, same_option, same_surface,
  compare_found, skip_guard_relist, unless_skipped, singleton_guard_event, run,
}
use openstudio_server_operat.Singleton.Watch.Bounds.{check-seen}
use openstudio_server_operat.Singleton.Watch.Entries.{
  Holds, Passes, pop-Holds, push_last-Holds, find-Holds, set-Holds,
}

module _ {F : Type 0} where
  -- The surface that an event leaves: none after a DELETED one.
  abbrev pub surface_left : Event F → Option (Surface F)
  surface_left e = elim e.kind [
    | deleted ↦ none
    | replayed ↦ some (cr_policy_surface e.body)
    | added ↦ some (cr_policy_surface e.body)
    | modified ↦ some (cr_policy_surface e.body)
  ]

  -- The surface that the latest event of a custom resource leaves, in a run with the latest event first.
  abbrev pub last_surface : Key → List (Event F × Reply) → Option (Surface F)
  last_surface k [] = none
  last_surface k (x ∷ xs) = if is_key k x.0.key then surface_left x.0 else last_surface k xs

  -- A fingerprint is the surface that the latest event leaves.
  abbrev IsLatest : List (Event F × Reply) → Key → Surface F → Type 0
  IsLatest xs k s = last_surface k xs ≡ some s

  passes_on :
      (x : Event F × Reply) (xs : List (Event F × Reply))
      → Passes x.0.key (IsLatest xs) (IsLatest (x ∷ xs))
  passes_on x xs j s h e = rw h e

  live-IsLatest :
      (x : Event F × Reply) (xs : List (Event F × Reply))
      → surface_left x.0 ≡ some (cr_policy_surface x.0.body)
      → IsLatest (x ∷ xs) x.0.key (cr_policy_surface x.0.body)
  live-IsLatest x xs e = rw (key_self x.0.key) e

module _ {F : Type 0} (same : F → F → Bool) where
  -- The decision and the cache by whether the look-up happens and what it finds.
  abbrev pub looked_at :
      Event F → Process F → Bool → Option (Surface F) → Bool × List (Key × Surface F)
  looked_at e p b o = elim b [
    | true ↦
        compare_found same (cr_policy_surface e.body) (elim o [
          | none ↦ (none, p.seen)
          | some v ↦ (some v, push_last e.key v (pop e.key p.seen))
        ])
    | false ↦ (false, p.seen)
  ]

module _ {F : Type 0} (same : F → F → Bool) (sound : (a b : F) → same a b ≡ true → a ≡ b) where
  same_option_path : (a b : Option F) → same_option same a b ≡ true → a ≡ b
  same_option_path none none h = refl
  same_option_path none (some b) h = cc
  same_option_path (some a) none h = cc
  same_option_path (some a) (some b) h = ap (λ x. some x) (sound a b h)

  pub same_surface_path : (a b : Surface F) → same_surface same a b ≡ true → a ≡ b
  same_surface_path a b h = λ i. record {
    uid = same_text a.uid b.uid (ground arith) i;
    spec = same_option_path a.spec b.spec (ground arith) i;
    labels = same_option_path a.labels b.labels (ground arith) i;
    annotations = same_option_path a.annotations b.annotations (ground arith) i;
    deletion = same_text a.deletion b.deletion (ground arith) i;
  }

  -- What the look-up of a fingerprint leaves, where a repeat of the surface counts as the latest.
  skip-Latest :
      (x : Event F × Reply) (xs : List (Event F × Reply)) (p : Process F)
      → surface_left x.0 ≡ some (cr_policy_surface x.0.body)
      → Holds (IsLatest xs) p.seen
      → (skip_guard_relist same x.0 p).0 ≡ true
      → Holds (IsLatest (x ∷ xs)) (skip_guard_relist same x.0 p).1
  unfolding skip_guard_relist get
  skip-Latest x xs p e h = split (is_modified x.0.kind && is_some p.last) (find x.0.key p.seen)
    where
      split :
          (b : Bool) (o : Option (Surface F))
          → (looked_at same x.0 p b o).0 ≡ true
          → Holds (IsLatest (x ∷ xs)) (looked_at same x.0 p b o).1
      split false o g = cc
      split true none g = cc
      split true (some v) g =
          push_last-Holds x.0.key v (IsLatest (x ∷ xs)) (pop x.0.key p.seen)
            (rw (same_surface_path v _ g) (live-IsLatest x xs e))
            (pop-Holds x.0.key (IsLatest xs) (IsLatest (x ∷ xs)) p.seen (passes_on x xs) h)

  -- Any look-up keeps what holds of all fingerprints.
  skip-Holds :
      (e : Event F) (P : Key → Surface F → Type 0) (p : Process F)
      → Holds P p.seen
      → Holds P (skip_guard_relist same e p).1
  unfolding skip_guard_relist get
  skip-Holds e P p h = split (is_modified e.kind && is_some p.last) (find e.key p.seen) refl
    where
      split :
          (b : Bool) (o : Option (Surface F))
          → find e.key p.seen ≡ o
          → Holds P (looked_at same e p b o).1
      split false o g = h
      split true none g = h
      split true (some v) g =
          push_last-Holds e.key v P (pop e.key p.seen) (find-Holds e.key v P p.seen h g)
            (pop-Holds e.key P P p.seen (λ j w _ y. y) h)

  event-Latest :
      (x : Event F × Reply) (xs : List (Event F × Reply)) (p : Process F)
      → Holds (IsLatest xs) p.seen
      → Holds (IsLatest (x ∷ xs)) (singleton_guard_event same x.0 x.1 p).0.seen
  unfolding singleton_guard_event
  event-Latest x xs p h = split x.0.kind refl
    where
      key : Key
      key = x.0.key

      looked : Bool × List (Key × Surface F)
      looked = skip_guard_relist same x.0 p

      live :
          surface_left x.0 ≡ some (cr_policy_surface x.0.body)
          → (b : Bool) → looked.0 ≡ b
          → Holds (IsLatest (x ∷ xs)) (unless_skipped same x.0 x.1 (with_seen looked.1 p) b).0.seen
      live e true g = skip-Latest x xs p e h g
      live e false g =
          set-Holds key _ (IsLatest xs) (IsLatest (x ∷ xs)) _ (passes_on x xs)
            (live-IsLatest x xs e)
            (rw (check-seen key.0 x.1 (with_seen looked.1 p)) (skip-Holds x.0 (IsLatest xs) p h))

      split :
          (kind : Kind)
          → x.0.kind ≡ kind
          → Holds
              (IsLatest (x ∷ xs))
              (elim kind as (λ _. Process F × Emitted) [
                | deleted ↦ check key.0 x.1 (with_seen (pop key p.seen) p)
                | _ ↦ unless_skipped same x.0 x.1 (with_seen looked.1 p) looked.0
              ]).0.seen
      split deleted e =
          rw (check-seen key.0 x.1 (with_seen (pop key p.seen) p))
            (pop-Holds key (IsLatest xs) (IsLatest (x ∷ xs)) p.seen (passes_on x xs) h)
      split replayed e = live (rw e refl) looked.0 refl
      split added e = live (rw e refl) looked.0 refl
      split modified e = live (rw e refl) looked.0 refl

  run-Latest : (xs : List (Event F × Reply)) → Holds (IsLatest xs) (run same xs).0.seen
  unfolding run
  run-Latest [] = tt
  run-Latest (x ∷ xs) = event-Latest x xs (run same xs).0 (run-Latest xs)

  -- The fingerprint that a decision to skip relies on.
  pub skip_found :
      (e : Event F) (p : Process F)
      → (skip_guard_relist same e p).0 ≡ true
      → (e.kind ≡ modified)
        × ((is_some p.last ≡ true) × (find e.key p.seen ≡ some (cr_policy_surface e.body)))
  unfolding skip_guard_relist get
  skip_found e p = split e.kind p.last (find e.key p.seen)
    where
      split :
          (kind : Kind) (last : Option Snapshot) (o : Option (Surface F))
          → (looked_at same e p (is_modified kind && is_some last) o).0 ≡ true
          → (kind ≡ modified) × ((is_some last ≡ true) × (o ≡ some (cr_policy_surface e.body)))
      split replayed last o h = cc
      split added last o h = cc
      split deleted last o h = cc
      split modified none o h = cc
      split modified (some s) none h = cc
      split modified (some s) (some v) h =
          (refl, (refl, ap (λ x. some x) (same_surface_path v _ h)))

  -- After any run of watch events from the start of the process, an event goes without a relist only if it is a
  -- MODIFIED one, the guard has resolved the namespace, and the latest earlier event of the same custom resource was
  -- no DELETED one and had the same surface.
  pub skip_guard_relist-last_surface :
      (xs : List (Event F × Reply)) (e : Event F)
      → (skip_guard_relist same e (run same xs).0).0 ≡ true
      → (e.kind ≡ modified)
        × ((is_some (run same xs).0.last ≡ true)
            × (last_surface e.key xs ≡ some (cr_policy_surface e.body)))
  skip_guard_relist-last_surface xs e h =
      let (kind, resolved) = skip_found e (run same xs).0 h in
      (
        kind,
        (
          resolved.0,
          find-Holds e.key _ (IsLatest xs) (run same xs).0.seen (run-Latest xs) resolved.1,
        ),
      )
