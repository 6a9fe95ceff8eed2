-- ===== src/Singleton/Watch/Once.antt =====
-- The one-time Events of the singleton guard over any run of watch events.
use openstudio_server_operat.Base.{
  ℕ, ◌+◌, ◌≤◌, String, Bool, true, false, Option, none, some, List, [], ◌∷◌, ◌++◌, ◌≡◌, refl, ap,
  ◌∙◌, arith, if◌then◌else◌, ◌==◌,
}
use openstudio_server_operat.CrCache.{Key, is_key}
use openstudio_server_operat.CrCache.Lookups.{key_path}
use openstudio_server_operat.Config.{RedisSecretRef}
use openstudio_server_operat.Singleton.RedisEvents.{
  Listed, Probe, resolved, forbidden, failed, Finding, nothing, marked, denied, has_key, has_no_url,
  item_key, unwarned, url_due, outcome, probe_ref, probe_item, redis_secret_ref_of,
  emit_redis_url_guard_events, emit_redis_secret_ref_forbidden_events,
}
use openstudio_server_operat.Singleton.Watch.{
  Event, Reply, Process, Emitted, check, check_items, singleton_guard_event, run, skip_guard_relist,
  Kind, replayed, added, modified, deleted, unless_skipped, with_seen, pop, Surface, silent, join,
}

abbrev pub times : Key → List Key → ℕ
times k [] = 0
times k (x ∷ xs) = (if is_key k x then 1 else 0) + times k xs

-- 1 for a key that is in the set.
abbrev marks : Key → List Key → ℕ
marks k warned = if has_key k warned then 1 else 0

times-append : (k : Key) (xs ys : List Key) → times k (xs ++ ys) ≡ times k xs + times k ys
times-append k [] ys = omega arith
times-append k (x ∷ xs) ys = ground (arith, times-append k xs ys)

-- What is emitted for a key is paid for by its new mark.
unfoldable Paid : Key → List Key → List Key × List Key → Type 0
Paid k warned (after, out) = times k out + marks k warned ≤ marks k after

abbrev New : List Key → Key → Type 0
New warned key = has_key key warned ≡ false

unwarned-New :
    (warned : List Key) (o : Option Key) (key : Key) → unwarned warned o ≡ some key → New warned key
unwarned-New warned none key e = cc
unwarned-New warned (some k) key e = split (has_key k warned) refl e
  where
    split :
        (b : Bool) → has_key k warned ≡ b → (if b then none else some k) ≡ some key → New warned key
    split true h e = cc
    split false h e = cc

marks-New :
    (k key : Key) (warned : List Key)
    → New warned key
    → (if is_key k key then 1 else 0) + marks k warned ≤ marks k (key ∷ warned)
marks-New k key warned h = split (is_key k key) refl
  where
    unmarked : is_key k key ≡ true → has_key k warned ≡ false
    unmarked e = ap (λ x. has_key x warned) (key_path k key e) ∙ h

    split :
        (b : Bool)
        → is_key k key ≡ b
        → (if b then 1 else 0) + marks k warned ≤ marks k (key ∷ warned)
    split true e = ground (arith, unmarked e, e)
    split false e = ground (arith, e)

url_due-New :
    (x : Listed) (warned : List Key) (key : Key) → url_due x warned ≡ some key → New warned key
url_due-New x warned key e = split (has_no_url x.spec) e
  where
    split :
        (b : Bool) → (if b then unwarned warned (item_key x) else none) ≡ some key → New warned key
    split true e = unwarned-New warned (item_key x) key e
    split false e = cc

url-Paid :
    (k : Key) (items : List Listed) (warned : List Key)
    → Paid k warned (emit_redis_url_guard_events items warned)
unfolding Paid emit_redis_url_guard_events
url-Paid k [] warned = omega arith
url-Paid k (x ∷ xs) warned = split (λ w. url-Paid k xs w) (url_due x warned) refl
  where
    split :
        ((w : List Key) → Paid k w (emit_redis_url_guard_events xs w))
        → (o : Option Key) → url_due x warned ≡ o
        → Paid k warned (elim o as (λ _. List Key × List Key) [
          | none ↦ emit_redis_url_guard_events xs warned
          | some key ↦
              let rest = emit_redis_url_guard_events xs (key ∷ warned) in (rest.0, key ∷ rest.1)
        ])
    split rest none e = rest warned
    split rest (some key) e =
        omega (arith, rest (key ∷ warned), marks-New k key warned (url_due-New x warned key e))

-- What the key of a finding is.
abbrev Fresh : List Key → Finding → Type 0
Fresh warned nothing = Unit
Fresh warned (marked key) = New warned key
Fresh warned (denied key) = New warned key

probe_item-Fresh :
    (probe : String → RedisSecretRef → Probe) (x : Listed) (warned : List Key)
    → Fresh warned (probe_item probe x warned)
probe_item-Fresh probe x warned =
    split (unwarned warned (item_key x)) (redis_secret_ref_of x.spec) refl
  where
    by_probe : (key : Key) (p : Probe) → New warned key → Fresh warned (outcome key p)
    by_probe key resolved h = h
    by_probe key forbidden h = h
    by_probe key failed h = tt

    split :
        (o : Option Key) (ref : Option RedisSecretRef)
        → unwarned warned (item_key x) ≡ o
        → Fresh warned (probe_ref probe o ref)
    split none none e = tt
    split none (some ref) e = tt
    split (some key) none e = tt
    split (some key) (some ref) e =
        by_probe key (probe key.0 ref) (unwarned-New warned (item_key x) key e)

forbidden-Paid :
    (probe : String → RedisSecretRef → Probe) (k : Key) (items : List Listed) (warned : List Key)
    → Paid k warned (emit_redis_secret_ref_forbidden_events probe items warned)
unfolding Paid emit_redis_secret_ref_forbidden_events
forbidden-Paid probe k [] warned = omega arith
forbidden-Paid probe k (x ∷ xs) warned =
    split (λ w. forbidden-Paid probe k xs w) (probe_item probe x warned)
      (probe_item-Fresh probe x warned)
  where
    split :
        ((w : List Key) → Paid k w (emit_redis_secret_ref_forbidden_events probe xs w))
        → (f : Finding) → Fresh warned f
        → Paid k warned (elim f as (λ _. List Key × List Key) [
          | nothing ↦ emit_redis_secret_ref_forbidden_events probe xs warned
          | marked key ↦ emit_redis_secret_ref_forbidden_events probe xs (key ∷ warned)
          | denied key ↦
              let rest = emit_redis_secret_ref_forbidden_events probe xs (key ∷ warned) in
              (rest.0, key ∷ rest.1)
        ])
    split rest nothing h = rest warned
    split rest (marked key) h = omega (arith, rest (key ∷ warned), marks-New k key warned h)
    split rest (denied key) h = omega (arith, rest (key ∷ warned), marks-New k key warned h)

-- What holds of the Events so far: each one is paid for by a mark.
module _ {F : Type 0} where
  abbrev Once : Key → Process F × Emitted → Type 0
  Once k (p, out) =
      (times k out.url ≤ marks k p.url_warned) × (times k out.refused ≤ marks k p.forbidden_warned)

  -- A step that pays for what it emits.
  unfoldable Pays : Key → Process F → Process F × Emitted → Type 0
  Pays k p (after, new) =
      Paid k p.url_warned (after.url_warned, new.url)
      × Paid k p.forbidden_warned (after.forbidden_warned, new.refused)

  check-Pays :
      (namespace : String) (reply : Reply) (k : Key) (p : Process F)
      → Pays k p (check namespace reply p)
  unfolding Pays Paid check
  check-Pays namespace reply k p = split (namespace == "") reply.listing
    where
      split :
          (b : Bool) (listing : Option (List Listed))
          → Pays k p (if b then (p, silent) else check_items listing reply p)
      split true listing = (omega arith, omega arith)
      split false none = (omega arith, omega arith)
      split false (some items) =
          (url-Paid k items p.url_warned, forbidden-Paid reply.probe k items p.forbidden_warned)

module _ {F : Type 0} (same : F → F → Bool) where
  event-Pays :
      (e : Event F) (reply : Reply) (k : Key) (p : Process F)
      → Pays k p (singleton_guard_event same e reply p)
  unfolding Pays Paid singleton_guard_event
  event-Pays e reply k p = split e.kind
    where
      live :
          (skip : Bool) (seen : List (Key × Surface F))
          → Pays k p (unless_skipped same e reply (with_seen seen p) skip)
      live true seen = (omega arith, omega arith)
      live false seen = check-Pays e.key.0 reply k (with_seen seen p)

      split :
          (kind : Kind)
          → Pays k p (elim kind as (λ _. Process F × Emitted) [
            | deleted ↦ check e.key.0 reply (with_seen (pop e.key p.seen) p)
            | _ ↦
                let (skip, seen) = skip_guard_relist same e p in
                unless_skipped same e reply (with_seen seen p) skip
          ])
      split deleted = check-Pays e.key.0 reply k (with_seen (pop e.key p.seen) p)
      split replayed = live (skip_guard_relist same e p).0 (skip_guard_relist same e p).1
      split added = live (skip_guard_relist same e p).0 (skip_guard_relist same e p).1
      split modified = live (skip_guard_relist same e p).0 (skip_guard_relist same e p).1

  step-Once :
      (k : Key) (p : Process F) (out : Emitted) (r : Process F × Emitted)
      → Once k (p, out)
      → Pays k p r
      → Once k (r.0, join out r.1)
  unfolding Pays Paid
  step-Once k p out r h g = (
    omega (arith, h.0, g.0, times-append k out.url r.1.url),
    omega (arith, h.1, g.1, times-append k out.refused r.1.refused),
  )

  run-Once : (k : Key) (xs : List (Event F × Reply)) → Once k (run same xs)
  unfolding run
  run-Once k [] = (omega arith, omega arith)
  run-Once k (x ∷ xs) =
      step-Once k (run same xs).0 (run same xs).1
        (singleton_guard_event same x.0 x.1 (run same xs).0) (run-Once k xs)
        (event-Pays x.0 x.1 k (run same xs).0)

  -- Over any run of watch events from the start of the process, whatever the cluster answers, a custom resource
  -- gets at most one Event about an empty Redis URL, and at most one about a forbidden Secret.
  pub run_once :
      (xs : List (Event F × Reply)) (k : Key)
      → (times k (run same xs).1.url ≤ 1) × (times k (run same xs).1.refused ≤ 1)
  run_once xs k = (ground (arith, (run-Once k xs).0), ground (arith, (run-Once k xs).1))
