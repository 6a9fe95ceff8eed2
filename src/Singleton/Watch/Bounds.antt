-- ===== src/Singleton/Watch/Bounds.antt =====
-- How many fingerprints the watch-event handler keeps.
use openstudio_server_operat.Base.{
  suc, ◌≤◌, ◌<◌, String, Bool, true, false, Option, none, some, List, [], ◌∷◌, ◌≡◌, refl, arith,
  if◌then◌else◌, not, length, ◌==◌,
}
use openstudio_server_operat.CrCache.{Key, is_key}
use openstudio_server_operat.Singleton.RedisEvents.{Listed}
use openstudio_server_operat.Singleton.Watch.{
  max_guard_cache_entries, find, pop, push_last, get, evict, set, Surface, Kind, replayed, added,
  modified, deleted, Event, Reply, Process, Emitted, silent, with_seen, cr_policy_surface, check,
  check_items, skip_guard_relist, unless_skipped, singleton_guard_event, run,
}

module _ {A : Type 0} where
  length-push_last :
      (k : Key) (v : A) (es : List (Key × A)) → length (push_last k v es) ≡ suc (length es)
  length-push_last k v [] = refl
  length-push_last k v (e ∷ es) = omega (arith, length-push_last k v es)

  length-pop : (k : Key) (es : List (Key × A)) → length (pop k es) ≤ length es
  length-pop k [] = omega arith
  length-pop k (e ∷ es) = ground (arith, length-pop k es)

  -- An entry that is found is one that `pop` takes.
  length-pop_found :
      (k : Key) (v : A) (es : List (Key × A)) → find k es ≡ some v → length (pop k es) < length es
  length-pop_found k v [] h = cc
  length-pop_found k v (e ∷ es) h = split (λ g. length-pop_found k v es g) (is_key e.0 k) h
    where
      split :
          (find k es ≡ some v → length (pop k es) < length es)
          → (b : Bool) → (if b then some e.1 else find k es) ≡ some v
          → length (if not b then e ∷ pop k es else pop k es) < suc (length es)
      split rest true h = omega (arith, length-pop k es)
      split rest false h = omega (arith, rest h)

  abbrev Bounded : List (Key × A) → Type 0
  Bounded es = length es ≤ max_guard_cache_entries

  evict-Bounded : (es : List (Key × A)) → Bounded (evict es)
  unfolding evict
  evict-Bounded [] = omega arith
  evict-Bounded (e ∷ es) = ground (arith, evict-Bounded es)

  get-Bounded : (k : Key) (es : List (Key × A)) → Bounded es → Bounded (get k es).1
  unfolding get
  get-Bounded k es h = split (find k es) refl
    where
      split :
          (o : Option A)
          → find k es ≡ o
          → Bounded
              (elim o as (λ _. Option A × List (Key × A)) [
                | none ↦ (none, es)
                | some v ↦ (some v, push_last k v (pop k es))
              ]).1
      split none e = h
      split (some v) e = omega (arith, length-pop_found k v es e, length-push_last k v (pop k es))

  set-Bounded : (k : Key) (v : A) (es : List (Key × A)) → Bounded es → Bounded (set k v es)
  unfolding set
  set-Bounded k v es h = split (find k es) refl
    where
      split :
          (o : Option A)
          → find k es ≡ o
          → Bounded (elim o as (λ _. List (Key × A)) [
            | none ↦ evict (push_last k v es)
            | some _ ↦ push_last k v (pop k es)
          ])
      split none e = evict-Bounded (push_last k v es)
      split (some w) e = omega (arith, length-pop_found k w es e, length-push_last k v (pop k es))

module _ {F : Type 0} where
  pub check-seen :
      (namespace : String) (reply : Reply) (p : Process F)
      → (check namespace reply p).0.seen ≡ p.seen
  unfolding check
  check-seen namespace reply p = split (namespace == "") reply.listing
    where
      split :
          (b : Bool) (listing : Option (List Listed))
          → (if b then (p, silent) else check_items listing reply p).0.seen ≡ p.seen
      split true listing = refl
      split false none = refl
      split false (some items) = refl

module _ {F : Type 0} (same : F → F → Bool) where
  skip-Bounded :
      (e : Event F) (p : Process F) → Bounded p.seen → Bounded (skip_guard_relist same e p).1
  unfolding skip_guard_relist
  skip-Bounded e p h = ground (arith, get-Bounded e.key p.seen h)

  event-Bounded :
      (e : Event F) (reply : Reply) (p : Process F)
      → Bounded p.seen
      → Bounded (singleton_guard_event same e reply p).0.seen
  unfolding singleton_guard_event
  event-Bounded e reply p h = split e.kind
    where
      live :
          (skip : Bool) (seen : List (Key × Surface F))
          → Bounded seen
          → Bounded (unless_skipped same e reply (with_seen seen p) skip).0.seen
      live true seen g = g
      live false seen g =
          set-Bounded e.key (cr_policy_surface e.body) _
            (rw (check-seen e.key.0 reply (with_seen seen p)) g)

      alive :
          Bounded
            (unless_skipped same e reply
              (with_seen (skip_guard_relist same e p).1 p)
              (skip_guard_relist same e p).0).0.seen
      alive =
          live (skip_guard_relist same e p).0 (skip_guard_relist same e p).1 (skip-Bounded e p h)

      split :
          (kind : Kind)
          → Bounded
              (elim kind as (λ _. Process F × Emitted) [
                | deleted ↦ check e.key.0 reply (with_seen (pop e.key p.seen) p)
                | _ ↦
                    let (skip, seen) = skip_guard_relist same e p in
                    unless_skipped same e reply (with_seen seen p) skip
              ]).0.seen
      split deleted =
          rw (check-seen e.key.0 reply (with_seen (pop e.key p.seen) p))
            (omega (arith, length-pop e.key p.seen))
      split replayed = alive
      split added = alive
      split modified = alive

  -- Over any run of watch events from the start of the process, the handler keeps at most `max_guard_cache_entries`
  -- fingerprints.
  pub run_bounded :
      (xs : List (Event F × Reply)) → length (run same xs).0.seen ≤ max_guard_cache_entries
  unfolding run
  run_bounded [] = omega arith
  run_bounded (x ∷ xs) = event-Bounded x.0 x.1 (run same xs).0 (run_bounded xs)
