-- ===== src/Singleton/Watch/Missed.antt =====
-- A relist that fails, seen from the next watch event.
use openstudio_server_operat.Base.{
  String, Bool, true, false, Option, none, some, List, ◌≡◌, refl, sym, ap, ◌∙◌, arith,
  if◌then◌else◌, ◌==◌, text_self, is_some, ◌&&◌,
}
use openstudio_server_operat.CrCache.{Key}
use openstudio_server_operat.Singleton.RedisEvents.{Listed}
use openstudio_server_operat.Singleton.Watch.{
  find, pop, get, Surface, Kind, replayed, added, modified, deleted, Event, Reply, Process, Emitted,
  silent, is_modified, with_seen, cr_policy_surface, check, check_items, same_option, same_surface,
  skip_guard_relist, unless_skipped, singleton_guard_event,
}
use openstudio_server_operat.Singleton.Watch.Entries.{find-push_last, find-set}
use openstudio_server_operat.Singleton.Watch.Skips.{looked_at, skip_found}

module _ {F : Type 0} where
  -- A check without its list changes nothing.
  check_unlisted :
      (namespace : String) (reply : Reply) (p : Process F)
      → reply.listing ≡ none
      → (check namespace reply p).0 ≡ p
  unfolding check
  check_unlisted namespace reply p h = split (namespace == "") reply.listing h
    where
      split :
          (b : Bool) (listing : Option (List Listed))
          → listing ≡ none
          → (if b then (p, silent) else check_items listing reply p).0 ≡ p
      split true listing e = refl
      split false none e = refl
      split false (some items) e = cc

module _ {F : Type 0} (same : F → F → Bool) (sound : (a b : F) → same a b ≡ true → a ≡ b)
    (reflexive : (a : F) → same a a ≡ true) where
  same_option_self : (o : Option F) → same_option same o o ≡ true
  same_option_self none = refl
  same_option_self (some a) = reflexive a

  same_surface_self : (s : Surface F) → same_surface same s s ≡ true
  same_surface_self s = ground (
    arith,
    text_self s.uid,
    same_option_self s.spec,
    same_option_self s.labels,
    same_option_self s.annotations,
    text_self s.deletion,
  )

  -- A resolved guard skips a MODIFIED event whose surface is recorded.
  skip_recorded :
      (e : Event F) (p : Process F)
      → e.kind ≡ modified
      → is_some p.last ≡ true
      → find e.key p.seen ≡ some (cr_policy_surface e.body)
      → (skip_guard_relist same e p).0 ≡ true
  unfolding skip_guard_relist get
  skip_recorded e p h g f =
      ap (λ k. (looked_at same e p (is_modified k && is_some p.last) (find e.key p.seen)).0) h
      ∙ ap (λ b. (looked_at same e p b (find e.key p.seen)).0) g
      ∙ ap (λ o. (looked_at same e p true o).0) f
      ∙ same_surface_self (cr_policy_surface e.body)

  -- What is found after a look-up: the same.
  find_looked :
      (e : Event F) (p : Process F)
      → (skip_guard_relist same e p).0 ≡ true
      → find e.key (skip_guard_relist same e p).1 ≡ some (cr_policy_surface e.body)
  unfolding skip_guard_relist get
  find_looked e p h =
      let (kind, found) = skip_found same sound e p h in
      ap
        (λ k.
          find e.key (looked_at same e p (is_modified k && is_some p.last) (find e.key p.seen)).1)
        kind
      ∙ ap (λ b. find e.key (looked_at same e p b (find e.key p.seen)).1) found.0
      ∙ ap (λ o. find e.key (looked_at same e p true o).1) found.1
      ∙ find-push_last e.key (cr_policy_surface e.body) p.seen

  event_recorded :
      (e : Event F) (reply : Reply) (p : Process F)
      → ¬ (e.kind ≡ deleted)
      → reply.listing ≡ none
      → let after = (singleton_guard_event same e reply p).0 in
        (after.last ≡ p.last) × (find e.key after.seen ≡ some (cr_policy_surface e.body))
  unfolding singleton_guard_event
  event_recorded e reply p h unlisted = split e.kind h
    where
      looked : Bool × List (Key × Surface F)
      looked = skip_guard_relist same e p

      live :
          (b : Bool)
          → looked.0 ≡ b
          → let after = (unless_skipped same e reply (with_seen looked.1 p) b).0 in
            (after.last ≡ p.last) × (find e.key after.seen ≡ some (cr_policy_surface e.body))
      live true g = (refl, find_looked e p g)
      live false g = (
        ap (λ q. q.last) (check_unlisted e.key.0 reply (with_seen looked.1 p) unlisted),
        find-set e.key (cr_policy_surface e.body) _,
      )

      split :
          (kind : Kind)
          → ¬ (kind ≡ deleted)
          → let after =
              (elim kind as (λ _. Process F × Emitted) [
                | deleted ↦ check e.key.0 reply (with_seen (pop e.key p.seen) p)
                | _ ↦ unless_skipped same e reply (with_seen looked.1 p) looked.0
              ]).0 in
            (after.last ≡ p.last) × (find e.key after.seen ≡ some (cr_policy_surface e.body))
      split deleted k = absurd (k refl)
      split replayed k = live looked.0 refl
      split added k = live looked.0 refl
      split modified k = live looked.0 refl

  -- Once the guard has resolved the namespace, an event (no DELETED one) whose list fails is not made up for by a
  -- MODIFIED event of the same custom resource with the same surface: that one goes without a relist.
  pub singleton_guard_event_missed :
      (e next : Event F) (reply : Reply) (p : Process F)
      → is_some p.last ≡ true
      → ¬ (e.kind ≡ deleted)
      → reply.listing ≡ none
      → next.kind ≡ modified
      → next.key ≡ e.key
      → cr_policy_surface next.body ≡ cr_policy_surface e.body
      → (skip_guard_relist same next (singleton_guard_event same e reply p).0).0 ≡ true
  singleton_guard_event_missed e next reply p resolved live unlisted kind key surface =
      let (last, found) = event_recorded e reply p live unlisted in
      skip_recorded next (singleton_guard_event same e reply p).0 kind
        (ap (λ s. is_some s) last ∙ resolved) (rw key (found ∙ ap (λ s. some s) (sym surface)))
