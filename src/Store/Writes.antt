-- ===== src/Store/Writes.antt =====
-- The writes of the typed accessors, as instances of a write of one entry.
use openstudio_server_operat.Base.{String, Option, some, none, refl, ◌≡◌}
use mathlib.Core.Path.{subst}
use openstudio_server_operat.Base.Dict.{Dict, lookup}
use openstudio_server_operat.Clock.{Time}
use openstudio_server_operat.Status.Merge
use openstudio_server_operat.Status.{Status, MapField, RequeueRecord, requeue_dec}
use openstudio_server_operat.World.{Env, World}
use openstudio_server_operat.World.Grows.{Untouched}
use openstudio_server_operat.World.Triple.{After}
use openstudio_server_operat.Store.{set_requeue, set_started_since, clear_started_since}
use openstudio_server_operat.Store.Entries.{
  Wrote, after_merge, set_map_entry-After, clear_map_entry-After,
}
use native.Mathlib.Decide.{ℕ_discrete}

abbrev pub requeues_of : Status → Dict RequeueRecord
requeues_of s = s.requeue_map

abbrev pub put_requeues : Dict RequeueRecord → Status → Status
put_requeues d s = record s { requeue_map = d }

abbrev pub clocks_of : Status → Dict Time
clocks_of s = s.started_since_map

abbrev pub put_clocks : Dict Time → Status → Status
put_clocks d s = record s { started_since_map = d }

-- A record without optional fields takes the place of the old one.
after_merge-whole : {V : Type 0} (v : V) (o : Option V) → after_merge Merge.whole v o ≡ v
after_merge-whole v none = refl
after_merge-whole v (some old) = refl

module _ (env : Env) (key : String) where
  pub set_requeue-After :
      (r : RequeueRecord) (w : World)
      → After
          (λ _ w'. Wrote requeues_of put_requeues key (some r) w w')
          (Untouched w)
          (set_requeue env key r w)
  unfolding set_requeue
  set_requeue-After r w =
      subst
        (λ v.
          After (λ _ w'. Wrote requeues_of put_requeues key (some v) w w') (Untouched w)
            (set_requeue env key r w))
        (after_merge-whole r (lookup key w.status.requeue_map))
        (set_map_entry-After env MapField.requeues requeues_of put_requeues (λ d s. refl)
          (λ s. refl) key w requeue_dec Merge.whole r (λ v. refl))

  pub set_started_since-After :
      (t : Time) (w : World)
      → After
          (λ _ w'. Wrote clocks_of put_clocks key (some t) w w')
          (Untouched w)
          (set_started_since env key t w)
  unfolding set_started_since
  set_started_since-After t w =
      subst
        (λ v.
          After (λ _ w'. Wrote clocks_of put_clocks key (some v) w w') (Untouched w)
            (set_started_since env key t w))
        (after_merge-whole t (lookup key w.status.started_since_map))
        (set_map_entry-After env MapField.started_since clocks_of put_clocks (λ d s. refl)
          (λ s. refl) key w ℕ_discrete Merge.whole t (λ v. refl))

  pub clear_started_since-After :
      (w : World)
      → After
          (λ _ w'. Wrote clocks_of put_clocks key none w w')
          (Untouched w)
          (clear_started_since env key w)
  unfolding clear_started_since
  clear_started_since-After w =
      clear_map_entry-After env MapField.started_since clocks_of put_clocks (λ d s. refl)
        (λ s. refl) key w
