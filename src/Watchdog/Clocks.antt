-- ===== src/Watchdog/Clocks.antt =====
-- Before its loop the watchdog retires the clocks of departed datapoints and starts those of new
-- ones; neither touches a requeue count.
use openstudio_server_operat.Base.{String, Option, none, some, List, [], ◌∷◌, ◌≡◌, refl, ap, ◌∙◌}
use openstudio_server_operat.Base.Dict.{Dict}
use openstudio_server_operat.Clock.{Time}
use openstudio_server_operat.Config.{OperatorConfig}
use openstudio_server_operat.World.{Env, World, for_each}
use openstudio_server_operat.World.Grows.{Grows, Grows-trans, same, harmless, Untouched}
use openstudio_server_operat.World.Triple.{
  After, returns, After-step, After-when, After-mono, After-for_each,
}
use openstudio_server_operat.Store.{clear_started_since}
use openstudio_server_operat.Store.Entries.{Wrote}
use openstudio_server_operat.Store.Writes.{
  set_started_since-After, clear_started_since-After, clocks_of, put_clocks,
}
use openstudio_server_operat.Watchdog.{start_clocks}

-- The counts are the same, and nothing but harmless calls was made.
pub record KeepsCounts (w w' : World) : Type 0 where
  pub counts : w'.status.requeue_map ≡ w.status.requeue_map
  pub grown : Grows harmless w.trace w'.trace

pub KeepsCounts-trans :
    {w w' w'' : World} → KeepsCounts w w' → KeepsCounts w' w'' → KeepsCounts w w''
KeepsCounts-trans a b = record { counts = b.counts ∙ a.counts; grown = Grows-trans a.grown b.grown }

pub Untouched-KeepsCounts : {w w' : World} → Untouched w w' → KeepsCounts w w'
Untouched-KeepsCounts u = record {
  counts = ap (λ (v : World). v.status.requeue_map) u.rest;
  grown = u.grown;
}

Wrote-KeepsCounts :
    (key : String) (v : Option Time) (w w' : World)
    → Wrote clocks_of put_clocks key v w w'
    → KeepsCounts w w'
Wrote-KeepsCounts key v w w' u = record {
  counts = ap (λ (v : World). v.status.requeue_map) u.rest;
  grown = u.grown;
}

module _ (env : Env) where
  pub clear_clocks-KeepsCounts :
      (ids : List String) (w : World)
      → After (λ _ w'. KeepsCounts w w') (KeepsCounts w) (for_each ids (clear_started_since env) w)
  clear_clocks-KeepsCounts ids w =
      After-for_each ids (clear_started_since env) w
        (λ id w' k.
          After-mono (clear_started_since-After env id w')
            (λ _ w'' u. KeepsCounts-trans k (Wrote-KeepsCounts id none w' w'' u))
            (λ w'' u. KeepsCounts-trans k (Untouched-KeepsCounts u)))
        (record { counts = refl; grown = same })

  pub start_clocks-KeepsCounts :
      (config : OperatorConfig) (now : Time) (ids : List String) (copy : Dict Time) (w : World)
      → After (λ _ w'. KeepsCounts w w') (KeepsCounts w) (start_clocks env config now ids copy w)
  unfolding start_clocks
  start_clocks-KeepsCounts config now [] copy w = returns (record { counts = refl; grown = same })
  start_clocks-KeepsCounts config now (id ∷ ids) copy w =
      After-step _ w
        (After-when _ _ w
          (λ _.
            After-mono (set_started_since-After env id now w)
              (λ _ w' u. Wrote-KeepsCounts id (some now) w w' u) (λ w' u. Untouched-KeepsCounts u))
          (λ _. record { counts = refl; grown = same }))
        (λ _ w' k.
          After-mono (start_clocks-KeepsCounts config now ids _ w')
            (λ _ w'' k'. KeepsCounts-trans k k') (λ w'' k'. KeepsCounts-trans k k'))
        (λ w' k. k)
