-- ===== src/Watchdog/Loop.antt =====
-- The watchdog's loop over the started datapoints stays within the requeue budget.
use openstudio_server_operat.Base.{
  ℕ, ◌+◌, ◌≤◌, ◌<◌, String, Bool, true, false, Option, none, some, List, [], ◌∷◌, ◌≡◌, refl, sym,
  arith, leb, length, member, Distinct,
}
use openstudio_server_operat.Base.Dict.{Dict, lookup}
use openstudio_server_operat.Clock.{Time}
use openstudio_server_operat.Config.{OperatorConfig}
use openstudio_server_operat.Status.{RequeueRecord}
use openstudio_server_operat.World.{Env, World}
use openstudio_server_operat.World.Grows.{same}
use openstudio_server_operat.World.Triple.{After, returns, raises, After-step}
use openstudio_server_operat.Store.Cap.{status_map_max_entries}
use openstudio_server_operat.Watchdog.{budget_of, watch_one, watch_loop}
use openstudio_server_operat.World.Triple.{After-step}
use openstudio_server_operat.Watchdog.{judge, watch_clock}
use openstudio_server_operat.Watchdog.Budget.{limit, counted, Within, Within-trans, Within-kept}
use openstudio_server_operat.Watchdog.Rounds.{
  Round, Round-kept, requeue-After, warn_exhausted-After,
}

module _ (env : Env) (config : OperatorConfig) (now : Time) where
  judge-After :
      (dp_id : String) (budget : ℕ) (over exhausted : Bool) (w : World)
      → counted dp_id w ≡ budget
      → exhausted ≡ leb (limit config) budget
      → length w.status.requeue_map < status_map_max_entries
      → After
          (λ _ w'. Round env config now dp_id w w')
          (λ w'. (q : String) → Within (limit config) 1 w w' q)
          (judge env config now dp_id budget over exhausted w)
  unfolding judge
  judge-After dp_id budget false exhausted w e x room =
      returns (Round-kept env config now dp_id w w same refl)
  judge-After dp_id budget true true w e x room =
      After-step _ w (warn_exhausted-After env config now dp_id w) (λ _ w' h. returns h) (λ w' h. h)
  judge-After dp_id budget true false w e x room =
      After-step _ w (requeue-After env config now dp_id budget w e (ground arith) room)
        (λ _ w' h. returns h) (λ w' h. h)

  watch_clock-After :
      (dp_id : String) (budget : ℕ) (clock : Option Time) (w : World)
      → counted dp_id w ≡ budget
      → length w.status.requeue_map < status_map_max_entries
      → After
          (λ _ w'. Round env config now dp_id w w')
          (λ w'. (q : String) → Within (limit config) 1 w w' q)
          (watch_clock env config now budget dp_id clock w)
  unfolding watch_clock
  watch_clock-After dp_id budget none w e room = raises (λ q. Within-kept w w q same refl)
  watch_clock-After dp_id budget (some since) w e room = judge-After dp_id budget _ _ w e refl room

  watch_one-After :
      (copy : Dict RequeueRecord) (clocks : Dict Time) (dp_id : String) (w : World)
      → lookup dp_id w.status.requeue_map ≡ lookup dp_id copy
      → length w.status.requeue_map < status_map_max_entries
      → After
          (λ _ w'. Round env config now dp_id w w')
          (λ w'. (q : String) → Within (limit config) 1 w w' q)
          (watch_one env config now copy clocks dp_id w)
  unfolding watch_one budget_of
  watch_one-After copy clocks dp_id w e room =
      watch_clock-After dp_id _ (lookup dp_id clocks) w (ground (arith, e)) room

  -- The tick's copy of the counts is still right for the ids that lie ahead.
  abbrev pub Agrees : Dict RequeueRecord → List String → World → Type 0
  Agrees copy ids w =
      (j : String) → member j ids ≡ true → lookup j copy ≡ lookup j w.status.requeue_map

  pub watch_loop-Within :
      (copy : Dict RequeueRecord) (clocks : Dict Time) (ids : List String) (w : World)
      → Distinct ids
      → Agrees copy ids w
      → length w.status.requeue_map + length ids ≤ status_map_max_entries
      → After
          (λ _ w'. (q : String) → Within (limit config) 0 w w' q)
          (λ w'. (q : String) → Within (limit config) 1 w w' q)
          (watch_loop env config now copy clocks ids w)
  unfolding watch_loop
  watch_loop-Within copy clocks [] w d a room = returns (λ q. Within-kept w w q same refl)
  watch_loop-Within copy clocks (dp_id ∷ ids) w d a room =
      After-step _ w
        (watch_one-After copy clocks dp_id w (sym (a dp_id (ground arith))) (omega arith))
        (λ b w' r.
          After-step _ w'
            (watch_loop-Within copy clocks ids w' d.1 (λ j m. ground (arith, a j, r.others j))
              (omega (arith, r.larger)))
            (λ rest w'' h. returns (λ q. Within-trans (r.within q) (h q)))
            (λ w'' h. λ q. Within-trans (r.within q) (h q)))
        (λ w' h. h)
