-- ===== src/Watchdog/Ticks.antt =====
-- The watchdog's ticks, one and many: the server never accepts more requeues of a datapoint than
-- `maxAutoRequeues` and the ticks that were cut short allow.
use openstudio_server_operat.Base.{
  ℕ, ◌+◌, ◌≤◌, String, Bool, true, false, List, [], ◌∷◌, ◌≡◌, refl, arith, length, if◌then◌else◌,
  Distinct,
}
use openstudio_server_operat.Clock.{Time}
use openstudio_server_operat.Config.{OperatorConfig}
use openstudio_server_operat.World.{Call, Env, World, Outcome, ended}
use openstudio_server_operat.World.Grows.{Grows, Grows-trans, same, more, harmless}
use openstudio_server_operat.World.Triple.{After, returns, raises, After-step, After-mono, exec_ask}
use openstudio_server_operat.Store.Cap.{status_map_max_entries}
use openstudio_server_operat.Store.Scalars.{exec_read}
use openstudio_server_operat.Watchdog.{watch, run_watchdog_tick}
use openstudio_server_operat.Watchdog.Hygiene.{datapoint_ids}
use openstudio_server_operat.Watchdog.Budget.{
  limit, requeued, counted, Within, Within-trans, Within-kept, requeued-Grows, budget_of_lem,
}
use openstudio_server_operat.Watchdog.Clocks.{
  KeepsCounts, KeepsCounts-trans, clear_clocks-KeepsCounts, start_clocks-KeepsCounts,
}
use openstudio_server_operat.Watchdog.Ids.{datapoint_ids-Distinct}
use openstudio_server_operat.Watchdog.Prune.{KeepsCount, Listed, anchor_hygiene-KeepsCount}
use openstudio_server_operat.Watchdog.Loop.{watch_loop-Within}

module _ (env : Env) (config : OperatorConfig) where
  -- The started datapoints that a tick at this world sees.
  abbrev pub seen_ids : World → List String
  seen_ids w =
      datapoint_ids (env.started_datapoints ((Call.list_started_datapoints, true) ∷ w.trace))

  -- Room in the map of counts for each datapoint that the tick sees.
  abbrev pub HasRoom : World → Type 0
  HasRoom w = length w.status.requeue_map + length (seen_ids w) ≤ status_map_max_entries

  module _ (now : Time) (q : String) where
    watch-Within :
        (ids : List String) (w : World)
        → Distinct ids
        → length w.status.requeue_map + length ids ≤ status_map_max_entries
        → After
            (λ _ w'. Within (limit config) 0 w w' q)
            (λ w'. Within (limit config) 1 w w' q)
            (watch env config now ids w)
    unfolding watch
    watch-Within ids w distinct room =
        exec_read env _ _ w
          (After-step _ _ (clear_clocks-KeepsCounts env _ _)
            (λ _ w₁ k₁.
              After-step _ w₁ (start_clocks-KeepsCounts env config now ids _ w₁)
                (λ clocks w₂ k₂.
                  let k = KeepsCounts-trans k₁ k₂ in
                  let kept =
                    Within-kept w (record w₂ { trace = (Call.read_status, true) ∷ w₂.trace }) q
                      (grown w w₂ true k) k.counts in
                  exec_read env _ _ w₂
                    (After-mono
                      (watch_loop-Within env config now w₂.status.requeue_map clocks ids _ distinct
                        (λ j m. refl) (rw k.counts room))
                      (λ _ w₃ h. Within-trans kept (h q)) (λ w₃ h. Within-trans kept (h q)))
                    (Within-kept w _ q (grown w w₂ false k) k.counts))
                (λ w₂ k₂. kept w w₂ (KeepsCounts-trans k₁ k₂)))
            (λ w₁ k₁. kept w w₁ k₁))
          (Within-kept w _ q (more _ _ refl same) refl)
      where
        -- after the first read
        grown :
            (w w' : World) (b : Bool)
            → KeepsCounts (record w { trace = (Call.read_status, true) ∷ w.trace }) w'
            → Grows harmless w.trace ((Call.read_status, b) ∷ w'.trace)
        grown w w' b k = more _ _ refl (Grows-trans (more _ _ refl same) k.grown)

        kept :
            (w w' : World)
            → KeepsCounts (record w { trace = (Call.read_status, true) ∷ w.trace }) w'
            → Within (limit config) 1 w w' q
        kept w w' k = Within-kept w w' q (Grows-trans (more _ _ refl same) k.grown) k.counts

    hygiene_Within :
        (slack : ℕ) (w w' : World) → KeepsCount q w w' → Within (limit config) slack w w' q
    hygiene_Within slack w w' k =
        let e = budget_of_lem q _ _ k.count in
        record {
          spent = omega (arith, requeued-Grows q w w' k.grown, e);
          bounded = omega (arith, e);
        }

    -- One tick, for a datapoint that the server's heavy listing always shows, with a map of counts that has room
    -- below its cap for the datapoints of the tick: every requeue that the server accepts is counted, but for the one
    -- that a raise may cut off from its count; and the count does not pass the greater of the limit and what it was
    -- before.
    pub run_watchdog_tick-Within :
        (w : World)
        → HasRoom w
        → Listed env q
        → After
            (λ _ w'. Within (limit config) 0 w w' q)
            (λ w'. Within (limit config) 1 w w' q)
            (run_watchdog_tick env config now w)
    unfolding run_watchdog_tick
    run_watchdog_tick-Within w room listed =
        exec_ask env _ _ _ w
          (After-step _ _ (watch-Within (seen_ids w) _ (datapoint_ids-Distinct _) room)
            (λ ids w₁ h.
              After-step _ w₁ (anchor_hygiene-KeepsCount env q config _ w₁ listed)
                (λ _ w₂ k. returns (Within-trans (asked h) (hygiene_Within 0 w₁ w₂ k)))
                (λ w₂ k. Within-trans (asked h) (hygiene_Within 1 w₁ w₂ k)))
            (λ w₁ h. asked h))
          (Within-kept w _ q (more _ _ refl same) refl)
      where
        asked :
            {slack : ℕ} {w' : World}
            → Within
                (limit config)
                slack
                (record w { trace = (Call.list_started_datapoints, true) ∷ w.trace })
                w'
                q
            → Within (limit config) slack w w' q
        asked h = Within-trans (Within-kept w _ q (more _ _ refl same) refl) h

  -- The timer's ticks at given times: how many were cut short by a raise, and the last world.
  unfoldable pub run_ticks : List Time → World → ℕ × World
  run_ticks [] w = (0, w)
  run_ticks (now ∷ later) w =
      let (r, w') = run_watchdog_tick env config now w in
      let (cut, w'') = run_ticks later w' in (if ended r then cut else cut + 1, w'')

  -- Every tick of the series finds room.
  abbrev pub AllRoomy : List Time → World → Type 0
  AllRoomy [] w = Unit
  AllRoomy (now ∷ later) w = HasRoom w × AllRoomy later (run_watchdog_tick env config now w).1

  series :
      (q : String) (w : World) (x : Outcome (List String) × World) (cut : ℕ) (w'' : World)
      → After (λ _ w'. Within (limit config) 0 w w' q) (λ w'. Within (limit config) 1 w w' q) x
      → Within (limit config) cut x.1 w'' q
      → Within (limit config) (if ended x.0 then cut else cut + 1) w w'' q
  series q w x cut w'' (returns h) h' = Within-trans h h'
  series q w x cut w'' (raises h) h' = record {
    spent = omega (arith, h.spent, h'.spent);
    bounded = omega (arith, h.bounded, h'.bounded);
  }

  run_ticks-Within :
      (q : String) (nows : List Time) (w : World)
      → AllRoomy nows w
      → Listed env q
      → Within (limit config) (run_ticks nows w).0 w (run_ticks nows w).1 q
  unfolding run_ticks
  run_ticks-Within q [] w room listed = Within-kept w w q same refl
  run_ticks-Within q (now ∷ later) w room listed =
      series q w _ _ _ (run_watchdog_tick-Within now q w room.0 listed)
        (run_ticks-Within q later _ room.1 listed)

  -- The auto-requeue loop is bounded. Over any series of ticks at any times, with a server that may
  -- refuse any call, a datapoint that starts with no requeue and no count, and that the server's
  -- heavy listing shows throughout, is requeued at most `maxAutoRequeues` times, and once more for
  -- each tick that a raise cut short. The map of counts must not reach its cap.
  pub requeued-le_limit :
      (q : String) (nows : List Time) (w : World)
      → AllRoomy nows w
      → Listed env q
      → requeued q w ≡ 0
      → counted q w ≡ 0
      → requeued q (run_ticks nows w).1 ≤ limit config + (run_ticks nows w).0
  requeued-le_limit q nows w room listed none_yet no_count =
      let h = run_ticks-Within q nows w room listed in omega (arith, h.spent, h.bounded)
