-- ===== src/Store.antt =====
-- The typed accessors of `StatusStore` (src/openstudio_operator/status_store.py). One write is the
-- whole read-modify-write cycle: a fresh read, no patch where nothing changes, and a patch that is
-- applied or raises. The patch of an entry merges into the record that is stored. A map that has reached the cap makes room before it takes a new value.
pub mod Cap
pub mod Orders
pub mod Bound
pub mod Scalars
pub mod Entries
pub mod Writes
pub mod Quiet
use openstudio_server_operat.Base.{
  ℕ, String, Bool, true, false, Option, none, some, List, [], ◌∷◌, is_yes, member, without, ◌++◌,
  if◌then◌else◌, not,
}
use openstudio_server_operat.Base.Dict
use openstudio_server_operat.Base.Dict.{Dict}
use openstudio_server_operat.Clock.{Time}
use openstudio_server_operat.Status.Merge
use openstudio_server_operat.Status.{
  SoftStopRecord, RequeueRecord, ArchivedAnalysisRecord, StopRecord, soft_stop_dec, requeue_dec,
  archived_dec, stop_dec, MapField, Status,
}
use openstudio_server_operat.World.{
  Call, Env, World, Error, M, ◌>>=◌, ◌>>◌, ⊤, pure, throw, gets, modify, update, when, call, ask,
}
use Cap.{capped_insert}
use native.Mathlib.Decide.{ℕ_discrete}

module _ {V : Type 0} (dec : Discrete V) where
  -- `current == encoded`
  unfoldable pub is_entry : String → V → Dict V → Bool
  is_entry k v d = elim (Dict.lookup k d) [ none ↦ false | some v' ↦ is_yes (dec v' v) ]

module _ (env : Env) where
  -- The getters of whole maps and of scalars read the status anew.
  unfoldable pub read : {A : Type 0} → (Status → A) → M A
  read f = do call env Call.read_status; gets (λ w. f w.status)

module _ (env : Env) {V : Type 0} where
  -- The patch of one map, once it is known that something changes.
  unfoldable pub write_map : MapField → (Dict V → Status → Status) → String → Dict V → M ⊤
  write_map field put key d = do call env (Call.patch_entry field key); modify (put d)

  -- `_set_map_entry(field, key, encoded)`
  unfoldable pub set_map_entry :
      Discrete V
      → (V → V → V)
      → MapField
      → (Status → Dict V)
      → (Dict V → Status → Status)
      → String
      → V
      → M ⊤
  unfolding is_entry
  set_map_entry dec merge field map_of put key encoded = do
    current ← read env map_of
    protected ← gets (λ w. w.protected field)
    when (not (is_entry dec key encoded current))
        (write_map field put key (capped_insert merge protected key encoded current))

  -- `_set_map_entry(field, key, None)`
  unfoldable pub clear_map_entry :
      MapField → (Status → Dict V) → (Dict V → Status → Status) → String → M ⊤
  clear_map_entry field map_of put key = do
    current ← read env map_of
    when (Dict.has key current) (write_map field put key (Dict.erase key current))

-- `status.get(field) == encoded`, for a time
abbrev is_at : Time → Option Time → Bool
is_at now none = false
is_at now (some t) = is_yes (ℕ_discrete t now)

module _ (env : Env) where
  unfoldable pub set_soft_stop : String → SoftStopRecord → M ⊤
  unfolding set_map_entry
  set_soft_stop =
      set_map_entry env soft_stop_dec Merge.soft_stop_record MapField.soft_stops
        (λ s. s.soft_stop_map) (λ d s. record s { soft_stop_map = d })

  unfoldable pub clear_soft_stop : String → M ⊤
  unfolding clear_map_entry
  clear_soft_stop =
      clear_map_entry env MapField.soft_stops (λ s. s.soft_stop_map)
        (λ d s. record s { soft_stop_map = d })

  -- Stamps the escalation onto the anchor as it is read here; a vanished anchor raises.
  unfoldable pub stamp_escalated : String → Time → String → Option SoftStopRecord → M ⊤
  stamp_escalated key now outcome none = throw (Error.store_error MapField.soft_stops key)
  stamp_escalated key now outcome (some r) =
      let r' : SoftStopRecord = record r {
        escalated_at = some now;
        escalation_outcome = some outcome;
      } in
      when (not (is_yes (soft_stop_dec r' r))) (do
        current ← gets (λ w. w.status.soft_stop_map)
        write_map env MapField.soft_stops (λ d s. record s { soft_stop_map = d }) key
            (Dict.insert key r' current))

  unfoldable pub mark_soft_stop_escalated : String → Time → String → M ⊤
  mark_soft_stop_escalated key now outcome = do
    anchor ← read env (λ s. Dict.lookup key s.soft_stop_map)
    stamp_escalated key now outcome anchor

  unfoldable pub set_requeue : String → RequeueRecord → M ⊤
  unfolding set_map_entry
  set_requeue =
      set_map_entry env requeue_dec Merge.whole MapField.requeues (λ s. s.requeue_map)
        (λ d s. record s { requeue_map = d })

  unfoldable pub set_started_since : String → Time → M ⊤
  unfolding set_map_entry
  set_started_since =
      set_map_entry env ℕ_discrete Merge.whole MapField.started_since (λ s. s.started_since_map)
        (λ d s. record s { started_since_map = d })

  unfoldable pub clear_started_since : String → M ⊤
  unfolding clear_map_entry
  clear_started_since =
      clear_map_entry env MapField.started_since (λ s. s.started_since_map)
        (λ d s. record s { started_since_map = d })

  unfoldable pub set_archived_analysis : String → ArchivedAnalysisRecord → M ⊤
  unfolding set_map_entry
  set_archived_analysis =
      set_map_entry env archived_dec Merge.archived_record MapField.archived_analyses
        (λ s. s.archived_map) (λ d s. record s { archived_map = d })

  unfoldable pub clear_archived_analysis : String → M ⊤
  unfolding clear_map_entry
  clear_archived_analysis =
      clear_map_entry env MapField.archived_analyses (λ s. s.archived_map)
        (λ d s. record s { archived_map = d })

  unfoldable pub set_stop_record : String → StopRecord → M ⊤
  unfolding set_map_entry
  set_stop_record =
      set_map_entry env stop_dec Merge.stop_record MapField.stopped_analyses (λ s. s.stopped_map)
        (λ d s. record s { stopped_map = d })

  unfoldable pub prune_stop_record : String → M ⊤
  unfolding clear_map_entry
  prune_stop_record =
      clear_map_entry env MapField.stopped_analyses (λ s. s.stopped_map)
        (λ d s. record s { stopped_map = d })

  -- `_set_scalar(LAST_RECYCLE_AT, when)`
  unfoldable pub set_last_recycle_at : Time → M ⊤
  set_last_recycle_at now = do
    current ← read env (λ s. s.last_recycle_at)
    when (not (is_at now current)) (do
      call env Call.patch_last_recycle_at
      modify (λ s. record s { last_recycle_at = some now }))

-- `status.get(field) == encoded`, for a time or its absence
abbrev pub same_time : Option Time → Option Time → Bool
same_time when current = elim when [
  | none ↦ (elim current [ none ↦ true | some _ ↦ false ])
  | some t ↦ is_at t current
]

-- `_get_int`: an absent counter reads as 0.
abbrev pub or_zero : Option ℕ → ℕ
or_zero none = 0
or_zero (some n) = n

module _ (env : Env) where
  -- `_set_scalar(field, when)` and `_set_int(field, value)`, by the test for a change.
  unfoldable pub set_scalar :
      {V : Type 0} → Call → (Status → V) → (V → Status → Status) → (V → V → Bool) → V → M ⊤
  set_scalar patch value_of put same value = do
    current ← read env value_of
    when (not (same value current)) (do call env patch; modify (put value))

  unfoldable pub set_last_web_background_restart_at : Option Time → M ⊤
  unfolding set_scalar
  set_last_web_background_restart_at =
      set_scalar Call.patch_web_background_restart_at (λ s. s.last_web_background_restart_at)
        (λ t s. record s { last_web_background_restart_at = t }) same_time

  unfoldable pub set_stall_window_started_at : Option Time → M ⊤
  unfolding set_scalar
  set_stall_window_started_at =
      set_scalar Call.patch_stall_window (λ s. s.stall_window_started_at)
        (λ t s. record s { stall_window_started_at = t }) same_time

  unfoldable pub set_ineffective_restarts : ℕ → M ⊤
  unfolding set_scalar
  set_ineffective_restarts n =
      set_scalar Call.patch_ineffective_restarts (λ s. s.ineffective_restarts)
        (λ n s. record s { ineffective_restarts = n }) same_time (some n)

unfoldable pub field_dec : Discrete MapField
field_dec = hlevel

-- `{key: None for key in entries if key not in live}`
unfoldable pub dead_keys : {V : Type 0} → List String → Dict V → List String
dead_keys live d = without live (Dict.keys d)

-- The truth of a collection
abbrev pub any_entry : List String → Bool
any_entry [] = false
any_entry (_ ∷ _) = true

-- The status once the dead entries of the five maps are gone.
unfoldable pub pruned : List String → List String → Status → Status
unfolding dead_keys
pruned live_analyses live_datapoints s = record s {
  soft_stop_map = Dict.erase_all (dead_keys live_analyses s.soft_stop_map) s.soft_stop_map;
  archived_map = Dict.erase_all (dead_keys live_analyses s.archived_map) s.archived_map;
  stopped_map = Dict.erase_all (dead_keys live_analyses s.stopped_map) s.stopped_map;
  requeue_map = Dict.erase_all (dead_keys live_datapoints s.requeue_map) s.requeue_map;
  started_since_map =
      Dict.erase_all (dead_keys live_datapoints s.started_since_map) s.started_since_map;
}

-- `protect_anchor_keys`: the new set takes the place of the old one.
unfoldable pub protect_anchor_keys : MapField → List String → M ⊤
protect_anchor_keys field live =
    update (λ w. record w {
      protected = λ f. if is_yes (field_dec f field) then live else w.protected f;
    })

module _ (env : Env) where
  -- `prune` with both sets of live ids: whether anything was deleted.
  unfoldable pub prune : List String → List String → M Bool
  prune live_analyses live_datapoints = do
    s ← read env (λ s. s)
    let any_dead = any_entry (
        dead_keys live_analyses s.soft_stop_map
        ++ dead_keys live_analyses s.archived_map
        ++ dead_keys live_analyses s.stopped_map
        ++ dead_keys live_datapoints s.requeue_map
        ++ dead_keys live_datapoints s.started_since_map)
    when any_dead (do call env Call.patch_prune; modify (pruned live_analyses live_datapoints))
    pure any_dead
