-- ===== src/Store/Quiet.antt =====
-- The store's operations read and write the status only.
use openstudio_server_operat.Base.{
  Bool, true, ◌≡◌, refl, String, List, ℕ, ℕ_discrete, some, none, Option,
}
use openstudio_server_operat.Base.Dict.{Dict}
use openstudio_server_operat.Clock.{Time}
use openstudio_server_operat.Status.{
  soft_stop_dec, stop_dec, requeue_dec, archived_dec, MapField, Status, SoftStopRecord,
  RequeueRecord, ArchivedAnalysisRecord, StopRecord,
}
use openstudio_server_operat.World.{Call, Env}
use openstudio_server_operat.World.Grows.{same}
use openstudio_server_operat.World.Triple.{returns}
use openstudio_server_operat.World.Adds.{
  quiet, Adds, Adds-bind, Adds-gets, Adds-call, Adds-when, Adds-throw, Adds-pure,
}
use openstudio_server_operat.Store.{
  read, write_map, set_map_entry, clear_map_entry, set_soft_stop, clear_soft_stop,
  mark_soft_stop_escalated, set_requeue, set_started_since, clear_started_since,
  set_archived_analysis, clear_archived_analysis, set_stop_record, prune_stop_record,
  set_last_recycle_at, prune, stamp_escalated, same_time, set_scalar,
  set_last_web_background_restart_at, set_stall_window_started_at, set_ineffective_restarts,
}

module _ {p : Call → Bool} (env : Env)
    (quiet_passes : (c : Call) → quiet c ≡ true → p c ≡ true) where
  pub Adds-read : {A : Type 0} (f : Status → A) → Adds p (read env f)
  unfolding read
  Adds-read f =
      Adds-bind _ (Adds-call env _ (quiet_passes Call.read_status refl)) (λ _. Adds-gets _)

  Adds-write_map :
      {V : Type 0} (field : MapField) (put : Dict V → Status → Status) (key : String) (d : Dict V)
      → Adds p (write_map env field put key d)
  unfolding write_map
  Adds-write_map field put key d =
      Adds-bind _ (Adds-call env _ (quiet_passes (Call.patch_entry field key) refl))
        (λ _ w. returns same)

  Adds-set_map_entry :
      {V : Type 0} (dec : Discrete V) (merge : V → V → V) (field : MapField)
      (map_of : Status → Dict V) (put : Dict V → Status → Status) (key : String) (v : V)
      → Adds p (set_map_entry env dec merge field map_of put key v)
  unfolding set_map_entry
  Adds-set_map_entry dec merge field map_of put key v =
      Adds-bind _ (Adds-read _)
        (λ _. Adds-bind _ (Adds-gets _) (λ _. Adds-when _ _ (λ _. Adds-write_map field put key _)))

  Adds-clear_map_entry :
      {V : Type 0} (field : MapField) (map_of : Status → Dict V) (put : Dict V → Status → Status)
      (key : String)
      → Adds p (clear_map_entry env field map_of put key)
  unfolding clear_map_entry
  Adds-clear_map_entry field map_of put key =
      Adds-bind _ (Adds-read _) (λ _. Adds-when _ _ (λ _. Adds-write_map field put key _))

  pub Adds-set_soft_stop : (key : String) (r : SoftStopRecord) → Adds p (set_soft_stop env key r)
  unfolding set_soft_stop
  Adds-set_soft_stop key r = Adds-set_map_entry soft_stop_dec _ _ _ _ key r

  pub Adds-clear_soft_stop : (key : String) → Adds p (clear_soft_stop env key)
  unfolding clear_soft_stop
  Adds-clear_soft_stop key = Adds-clear_map_entry _ _ _ key

  pub Adds-set_stop_record : (key : String) (r : StopRecord) → Adds p (set_stop_record env key r)
  unfolding set_stop_record
  Adds-set_stop_record key r = Adds-set_map_entry stop_dec _ _ _ _ key r

  pub Adds-prune_stop_record : (key : String) → Adds p (prune_stop_record env key)
  unfolding prune_stop_record
  Adds-prune_stop_record key = Adds-clear_map_entry _ _ _ key

  pub Adds-set_requeue : (key : String) (r : RequeueRecord) → Adds p (set_requeue env key r)
  unfolding set_requeue
  Adds-set_requeue key r = Adds-set_map_entry requeue_dec _ _ _ _ key r

  pub Adds-set_started_since : (key : String) (t : Time) → Adds p (set_started_since env key t)
  unfolding set_started_since
  Adds-set_started_since key t = Adds-set_map_entry ℕ_discrete _ _ _ _ key t

  pub Adds-clear_started_since : (key : String) → Adds p (clear_started_since env key)
  unfolding clear_started_since
  Adds-clear_started_since key = Adds-clear_map_entry _ _ _ key

  pub Adds-set_archived_analysis :
      (key : String) (r : ArchivedAnalysisRecord) → Adds p (set_archived_analysis env key r)
  unfolding set_archived_analysis
  Adds-set_archived_analysis key r = Adds-set_map_entry archived_dec _ _ _ _ key r

  pub Adds-clear_archived_analysis : (key : String) → Adds p (clear_archived_analysis env key)
  unfolding clear_archived_analysis
  Adds-clear_archived_analysis key = Adds-clear_map_entry _ _ _ key

  pub Adds-set_last_recycle_at : (now : Time) → Adds p (set_last_recycle_at env now)
  unfolding set_last_recycle_at
  Adds-set_last_recycle_at now = Adds-bind _ (Adds-read _) (λ _. Adds-when _ _ (λ _.
      Adds-bind _ (Adds-call env _ (quiet_passes Call.patch_last_recycle_at refl))
        (λ _ w. returns same)))

  Adds-stamp_escalated :
      (key : String) (now : Time) (outcome : String) (anchor : Option SoftStopRecord)
      → Adds p (stamp_escalated env key now outcome anchor)
  unfolding stamp_escalated
  Adds-stamp_escalated key now outcome none = Adds-throw _
  Adds-stamp_escalated key now outcome (some r) =
      Adds-when _ _ (λ _. Adds-bind _ (Adds-gets _) (λ _. Adds-write_map _ _ key _))

  pub Adds-mark_soft_stop_escalated :
      (key : String) (now : Time) (outcome : String)
      → Adds p (mark_soft_stop_escalated env key now outcome)
  unfolding mark_soft_stop_escalated
  Adds-mark_soft_stop_escalated key now outcome =
      Adds-bind _ (Adds-read _) (λ _. Adds-stamp_escalated key now outcome _)

  pub Adds-prune :
      (live_analyses live_datapoints : List String)
      → Adds p (prune env live_analyses live_datapoints)
  unfolding prune
  Adds-prune live_analyses live_datapoints = Adds-bind _ (Adds-read _) (λ s.
      Adds-bind _
        (Adds-when _ _ (λ _.
          Adds-bind _ (Adds-call env _ (quiet_passes Call.patch_prune refl)) (λ _ w. returns same)))
        (λ _. Adds-pure _))

  Adds-set_scalar :
      {V : Type 0} (patch : Call) (value_of : Status → V) (put : V → Status → Status)
      (same_value : V → V → Bool) (value : V)
      → p patch ≡ true
      → Adds p (set_scalar env patch value_of put same_value value)
  unfolding set_scalar
  Adds-set_scalar patch value_of put same_value value h =
      Adds-bind _ (Adds-read _)
        (λ _. Adds-when _ _ (λ _. Adds-bind _ (Adds-call env _ h) (λ _ w. returns same)))

  pub Adds-set_last_web_background_restart_at :
      (t : Option Time) → Adds p (set_last_web_background_restart_at env t)
  unfolding set_last_web_background_restart_at
  Adds-set_last_web_background_restart_at t =
      Adds-set_scalar _ (λ s. s.last_web_background_restart_at)
        (λ v s. record s { last_web_background_restart_at = v }) same_time t
        (quiet_passes Call.patch_web_background_restart_at refl)

  pub Adds-set_stall_window_started_at :
      (t : Option Time) → Adds p (set_stall_window_started_at env t)
  unfolding set_stall_window_started_at
  Adds-set_stall_window_started_at t =
      Adds-set_scalar _ (λ s. s.stall_window_started_at)
        (λ v s. record s { stall_window_started_at = v }) same_time t
        (quiet_passes Call.patch_stall_window refl)

  pub Adds-set_ineffective_restarts : (n : ℕ) → Adds p (set_ineffective_restarts env n)
  unfolding set_ineffective_restarts ℕ_discrete
  Adds-set_ineffective_restarts n =
      Adds-set_scalar _ (λ s. s.ineffective_restarts) (λ v s. record s { ineffective_restarts = v })
        same_time (some n) (quiet_passes Call.patch_ineffective_restarts refl)
