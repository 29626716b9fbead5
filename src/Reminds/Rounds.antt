-- ===== src/Reminds/Rounds.antt =====
-- A round of the task of a registration, `_run_remind_task` of src/message_queue.py behind one sleep, and
-- `_recover_remind_registrations`.
use claude_sessions.Prelude.{
  max, ltb, ◌-◌, leb, min, true, ◌&&◌, if◌then◌else◌, not, map, ◌∷◌, [], Bool, false, ◌++◌, List,
  String, ℕ, none, some, ◌*◌,
}
use claude_sessions.Sql.{upsert, select, update, keyed}
use Prim.Native.Nat.{◌/◌}
use claude_sessions.Reminds.{
  RemindRegistration, RemindRow, Codec, RemindCall, cancels_track_reminds, cancels_nudges,
  queues_nudge, queues_track_remind, queues_remind, starts_task, Reminds, target_of, row_target,
  call, call_all, registration_of, edit, deserialize_owners, cancel_remind, restarted,
  restarted_row, has_owners,
}

-- What a round reads: whether the target's runtime is alive and it is compacting, and whether a message of
-- the kind that would be queued is pending already.
pub record RoundReading : Type 0 where
  pub now : ℕ
  pub is_alive : Bool
  pub is_compacting : Bool
  pub nudge_pending : Bool
  pub remind_pending : Bool
  pub track_remind_pending : String → Bool

-- `_tracked_status_nudge_lead_seconds`
unfoldable pub lead_seconds : ℕ → ℕ
lead_seconds soft = if leb soft 5 then 0 else min 60 (max (soft / 2) 1)

-- how long ago the cycle began, in microseconds
abbrev pub elapsed : RoundReading → RemindRegistration → ℕ
elapsed r reg = r.now - reg.last_reset_at

abbrev pub has_passed : ℕ → ℕ → Bool
has_passed time seconds = leb (1000000 * seconds) time

abbrev pub nudges : RoundReading → RemindRegistration → Bool
nudges r reg =
    has_owners reg.cancel_on_reply_session_ids
    && not reg.tracked_status_nudge_fired
    && not reg.soft_fired
    && ltb 0 (lead_seconds reg.soft_threshold_seconds)
    && has_passed (elapsed r reg)
        (reg.soft_threshold_seconds - lead_seconds reg.soft_threshold_seconds)

abbrev pub fires_soft : RoundReading → RemindRegistration → Bool
fires_soft r reg = not reg.soft_fired && has_passed (elapsed r reg) reg.soft_threshold_seconds

abbrev pub fires_hard : RoundReading → RemindRegistration → Bool
fires_hard r reg = has_passed (elapsed r reg) reg.hard_threshold_seconds

-- `_queue_tracked_remind_notifications`
unfoldable pub track_reminds : RoundReading → String → Bool → List String → List RemindCall
track_reminds r target urgent [] = []
track_reminds r target urgent (owner ∷ owners) =
    let rest = track_reminds r target urgent owners in
    if not urgent && r.track_remind_pending owner
    then rest
    else queues_track_remind target owner urgent ∷ rest

abbrev pub when : Bool → List RemindCall → List RemindCall
when true calls = calls
when false calls = []

-- the messages of a soft, and of a hard reminder
unfoldable pub soft_reminds : RoundReading → RemindRegistration → List RemindCall
unfolding track_reminds
soft_reminds r reg =
    if has_owners reg.cancel_on_reply_session_ids
    then track_reminds r reg.target_session_id false reg.cancel_on_reply_session_ids
    else when (not r.remind_pending) (queues_remind reg.target_session_id false ∷ [])

unfoldable pub hard_reminds : RoundReading → RemindRegistration → List RemindCall
unfolding track_reminds
hard_reminds r reg =
    if has_owners reg.cancel_on_reply_session_ids
    then track_reminds r reg.target_session_id true reg.cancel_on_reply_session_ids
    else queues_remind reg.target_session_id true ∷ []

module _ {T : Type 0} where
  unfoldable pub nudge_step : RoundReading → RemindRegistration → Reminds T → Reminds T
  unfolding edit lead_seconds
  nudge_step r reg s =
      if nudges r reg
      then edit reg.target_session_id (λ reg. record reg { tracked_status_nudge_fired = true })
          (λ row. record row { tracked_status_nudge_fired = true })
          (call_all (when (not r.nudge_pending) (queues_nudge reg.target_session_id ∷ [])) s)
      else s

  unfoldable pub soft_step : RoundReading → RemindRegistration → Reminds T → Reminds T
  unfolding edit soft_reminds
  soft_step r reg s =
      if fires_soft r reg
      then edit reg.target_session_id (λ reg. record reg { soft_fired = true })
          (λ row. record row { soft_fired = true }) (call_all (soft_reminds r reg) s)
      else s

  unfoldable pub hard_step : RoundReading → RemindRegistration → Reminds T → Reminds T
  unfolding edit hard_reminds
  hard_step r reg s =
      if fires_hard r reg
      then edit reg.target_session_id (restarted r.now) (restarted_row r.now)
          (call_all (hard_reminds r reg) s)
      else s

  -- The Boolean says whether the task goes on.
  unfoldable pub remind_round : RoundReading → String → Reminds T → Reminds T × Bool
  unfolding nudge_step soft_step hard_step cancel_remind
  remind_round r target s = elim (registration_of target s) [
    | none ↦ (s, false)
    | some reg ↦
        if not reg.is_active
        then (s, false)
        else if has_owners reg.cancel_on_reply_session_ids && not r.is_alive
        then (cancel_remind target s, false)
        else if r.is_compacting
        then (s, true)
        else (hard_step r reg (soft_step r reg (nudge_step r reg s)), true)
  ]

  -- the registration of a row
  unfoldable pub restore : Codec T → RemindRow T → RemindRegistration
  unfolding deserialize_owners
  restore c row = record {
    id = row.id;
    target_session_id = row.target_session_id;
    soft_threshold_seconds = row.soft_threshold_seconds;
    hard_threshold_seconds = row.hard_threshold_seconds;
    registered_at = row.registered_at;
    last_reset_at = row.last_reset_at;
    cancel_on_reply_session_ids = deserialize_owners c row.cancel_on_reply_session_id;
    persistent_tracking = row.persistent_tracking;
    tracked_status_nudge_fired = row.tracked_status_nudge_fired;
    soft_fired = row.soft_fired;
    is_active = true;
  }

  -- an active row, when the program starts
  unfoldable pub recover_row : Codec T → (String → Bool) → RemindRow T → Reminds T → Reminds T
  unfolding restore
  recover_row c is_alive row s =
      let reg = restore c row in
      let target = row.target_session_id in
      if has_owners reg.cancel_on_reply_session_ids && not (is_alive target)
      then record s {
        rows = update (keyed row_target target) (λ old. record old { is_active = false }) s.rows;
        calls =
            s.calls
            ++ map (cancels_track_reminds target) reg.cancel_on_reply_session_ids
            ++ cancels_nudges target ∷ [];
      }
      else call (starts_task target)
          (record s { registrations = upsert target_of reg s.registrations })

  unfoldable pub recover_rows :
      Codec T → (String → Bool) → List (RemindRow T) → Reminds T → Reminds T
  unfolding recover_row
  recover_rows c is_alive [] s = s
  recover_rows c is_alive (row ∷ rows) s =
      recover_rows c is_alive rows (recover_row c is_alive row s)

  -- `_recover_remind_registrations`, with nothing in memory
  unfoldable pub recover_remind_registrations : Codec T → (String → Bool) → Reminds T → Reminds T
  unfolding recover_rows
  recover_remind_registrations c is_alive s =
      recover_rows c is_alive (select (λ row. row.is_active) s.rows)
        (record s { registrations = [] })
