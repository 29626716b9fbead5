-- ===== src/Reminds/Registering.antt =====
-- `register_periodic_remind` and `cancel_tracked_remind_on_reply` of src/message_queue.py.
use claude_sessions.Prelude.{
  min, true, ◌&&◌, ◌||◌, sorted_set, if◌then◌else◌, not, ◌∷◌, str_eq, [], Bool, false, ◌++◌, List,
  String, ℕ, none, some,
}
use claude_sessions.Sql.{upsert, delete}
use claude_sessions.Reminds.{
  RemindRegistration, RemindRow, Codec, cancels_track_reminds, cancels_nudges, starts_task, Reminds,
  RemindRequest, target_of, call, registration_of, edit, serialize_owners, cancel_remind, restarted,
  restarted_row, has_owners, with_owners, merged_owners, new_registration, discard, is_in,
  refresh_persistent_tracked_remind, row_with_owners,
}

-- what a registration becomes that is merged with a request
abbrev pub merged : ℕ → RemindRequest → RemindRegistration → RemindRegistration → RemindRegistration
merged now r old reg = record (restarted now reg) {
  soft_threshold_seconds = min old.soft_threshold_seconds r.soft_threshold;
  hard_threshold_seconds = min old.hard_threshold_seconds r.hard_threshold;
  persistent_tracking = old.persistent_tracking || r.persistent_tracking;
  cancel_on_reply_session_ids = merged_owners r old;
}

module _ {T : Type 0} where
  -- `cancel_tracked_remind_on_reply`, of a reply of `sender` to `recipient`
  unfoldable pub cancel_tracked_remind_on_reply :
      Codec T → ℕ → String → String → Reminds T → Reminds T × Bool
  unfolding edit cancel_remind refresh_persistent_tracked_remind
  cancel_tracked_remind_on_reply c now sender recipient s = elim (registration_of sender s) [
    | none ↦ (s, false)
    | some reg ↦
        let owners = sorted_set (discard recipient reg.cancel_on_reply_session_ids) in
        if not reg.is_active || not (is_in recipient reg.cancel_on_reply_session_ids)
        then (s, false)
        else if reg.persistent_tracking
        then (refresh_persistent_tracked_remind now sender recipient s, true)
        else if has_owners owners
        then (
          call (cancels_track_reminds sender recipient)
              (edit sender (with_owners owners) (row_with_owners c owners) s),
          true,
        )
        else (cancel_remind sender (call (cancels_track_reminds sender recipient) s), true)
  ]

  abbrev pub merged_row :
      Codec T → ℕ → RemindRequest → RemindRegistration → RemindRow T → RemindRow T
  merged_row c now r old row = record (restarted_row now row) {
    soft_threshold_seconds = min old.soft_threshold_seconds r.soft_threshold;
    hard_threshold_seconds = min old.hard_threshold_seconds r.hard_threshold;
    persistent_tracking = old.persistent_tracking || r.persistent_tracking;
    cancel_on_reply_session_id = serialize_owners c (merged_owners r old);
  }

  unfoldable pub merge : Codec T → ℕ → RemindRequest → RemindRegistration → Reminds T → Reminds T
  unfolding edit
  merge c now r old s =
      edit r.target_session_id (merged now r old) (merged_row c now r old)
        (call (cancels_nudges r.target_session_id) s)

  abbrev pub row_of : Codec T → RemindRegistration → RemindRow T
  row_of c reg = record {
    id = reg.id;
    target_session_id = reg.target_session_id;
    soft_threshold_seconds = reg.soft_threshold_seconds;
    hard_threshold_seconds = reg.hard_threshold_seconds;
    registered_at = reg.registered_at;
    last_reset_at = reg.last_reset_at;
    cancel_on_reply_session_id = serialize_owners c reg.cancel_on_reply_session_ids;
    persistent_tracking = reg.persistent_tracking;
    tracked_status_nudge_fired = reg.tracked_status_nudge_fired;
    soft_fired = reg.soft_fired;
    is_active = reg.is_active;
  }

  -- INSERT OR REPLACE, where id is the primary key and target_session_id is unique
  unfoldable pub insert_or_replace : RemindRow T → List (RemindRow T) → List (RemindRow T)
  insert_or_replace row rows =
      delete (λ old. str_eq old.id row.id || str_eq old.target_session_id row.target_session_id)
        rows
      ++ row ∷ []

  unfoldable pub start_remind : Codec T → RemindRegistration → Reminds T → Reminds T
  unfolding insert_or_replace
  start_remind c reg s = call (starts_task reg.target_session_id) (record s {
    registrations = upsert target_of reg s.registrations;
    rows = insert_or_replace (row_of c reg) s.rows;
  })

  -- `register_periodic_remind`
  unfoldable pub register_periodic_remind :
      Codec T → ℕ → RemindRequest → Reminds T → Reminds T × String
  unfolding merge cancel_remind start_remind
  register_periodic_remind c now r s =
      let fresh : Reminds T × String =
        (start_remind c (new_registration now r) (cancel_remind r.target_session_id s), r.id) in
      elim (registration_of r.target_session_id s) [
        | none ↦ fresh
        | some old ↦
            if r.merge_with_existing && old.is_active then (merge c now r old s, old.id) else fresh
      ]
