-- ===== src/MessageQueue/Clears.antt =====
-- What a /clear, a handoff and an own message of the session do to its delivery state: parts of
-- src/message_queue.py, src/server.py and src/session_manager.py.
use claude_sessions.Prelude.{ℕ, ◌+◌, String, Bool, true, not, ◌&&◌, none, some, if◌then◌else◌}
use claude_sessions.MessageQueue.State.{clear_stop_notify, forget_outgoing}
use claude_sessions.MessageQueue.Stops.{
  Stops, emit, tries_delivery, cancel_pending_stop_notification,
}

-- src/server.py, `_invalidate_session_cache`: the delivery state, when a context is cleared. `is_running`
-- says that the state existed before the call and the status of the session was RUNNING.
unfoldable pub invalidate_session_cache : Bool → Bool → ℕ → Stops → Stops
invalidate_session_cache arm_skip is_running now s =
    let fenced =
      if arm_skip
      then record (s.state) {
        stop_notify_skip_count =
            s.state.stop_notify_skip_count + (if not s.state.is_idle && is_running then 2 else 1);
        skip_count_armed_at = some now;
      }
      else s.state in
    record s {
      state =
          forget_outgoing
            (record fenced { stop_notify_sender_id = none; stop_notify_sender_name = none });
    }

-- the first step of `_execute_handoff`, and `_restore_idle`, its end when it fails
unfoldable pub clear_for_handoff : ℕ → Stops → Stops
clear_for_handoff now s = record (cancel_pending_stop_notification s) {
  state = forget_outgoing (
      clear_stop_notify (record (s.state) {
        stop_notify_skip_count = s.state.stop_notify_skip_count + 1;
        skip_count_armed_at = some now;
      }));
}

unfoldable pub restore_idle : ℕ → Stops → Stops
restore_idle now s =
    emit tries_delivery
      (record s { state = record (s.state) { is_idle = true; last_idle_at = some now } })

-- src/server.py, `schedule_handoff`
unfoldable pub schedule_handoff : String → Stops → Stops
schedule_handoff path s = record s { state = record (s.state) { pending_handoff_path = some path } }

-- src/session_manager.py, `_record_outgoing_sm_send_target`
unfoldable pub record_outgoing_sm_send_target : String → ℕ → Stops → Stops
record_outgoing_sm_send_target target now s = record s {
  state = record (s.state) {
    last_outgoing_sm_send_target = some target;
    last_outgoing_sm_send_at = some now;
  };
}
