-- ===== src/MessageQueue/State.antt =====
-- What the queue knows of a session beside its messages.
use claude_sessions.Prelude.{ℕ, String, Bool, Option, none}

-- `SessionDeliveryState` of src/models.py, less the input that a user is typing. A delay is in seconds,
-- a time in microseconds.
pub record DeliveryState : Type 0 where
  pub is_idle : Bool
  pub last_idle_at : Option ℕ
  pub saved_user_input : Option String
  pub stop_notify_sender_id : Option String
  pub stop_notify_sender_name : Option String
  pub stop_notify_skip_count : ℕ
  pub skip_count_armed_at : Option ℕ
  pub last_outgoing_sm_send_target : Option String
  pub last_outgoing_sm_send_at : Option ℕ
  pub pending_handoff_path : Option String
  pub paste_buffered_notify_sender_id : Option String
  pub paste_buffered_notify_sender_name : Option String
  pub stop_notify_delay_seconds : ℕ

-- The sender that waits for the next stop is forgotten.
abbrev pub clear_stop_notify : DeliveryState → DeliveryState
clear_stop_notify state = record state {
  stop_notify_sender_id = none;
  stop_notify_sender_name = none;
  stop_notify_delay_seconds = 0;
}

abbrev pub forget_outgoing : DeliveryState → DeliveryState
forget_outgoing state = record state {
  last_outgoing_sm_send_target = none;
  last_outgoing_sm_send_at = none;
}
