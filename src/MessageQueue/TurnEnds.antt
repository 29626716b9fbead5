-- ===== src/MessageQueue/TurnEnds.antt =====
-- The stop that notifies the sender of a message: the next one of a session that was idle, and the second
-- one of a session in the middle of a turn.
use claude_sessions.Prelude.{◌||◌, if◌then◌else◌, ◌≡◌, ℕ, some, none}
use claude_sessions.MessageQueue.State.{DeliveryState}
use claude_sessions.MessageQueue.{Bool, Option, true, false, String, QueuedMessage}
use claude_sessions.MessageQueue.Stops.{
  mark_session_idle, Stop, Stops, emit, cancels_reconcile, cancels_reminds, tries_delivery, promote,
  notify_sender,
}

-- No handoff is pending, no fence stands, and no own message of the session went out to suppress a stop.
abbrev pub IsQuiet : DeliveryState → Type 0
IsQuiet state =
    (state.pending_handoff_path ≡ none)
    × ((state.stop_notify_skip_count ≡ 0) × (state.last_outgoing_sm_send_target ≡ none))

abbrev idle_at : Stop → Stops → Stops
idle_at r s =
    let started = emit cancels_reconcile s in
    let ended =
      if r.from_stop_hook || r.completion_transition
      then emit cancels_reminds started
      else started in
    record ended { state = record (ended.state) { is_idle = true; last_idle_at = some r.now } }

-- the sender that the next stop will notify
abbrev Waits : String → DeliveryState → Type 0
Waits x state =
    (state.stop_notify_sender_id ≡ some x)
    × ((state.stop_notify_delay_seconds ≡ 0) × (state.paste_buffered_notify_sender_id ≡ none))

-- the sender that the stop behind the next one will notify
abbrev Pasted : String → DeliveryState → Type 0
Pasted x state =
    (state.stop_notify_sender_id ≡ none) × (state.paste_buffered_notify_sender_id ≡ some x)

abbrev Nobody : DeliveryState → Type 0
Nobody state = (state.stop_notify_sender_id ≡ none) × (state.paste_buffered_notify_sender_id ≡ none)

abbrev handed_over : Option String → Stops → Stops
handed_over output s = emit tries_delivery (promote (notify_sender output s))

module _ (window : ℕ) (r : Stop) (s : Stops) (quiet : IsQuiet s.state)
    (own : r.is_codex_fork ≡ false) where
  abbrev next : Stops
  next = mark_session_idle window r s

-- the state when a message of this sender was delivered
abbrev with_sender : Bool → QueuedMessage → DeliveryState → DeliveryState
with_sender true m state = record state {
  stop_notify_sender_id = m.sender_session_id;
  stop_notify_sender_name = m.sender_name;
  stop_notify_delay_seconds = 0;
}
with_sender false m state = record state {
  paste_buffered_notify_sender_id = m.sender_session_id;
  paste_buffered_notify_sender_name = m.sender_name;
}
