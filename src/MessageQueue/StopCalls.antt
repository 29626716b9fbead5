-- ===== src/MessageQueue/StopCalls.antt =====
-- Any sequence of the calls that change who is notified of the stops of a session.
use claude_sessions.Prelude.{
  ◌&&◌, ℕ, ◌+◌, String, Bool, true, false, Option, none, some, List, [], ◌∷◌, str_eq, if◌then◌else◌,
}
use claude_sessions.Sql.{select}
use claude_sessions.MessageQueue.{QueuedMessage, given, get_pending_messages}
use claude_sessions.MessageQueue.State.{DeliveryState}
use claude_sessions.MessageQueue.Delivery.{
  Queue, only_rename, DeliveryReading, BatchSettings, Effect, cancels_stop_notification,
  choose_batch, try_deliver_messages,
}
use claude_sessions.MessageQueue.Urgent.{UrgentReading, deliver_urgent}
use claude_sessions.MessageQueue.Stops.{
  Stops, Stop, StopEffect, notifies, mark_session_idle, mark_session_active, arm_stop_notify,
  run_delayed_stop_notification,
}
use claude_sessions.MessageQueue.Clears.{
  invalidate_session_cache, clear_for_handoff, restore_idle, schedule_handoff,
  record_outgoing_sm_send_target,
}

-- A call, with what it reads. A delivery comes with the table as it finds it.
pub data StopCall : Type 0 where
  stops : ℕ → Stop → StopCall
  activates : StopCall
  arms : String → String → ℕ → StopCall
  fires : ℕ → StopCall
  invalidates : Bool → Bool → ℕ → StopCall
  clears_for_handoff : ℕ → StopCall
  restores : ℕ → StopCall
  schedules_handoff : String → StopCall
  records_outgoing : String → ℕ → StopCall
  delivers : BatchSettings → DeliveryReading → String → Bool → List QueuedMessage → StopCall
  delivers_urgently : BatchSettings → UrgentReading → QueuedMessage → List QueuedMessage → StopCall

abbrev pub is_cancel : Effect → Bool
is_cancel cancels_stop_notification = true
is_cancel _ = false

unfoldable pub has_cancel : List Effect → Bool
has_cancel [] = false
has_cancel (e ∷ effects) = let rest = has_cancel effects in if is_cancel e then true else rest

-- The delivery state and the delayed task behind a delivery.
abbrev pub after_delivery : Queue → Stops → Stops
after_delivery q s = record s {
  state = q.state;
  delayed = if has_cancel q.effects then none else s.delayed;
}

abbrev pub queue_with : List QueuedMessage → Stops → Queue
queue_with rows s = record { rows = rows; state = s.state; effects = [] }

unfoldable pub run_call : StopCall → Stops → Stops
unfolding has_cancel
run_call (stops window r) s = mark_session_idle window r s
run_call activates s = mark_session_active s
run_call (arms sender name delay) s = arm_stop_notify sender name delay s
run_call (fires now) s = run_delayed_stop_notification now s
run_call (invalidates arm_skip is_running now) s =
    invalidate_session_cache arm_skip is_running now s
run_call (clears_for_handoff now) s = clear_for_handoff now s
run_call (restores now) s = restore_idle now s
run_call (schedules_handoff path) s = schedule_handoff path s
run_call (records_outgoing target now) s = record_outgoing_sm_send_target target now s
run_call (delivers c r session important_only rows) s =
    after_delivery (try_deliver_messages c r session important_only (queue_with rows s)) s
run_call (delivers_urgently c u m rows) s =
    after_delivery (deliver_urgent c u m (queue_with rows s)) s

unfoldable pub run_calls : List StopCall → Stops → Stops
unfolding run_call
run_calls [] s = s
run_calls (call ∷ calls) s = run_calls calls (run_call call s)

-- 1 for the session, and 0 for none and any other
abbrev pub is_for : String → Option String → ℕ
is_for id none = 0
is_for id (some other) = if str_eq other id then 1 else 0

-- how many notifications of a stop went to a session
unfoldable pub count_notified : String → List StopEffect → ℕ
count_notified id [] = 0
count_notified id (notifies sender _ ∷ effects) =
    is_for id (some sender) + count_notified id effects
count_notified id (_ ∷ effects) = count_notified id effects

-- whether a message asks for a notification of this session at the next stop
abbrev pub asks_for : String → QueuedMessage → ℕ
asks_for id m = if m.notify_on_stop then is_for id m.sender_session_id else 0

unfoldable pub count_asking : String → List QueuedMessage → ℕ
count_asking id [] = 0
count_asking id (m ∷ messages) = asks_for id m + count_asking id messages

-- the batch that a delivery would send
abbrev pub batch_of :
    BatchSettings → DeliveryReading → String → Bool → List QueuedMessage → List QueuedMessage
batch_of c r session important_only rows =
    let pending = (get_pending_messages r.now session rows).1 in
    choose_batch c
      (if important_only then select (λ m. str_eq m.delivery_mode "important") pending else pending)

-- whether the terminal takes a batch
abbrev pub is_taken : DeliveryReading → List QueuedMessage → Bool
is_taken r batch =
    if only_rename batch then given r.friendly_name && r.rename_taken else r.text_taken

abbrev pub if_sent : Bool → ℕ → ℕ
if_sent sent n = if sent then n else 0

-- how often a call asks for a notification of this session
abbrev pub asked : String → StopCall → ℕ
asked id (arms sender _ _) = is_for id (some sender)
asked id (delivers c r session important_only rows) =
    let batch = batch_of c r session important_only rows in
    if_sent (is_taken r batch) (count_asking id batch)
asked id (delivers_urgently c u m rows) = if_sent u.reading.text_taken (asks_for id m)
asked id _ = 0

unfoldable pub count_asked : String → List StopCall → ℕ
count_asked id [] = 0
count_asked id (call ∷ calls) = asked id call + count_asked id calls

-- the notifications that are due to this session: at the next stop, and at the one behind it
abbrev pub due : String → DeliveryState → ℕ
due id state =
    is_for id state.stop_notify_sender_id + is_for id state.paste_buffered_notify_sender_id
