-- ===== src/MessageQueue/Urgent.antt =====
-- `_deliver_urgent` of src/message_queue.py: one message goes out at once, ahead of those that wait.
use claude_sessions.Prelude.{Bool, true, not, ◌&&◌, ◌||◌, [], ◌∷◌, is_some, if◌then◌else◌}
use claude_sessions.MessageQueue.{QueuedMessage, given, mark_delivered}
use claude_sessions.MessageQueue.Delivery.{
  Queue, DeliveryReading, BatchSettings, relays_inbound, replies, notifies_delivery, sends,
  sends_urgent, interrupts, perform, perform_if, mark_active, track_sender, start_reminds,
}
use mathlib.Core.Option

-- What it reads beside a delivery's reading: the provider, and whether the session could be woken and
-- interrupted. An exception on the way counts as a session that could not.
pub record UrgentReading : Type 0 where
  pub reading : DeliveryReading
  pub is_codex_app : Bool
  pub interrupted : Bool

-- the message was taken; the sender waits for the next stop, whatever the session was doing
unfoldable pub finish_urgent : BatchSettings → DeliveryReading → QueuedMessage → Queue → Queue
unfolding mark_delivered perform_if mark_active track_sender start_reminds
finish_urgent c r m q =
    let from_sender = given m.sender_session_id in
    let marked = record q { rows = mark_delivered r.now m.id q.rows } in
    let active = mark_active (perform (relays_inbound m r.now) marked) in
    let replied =
      perform_if (from_sender && not (is_some m.message_category))
        (replies (Option.get_or m.sender_session_id "") m.target_session_id) active in
    let notified = perform_if (m.notify_on_delivery && from_sender) (notifies_delivery m) replied in
    start_reminds c m (track_sender true m notified)

-- `_deliver_urgent`
unfoldable pub deliver_urgent : BatchSettings → UrgentReading → QueuedMessage → Queue → Queue
unfolding finish_urgent
deliver_urgent c u m q =
    let r = u.reading in
    let by_app = perform (sends_urgent m.text) q in
    let ready = perform interrupts q in
    let sent = perform (sends (m.text ∷ [])) ready in
    if r.paused || not r.session_found
    then q
    else if u.is_codex_app
    then if r.text_taken then finish_urgent c r m by_app else by_app
    else if not u.interrupted
    then ready
    else if r.text_taken
    then finish_urgent c r m sent
    else sent
