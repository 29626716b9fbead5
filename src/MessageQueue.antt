-- ===== src/MessageQueue.antt =====
-- src/message_queue.py: the messages that wait for delivery to sessions, the table message_queue. A
-- message's row and the `QueuedMessage` (src/models.py) that is read from it are one record here;
-- times are numbers, in the order of their ISO texts.
pub mod Pending
pub mod State
pub mod Delivery
pub mod Urgent
pub mod Stops
pub mod Clears
pub mod StopCalls
pub mod StopCounts
pub mod DueCounts
pub mod Notified
pub mod StopTurns
pub mod TurnEnds
pub mod Batches
pub mod Fifo
mod Tests
mod StopTests
use claude_sessions.Prelude.{
  ℕ, ◌+◌, ◌*◌, zero, suc, String, Bool, true, false, not, ◌&&◌, Option, none, some, List, [], ◌∷◌,
  ◌++◌, length, str_eq, ltb, is_some, map, if◌then◌else◌,
}
use claude_sessions.Sql.{select, fetch_one, update, delete, order_by}

-- `QueuedMessage`
pub record QueuedMessage : Type 0 where
  pub id : String
  pub target_session_id : String
  pub sender_session_id : Option String
  pub sender_name : Option String
  pub text : String
  pub delivery_mode : String
  pub from_sm_send : Bool
  pub queued_at : ℕ
  pub timeout_at : Option ℕ
  pub notify_on_delivery : Bool
  pub notify_after_seconds : Option ℕ
  pub notify_on_stop : Bool
  pub delivered_at : Option ℕ
  pub remind_soft_threshold : Option ℕ
  pub remind_hard_threshold : Option ℕ
  pub remind_cancel_on_reply_session_id : Option String
  pub parent_session_id : Option String
  pub message_category : Option String
  pub response_relay_source : Option String

abbrev pub id_of : QueuedMessage → String
id_of m = m.id

abbrev pub has_message_id : String → QueuedMessage → Bool
has_message_id id m = str_eq m.id id

-- a text that is there and not empty
abbrev pub given : Option String → Bool
given none = false
given (some text) = not (str_eq text "")

-- WHERE target_session_id = ? AND delivered_at IS NULL
abbrev pub waits : String → QueuedMessage → Bool
waits session m = str_eq m.target_session_id session && not (is_some m.delivered_at)

abbrev pub in_category : String → QueuedMessage → Bool
in_category category m = elim m.message_category [ none ↦ false | some c ↦ str_eq c category ]

abbrev pub sent_by : String → QueuedMessage → Bool
sent_by sender m = elim m.sender_session_id [ none ↦ false | some s ↦ str_eq s sender ]

-- `msg.timeout_at and datetime.now() > msg.timeout_at`
abbrev pub is_expired : ℕ → QueuedMessage → Bool
is_expired now m = elim m.timeout_at [ none ↦ false | some t ↦ ltb t now ]

-- `_mark_expired`
abbrev pub delete_expired : String → List QueuedMessage → List QueuedMessage
delete_expired id rows = delete (has_message_id id) rows

-- the loop of `get_pending_messages`: the expired messages are deleted, the others are returned
unfoldable pub skip_expired :
    ℕ → List QueuedMessage → List QueuedMessage → List QueuedMessage × List QueuedMessage
skip_expired now [] rows = (rows, [])
skip_expired now (m ∷ messages) rows =
    let skipped = skip_expired now messages (delete_expired m.id rows) in
    let (rows', kept) = skip_expired now messages rows in
    if is_expired now m then skipped else (rows', m ∷ kept)

-- `get_pending_messages`, at one reading of the clock
unfoldable pub get_pending_messages :
    ℕ → String → List QueuedMessage → List QueuedMessage × List QueuedMessage
unfolding skip_expired
get_pending_messages now session rows =
    skip_expired now (order_by (λ m. m.queued_at) (select (waits session) rows)) rows

-- `_mark_delivered`
unfoldable pub mark_delivered : ℕ → String → List QueuedMessage → List QueuedMessage
mark_delivered now id rows =
    update (has_message_id id) (λ m. record m { delivered_at = some now }) rows

-- `was_message_delivered`
unfoldable pub was_message_delivered : String → List QueuedMessage → Bool
was_message_delivered id rows = elim (fetch_one (has_message_id id) rows) [
  | none ↦ false
  | some m ↦ is_some m.delivered_at
]

-- The arguments of `queue_message`.
pub record MessageRequest : Type 0 where
  pub target_session_id : String
  pub text : String
  pub sender_session_id : Option String
  pub sender_name : Option String
  pub delivery_mode : String
  pub from_sm_send : Bool
  pub timeout_seconds : Option ℕ
  pub notify_on_delivery : Bool
  pub notify_after_seconds : Option ℕ
  pub notify_on_stop : Bool
  pub remind_soft_threshold : Option ℕ
  pub remind_hard_threshold : Option ℕ
  pub remind_cancel_on_reply_session_id : Option String
  pub parent_session_id : Option String
  pub message_category : Option String
  pub response_relay_source : Option String

-- `now + timedelta(seconds=timeout_seconds) if timeout_seconds else None`, in microseconds
abbrev pub timeout_from : ℕ → Option ℕ → Option ℕ
timeout_from now none = none
timeout_from now (some zero) = none
timeout_from now (some (suc n)) = some (now + 1000000 * suc n)

-- `response_relay_source or ("sm-send" if from_sm_send else None)`
abbrev pub relay_source : Option String → Bool → Option String
relay_source source from_sm_send =
    if given source then source else if from_sm_send then some "sm-send" else none

-- the message that `queue_message` makes; `id` is new
unfoldable pub new_message : String → ℕ → MessageRequest → QueuedMessage
new_message id now r = record {
  id = id;
  target_session_id = r.target_session_id;
  sender_session_id = r.sender_session_id;
  sender_name = r.sender_name;
  text = r.text;
  delivery_mode = r.delivery_mode;
  from_sm_send = r.from_sm_send;
  queued_at = now;
  timeout_at = timeout_from now r.timeout_seconds;
  notify_on_delivery = r.notify_on_delivery;
  notify_after_seconds = r.notify_after_seconds;
  notify_on_stop = r.notify_on_stop;
  delivered_at = none;
  remind_soft_threshold = r.remind_soft_threshold;
  remind_hard_threshold = r.remind_hard_threshold;
  remind_cancel_on_reply_session_id = r.remind_cancel_on_reply_session_id;
  parent_session_id = r.parent_session_id;
  message_category = r.message_category;
  response_relay_source = relay_source r.response_relay_source r.from_sm_send;
}

-- `queue_message` up to the triggering of a delivery: the INSERT, and the reading of the queue's length
unfoldable pub queue_message :
    String → ℕ → MessageRequest → List QueuedMessage → List QueuedMessage × QueuedMessage
unfolding new_message get_pending_messages
queue_message id now r rows =
    let m = new_message id now r in
    ((get_pending_messages now r.target_session_id (rows ++ m ∷ [])).0, m)

-- the writes of `_cleanup_messages_for_session` and `retire_session_queue` in this table, with the
-- number that the latter returns; it goes on to cancel the reminders of the session
unfoldable pub retire_session_queue : String → List QueuedMessage → List QueuedMessage × ℕ
retire_session_queue session rows =
    (delete (waits session) rows, length (select (waits session) rows))

-- `cancel_context_monitor_messages_from`
unfoldable pub cancel_context_monitor_messages_from :
    String → List QueuedMessage → List QueuedMessage × ℕ
cancel_context_monitor_messages_from sender rows =
    let p : QueuedMessage → Bool =
      λ m. sent_by sender m && in_category "context_monitor" m && not (is_some m.delivered_at) in
    (delete p rows, length (select p rows))

-- `cancel_queued_messages_for_target`
unfoldable pub cancel_queued_messages_for_target :
    String → String → List QueuedMessage → List QueuedMessage × ℕ
cancel_queued_messages_for_target session category rows =
    let p : QueuedMessage → Bool = λ m. waits session m && in_category category m in
    (delete p rows, length (select p rows))

-- `cancel_queued_track_reminds`: the reminders of an owner about a session
unfoldable pub cancel_queued_track_reminds :
    String → String → List QueuedMessage → List QueuedMessage × ℕ
cancel_queued_track_reminds tracked owner rows =
    let p : QueuedMessage → Bool =
      λ m. waits owner m && sent_by tracked m && in_category "track_remind" m in
    (delete p rows, length (select p rows))

-- `cancel_queued_track_status_nudges`
unfoldable pub cancel_queued_track_status_nudges :
    String → List QueuedMessage → List QueuedMessage × ℕ
cancel_queued_track_status_nudges target rows =
    let p : QueuedMessage → Bool = λ m. waits target m && in_category "track_status_nudge" m in
    (delete p rows, length (select p rows))
