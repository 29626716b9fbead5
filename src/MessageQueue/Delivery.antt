-- ===== src/MessageQueue/Delivery.antt =====
-- `_try_deliver_messages` of src/message_queue.py, under the lock of its session. What is behind the
-- calls of other components is a reading: whether the session is paused and known, whether a user is
-- typing, and whether the terminal takes the text. The calls that it makes of the reminders, the
-- notifier and the response relay are returned as effects, in their order; their own writes are
-- outside this part.
use claude_sessions.Prelude.{
  ℕ, ◌+◌, String, Bool, true, false, not, ◌&&◌, ◌||◌, Option, none, some, List, [], ◌∷◌, ◌++◌, take,
  map, str_eq, ltb, is_some, if◌then◌else◌,
}
use claude_sessions.Sql.{select}
use claude_sessions.MessageQueue.{
  QueuedMessage, given, in_category, get_pending_messages, mark_delivered,
}
use claude_sessions.MessageQueue.State.{DeliveryState}
use mathlib.Core.Option

-- The calls that a delivery makes.
pub data Effect : Type 0 where
  -- `_deliver_provider_native_rename`, `_deliver_direct`
  renames : String → Effect
  sends : List String → Effect
  -- what an urgent delivery does to the session before it sends: the waking of a completed session, the
  -- backgrounding of a task, Escape; and `_deliver_urgent` of the session manager
  interrupts : Effect
  sends_urgent : String → Effect
  -- `_cancel_pending_stop_notification`
  cancels_stop_notification : Effect
  -- `_record_response_relay_inbound`
  relays_inbound : QueuedMessage → ℕ → Effect
  -- `cancel_tracked_remind_on_reply` and `refresh_persistent_tracked_remind`
  replies : String → String → Effect
  -- `_enqueue_telegram_mirror`
  mirrors : QueuedMessage → Effect
  -- `_send_delivery_notification`, `_schedule_followup_notification`
  notifies_delivery : QueuedMessage → Effect
  schedules_followup : QueuedMessage → Effect
  -- `register_periodic_remind`, `register_parent_wake`
  registers_remind : String → ℕ → ℕ → Option String → Bool → Effect
  registers_parent_wake : String → String → Effect
  -- the session's activity and status, `_save_state`, and for the provider codex
  -- `_schedule_codex_idle_reconcile`
  updates_session : Effect

pub record Queue : Type 0 where
  pub rows : List QueuedMessage
  pub state : DeliveryState
  pub effects : List Effect

-- What a delivery reads from outside; `input_at_prompt` is false for the provider codex-app.
pub record DeliveryReading : Type 0 where
  pub now : ℕ
  pub paused : Bool
  pub session_found : Bool
  pub input_at_prompt : Bool
  pub friendly_name : Option String
  pub rename_taken : Bool
  pub text_taken : Bool
  pub has_notifier : Bool

pub record BatchSettings : Type 0 where
  pub max_batch_size : ℕ
  pub remind_hard_gap_seconds : ℕ

abbrev pub is_rename : QueuedMessage → Bool
is_rename m = in_category "native_rename" m

unfoldable pub before_rename : List QueuedMessage → List QueuedMessage
before_rename [] = []
before_rename (m ∷ messages) =
    let rest = before_rename messages in if is_rename m then [] else m ∷ rest

-- a rename at the head goes alone, any other ends the batch
unfoldable pub isolate_rename : List QueuedMessage → List QueuedMessage
unfolding before_rename
isolate_rename [] = []
isolate_rename (m ∷ messages) = if is_rename m then m ∷ [] else m ∷ before_rename messages

abbrev pub only_rename : List QueuedMessage → Bool
only_rename [] = false
only_rename (m ∷ []) = is_rename m
only_rename (_ ∷ _ ∷ _) = false

-- the messages that a delivery sends together
unfoldable pub choose_batch : BatchSettings → List QueuedMessage → List QueuedMessage
unfolding isolate_rename
choose_batch c messages = isolate_rename (take c.max_batch_size messages)

abbrev pub perform : Effect → Queue → Queue
perform e q = record q { effects = q.effects ++ e ∷ [] }

unfoldable pub perform_if : Bool → Effect → Queue → Queue
perform_if b e q = if b then perform e q else q

-- the stop notification that the next stop will send
unfoldable pub track_sender : Bool → QueuedMessage → Queue → Queue
track_sender was_idle m q =
    if m.notify_on_stop && given m.sender_session_id
    then record (perform cancels_stop_notification q) {
      state =
          if was_idle
          then record (q.state) {
            stop_notify_sender_id = m.sender_session_id;
            stop_notify_sender_name = m.sender_name;
            stop_notify_delay_seconds = 0;
          }
          else record (q.state) {
            paste_buffered_notify_sender_id = m.sender_session_id;
            paste_buffered_notify_sender_name = m.sender_name;
          };
    }
    else q

abbrev pub nonzero : Option ℕ → Bool
nonzero none = false
nonzero (some n) = ltb 0 n

-- `msg.remind_hard_threshold or (msg.remind_soft_threshold + self.remind_hard_gap_seconds)`
abbrev pub hard_threshold : BatchSettings → ℕ → QueuedMessage → ℕ
hard_threshold c soft m =
    if nonzero m.remind_hard_threshold
    then Option.get_or m.remind_hard_threshold 0
    else soft + c.remind_hard_gap_seconds

unfoldable pub start_reminds : BatchSettings → QueuedMessage → Queue → Queue
unfolding perform_if
start_reminds c m q = elim m.remind_soft_threshold [
  | none ↦ q
  | some soft ↦
      let owner = m.remind_cancel_on_reply_session_id in
      let q' =
        perform
          (registers_remind m.target_session_id soft (hard_threshold c soft m) owner
            (is_some owner))
          q in
      perform_if (given m.parent_session_id)
        (registers_parent_wake m.target_session_id (Option.get_or m.parent_session_id "")) q'
]

-- what the other components are told of a message that was sent
unfoldable pub tell_others : DeliveryReading → QueuedMessage → Queue → Queue
unfolding perform_if
tell_others r m q =
    let from_sender = given m.sender_session_id in
    let relayed = perform (relays_inbound m r.now) q in
    let replied =
      perform_if (from_sender && not (is_some m.message_category))
        (replies (Option.get_or m.sender_session_id "") m.target_session_id) relayed in
    let mirrored = perform_if r.has_notifier (mirrors m) replied in
    let notified =
      perform_if (m.notify_on_delivery && from_sender) (notifies_delivery m) mirrored in
    perform_if (nonzero m.notify_after_seconds && from_sender) (schedules_followup m) notified

-- the body of the loop over a batch that was sent
unfoldable pub deliver_message :
    BatchSettings → DeliveryReading → Bool → QueuedMessage → Queue → Queue
unfolding mark_delivered tell_others track_sender start_reminds
deliver_message c r was_idle m q =
    let marked = record q { rows = mark_delivered r.now m.id q.rows } in
    start_reminds c m (track_sender was_idle m (tell_others r m marked))

unfoldable pub deliver_each :
    BatchSettings → DeliveryReading → Bool → List QueuedMessage → Queue → Queue
unfolding deliver_message
deliver_each c r was_idle [] q = q
deliver_each c r was_idle (m ∷ batch) q =
    deliver_each c r was_idle batch (deliver_message c r was_idle m q)

-- the session is active, and a stop notification that was delayed is dropped
unfoldable pub mark_active : Queue → Queue
mark_active q =
    let active = record q { state = record (q.state) { is_idle = false } } in
    if ltb 0 q.state.stop_notify_delay_seconds
    then record (perform cancels_stop_notification active) {
      state = record (q.state) {
        is_idle = false;
        stop_notify_sender_id = none;
        stop_notify_sender_name = none;
        stop_notify_delay_seconds = 0;
      };
    }
    else active

-- the sending of a batch, and whether it was taken
unfoldable pub send_batch : DeliveryReading → List QueuedMessage → Queue → Queue × Bool
send_batch r batch q =
    if only_rename batch
    then if given r.friendly_name
      then (perform (renames (Option.get_or r.friendly_name "")) q, r.rename_taken)
      else (q, false)
    else (perform (sends (map (λ m. m.text) batch)) q, r.text_taken)

-- from the choice of the batch on
unfoldable pub deliver_batch : BatchSettings → DeliveryReading → List QueuedMessage → Queue → Queue
unfolding send_batch deliver_each mark_delivered mark_active
deliver_batch c r batch q =
    let was_idle = q.state.is_idle in
    let (sent, taken) = send_batch r batch q in
    let delivered = perform updates_session (deliver_each c r was_idle batch (mark_active sent)) in
    if taken
    then delivered
    else if only_rename batch
    then record sent {
      rows = elim batch [ [] ↦ sent.rows | m ∷ _ ↦ mark_delivered r.now m.id sent.rows ];
    }
    else sent

abbrev pub is_none : List QueuedMessage → Bool
is_none [] = true
is_none (_ ∷ _) = false

-- `_try_deliver_messages`
unfoldable pub try_deliver_messages :
    BatchSettings → DeliveryReading → String → Bool → Queue → Queue
try_deliver_messages c r session important_only q =
    if r.paused || not r.session_found
    then q
    else let (rows, pending) = get_pending_messages r.now session q.rows in
      let read = record q { rows = rows } in
      let messages =
        if important_only
        then select (λ m. str_eq m.delivery_mode "important") pending
        else pending in
      if is_none messages
      then read
      else if r.input_at_prompt && not (given q.state.saved_user_input)
      then read
      else deliver_batch c r (choose_batch c messages) read
