-- ===== src/MessageQueue/Tests.antt =====
-- The queue of messages at concrete messages.
use claude_sessions.Prelude.{
  true, false, String, Option, none, some, [], ◌∷◌, ◌++◌, ◌≡◌, refl, arith,
}
use claude_sessions.Sql.{IsUnique, select, fetch_one, order_by, place, update, delete}
use claude_sessions.MessageQueue.{
  cancel_queued_track_status_nudges, cancel_queued_track_reminds, QueuedMessage, MessageRequest,
  id_of, queue_message, new_message, was_message_delivered, mark_delivered, retire_session_queue,
  cancel_context_monitor_messages_from, cancel_queued_messages_for_target,
}
use claude_sessions.MessageQueue.Pending.{pending, queue_message-pending}
use claude_sessions.MessageQueue.Delivery.{
  Queue, DeliveryReading, BatchSettings, choose_batch, isolate_rename, before_rename,
  try_deliver_messages,
}
use claude_sessions.MessageQueue.Fifo.{dispatched, try_deliver_messages_fifo}

abbrev request : String → Option String → MessageRequest
request text category = record {
  target_session_id = "s";
  text = text;
  sender_session_id = some "em";
  sender_name = none;
  delivery_mode = "sequential";
  from_sm_send = true;
  timeout_seconds = none;
  notify_on_delivery = false;
  notify_after_seconds = none;
  notify_on_stop = true;
  remind_soft_threshold = none;
  remind_hard_threshold = none;
  remind_cancel_on_reply_session_id = none;
  parent_session_id = none;
  message_category = category;
  response_relay_source = none;
}

abbrev first : QueuedMessage
first = new_message "m-1" 1 (request "one" none)

abbrev rename : QueuedMessage
rename = new_message "m-2" 2 (request "/rename x" (some "native_rename"))

queue_message-pending_example :
    (pending 2 "s" (queue_message "m-2" 2 (request "two" none) (first ∷ [])).0
      ≡ pending 2 "s" (first ∷ [])
        ++ (queue_message "m-2" 2 (request "two" none) (first ∷ [])).1 ∷ [])
    × IsUnique id_of (queue_message "m-2" 2 (request "two" none) (first ∷ [])).0
unfolding new_message fetch_one
queue_message-pending_example =
    queue_message-pending "m-2" 2 (request "two" none) (first ∷ []) (refl, tt) refl (ground arith)

abbrev settings : BatchSettings
settings = record { max_batch_size = 10; remind_hard_gap_seconds = 120 }

abbrev reading : DeliveryReading
reading = record {
  now = 5;
  paused = false;
  session_found = true;
  input_at_prompt = false;
  friendly_name = some "x";
  rename_taken = false;
  text_taken = true;
  has_notifier = false;
}

abbrev queue : Queue
queue = record {
  rows = first ∷ rename ∷ [];
  state = record {
    is_idle = true;
    last_idle_at = none;
    stop_notify_skip_count = 0;
    skip_count_armed_at = none;
    last_outgoing_sm_send_target = none;
    last_outgoing_sm_send_at = none;
    pending_handoff_path = none;
    saved_user_input = none;
    stop_notify_sender_id = none;
    stop_notify_sender_name = none;
    stop_notify_delay_seconds = 0;
    paste_buffered_notify_sender_id = none;
    paste_buffered_notify_sender_name = none;
  };
  effects = [];
}

queue-IsUnique : IsUnique id_of queue.rows
unfolding fetch_one new_message
queue-IsUnique = (refl, (refl, tt))

try_deliver_messages_fifo_example :
    (pending 5 "s" queue.rows
      ≡ dispatched settings reading "s" queue
        ++ pending 5 "s" (try_deliver_messages settings reading "s" false queue).rows)
    × IsUnique id_of (try_deliver_messages settings reading "s" false queue).rows
try_deliver_messages_fifo_example =
    try_deliver_messages_fifo settings reading "s" queue queue-IsUnique

-- the message goes out without the rename behind it
delivers_first : dispatched settings reading "s" queue ≡ first ∷ []
unfolding select order_by place choose_batch isolate_rename before_rename new_message
delivers_first = refl

delivered : was_message_delivered "m-1" (mark_delivered 5 "m-1" queue.rows) ≡ true
unfolding was_message_delivered mark_delivered update fetch_one new_message
delivered = refl

retires_both : retire_session_queue "s" queue.rows ≡ ([], 2)
unfolding retire_session_queue select delete new_message
retires_both = refl

no_monitor_message : cancel_context_monitor_messages_from "em" queue.rows ≡ (queue.rows, 0)
unfolding cancel_context_monitor_messages_from select delete new_message
no_monitor_message = refl

cancels_rename : cancel_queued_messages_for_target "s" "native_rename" queue.rows ≡ (first ∷ [], 1)
unfolding cancel_queued_messages_for_target select delete new_message
cancels_rename = refl

-- a reminder of em about s is cancelled, the messages of s stay
abbrev track_remind : QueuedMessage
track_remind = record first {
  id = "m-3";
  target_session_id = "em";
  sender_session_id = some "s";
  message_category = some "track_remind";
}

cancels_track_remind :
    cancel_queued_track_reminds "s" "em" (first ∷ track_remind ∷ []) ≡ (first ∷ [], 1)
unfolding cancel_queued_track_reminds select delete new_message
cancels_track_remind = refl

no_nudge : cancel_queued_track_status_nudges "s" queue.rows ≡ (queue.rows, 0)
unfolding cancel_queued_track_status_nudges select delete new_message
no_nudge = refl
