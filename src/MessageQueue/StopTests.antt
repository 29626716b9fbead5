-- ===== src/MessageQueue/StopTests.antt =====
-- The stops of a session at a concrete message.
use claude_sessions.Prelude.{◌≤◌, true, false, none, some, [], ◌∷◌, ◌≡◌, refl, ℕ, ◌+◌, arith}
use claude_sessions.MessageQueue.{Bool, List, QueuedMessage, new_message}
use claude_sessions.MessageQueue.Delivery.{Queue, DeliveryReading, BatchSettings, deliver_message}
use claude_sessions.MessageQueue.Stops.{Stop, Stops, mark_session_idle}
use claude_sessions.MessageQueue.StopCalls.{
  StopCall, delivers, stops, run_calls, count_notified, count_asked, due, after_delivery,
}
use claude_sessions.MessageQueue.Notified.{notified_at_most_asked}
use claude_sessions.MessageQueue.StopTurns.{run_stops, with_absorbed, hook_count, fence_absorbs}

abbrev task : QueuedMessage
task = new_message "m-1" 1 (record {
  target_session_id = "s";
  text = "do it";
  sender_session_id = some "em";
  sender_name = none;
  delivery_mode = "sequential";
  from_sm_send = true;
  timeout_seconds = none;
  notify_on_delivery = false;
  notify_after_seconds = none;
  notify_on_stop = true;
  remind_soft_threshold = none;
  remind_hard_threshold = none;
  remind_cancel_on_reply_session_id = none;
  parent_session_id = none;
  message_category = none;
  response_relay_source = none;
})

abbrev settings : BatchSettings
settings = record { max_batch_size = 10; remind_hard_gap_seconds = 120 }

abbrev reading : DeliveryReading
reading = record {
  now = 5;
  paused = false;
  session_found = true;
  input_at_prompt = false;
  friendly_name = none;
  rename_taken = false;
  text_taken = true;
  has_notifier = false;
}

abbrev hook : ℕ → Stop
hook at = record {
  now = at;
  last_output = some "done";
  from_stop_hook = true;
  completion_transition = false;
  is_codex_fork = false;
}

-- an idle session with this many slots of a fence
abbrev idle_session : ℕ → Stops
idle_session slots = record {
  state = record {
    is_idle = true;
    last_idle_at = none;
    saved_user_input = none;
    stop_notify_sender_id = none;
    stop_notify_sender_name = none;
    stop_notify_skip_count = slots;
    skip_count_armed_at = some 1;
    last_outgoing_sm_send_target = none;
    last_outgoing_sm_send_at = none;
    pending_handoff_path = none;
    paste_buffered_notify_sender_id = none;
    paste_buffered_notify_sender_name = none;
    stop_notify_delay_seconds = 0;
  };
  delayed = none;
  effects = [];
}

abbrev calls : List StopCall
calls = delivers settings reading "s" false (task ∷ []) ∷ stops 8 (hook 6) ∷ stops 8 (hook 7) ∷ []

notified_at_most_asked_example :
    count_notified "em" (run_calls calls (idle_session 0)).effects
      + due "em" (run_calls calls (idle_session 0)).state
    ≤ (0 + 0) + count_asked "em" calls
unfolding count_notified
notified_at_most_asked_example = notified_at_most_asked "em" calls (idle_session 0)

fence_absorbs_example :
    ((run_stops 8 (hook 2 ∷ hook 3 ∷ []) (idle_session 2)).state
      ≡ with_absorbed (hook_count (hook 2 ∷ hook 3 ∷ [])) (idle_session 2).state)
    × (((run_stops 8 (hook 2 ∷ hook 3 ∷ []) (idle_session 2)).delayed ≡ none)
        × (count_notified "em" (run_stops 8 (hook 2 ∷ hook 3 ∷ []) (idle_session 2)).effects
            ≡ count_notified "em" []))
unfolding hook_count
fence_absorbs_example =
    fence_absorbs 8 "em" (hook 2 ∷ hook 3 ∷ []) (idle_session 2) refl (omega arith)
      ((refl, refl), ((refl, refl), tt))

abbrev queue : Queue
queue = record { rows = task ∷ []; state = (idle_session 0).state; effects = [] }

-- the session when the task was delivered to it
abbrev told : Bool → Stops
told was_idle =
    after_delivery (deliver_message settings reading was_idle task queue) (idle_session 0)

abbrev after_first : Bool → Stops
after_first was_idle = mark_session_idle 8 (hook 6) (told was_idle)
