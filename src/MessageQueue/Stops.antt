-- ===== src/MessageQueue/Stops.antt =====
-- The stops of a session in src/message_queue.py: who is notified of them, which are absorbed, and
-- which start a handoff. A method runs without a wait, so it is one step.
use claude_sessions.Prelude.{
  ℕ, ◌+◌, ◌-◌, ◌*◌, String, Bool, true, false, not, ◌&&◌, ◌||◌, ◌==◌, Option, none, some, List, [],
  ◌∷◌, ◌++◌, str_eq, ltb, if◌then◌else◌,
}
use claude_sessions.MessageQueue.{given}
use claude_sessions.MessageQueue.State.{DeliveryState, clear_stop_notify, forget_outgoing}

-- The entry of a session in `_pending_stop_notify_tasks`: the arguments of its task.
pub record Delayed : Type 0 where
  pub sender_session_id : String
  pub last_output : Option String
  pub delay_seconds : ℕ

-- The calls that a stop makes.
pub data StopEffect : Type 0 where
  -- `_send_stop_notification` to a sender
  notifies : String → Option String → StopEffect
  -- `_execute_handoff`, `_try_deliver_messages`
  executes_handoff : String → StopEffect
  tries_delivery : StopEffect
  -- `cancel_remind` and `cancel_parent_wake`
  cancels_reminds : StopEffect
  -- `_cancel_codex_idle_reconcile`
  cancels_reconcile : StopEffect

pub record Stops : Type 0 where
  pub state : DeliveryState
  pub delayed : Option Delayed
  pub effects : List StopEffect

-- The arguments of `mark_session_idle`, the clock, and whether the provider is codex-fork.
pub record Stop : Type 0 where
  pub now : ℕ
  pub last_output : Option String
  pub from_stop_hook : Bool
  pub completion_transition : Bool
  pub is_codex_fork : Bool

abbrev pub emit : StopEffect → Stops → Stops
emit e s = record s { effects = s.effects ++ e ∷ [] }

-- `_cancel_pending_stop_notification`
abbrev pub cancel_pending_stop_notification : Stops → Stops
cancel_pending_stop_notification s = record s { delayed = none }

abbrev pub same_text : Option String → Option String → Bool
same_text none none = true
same_text (some a) (some b) = str_eq a b
same_text none (some b) = false
same_text (some a) none = false

-- `at` is less than `window` seconds ago
abbrev pub within : ℕ → ℕ → Option ℕ → Bool
within now window none = false
within now window (some at) = ltb now (at + 1000000 * window)

-- `_suppress_recent_outgoing_stop_notify`
unfoldable pub suppress_recent_outgoing_stop_notify : ℕ → DeliveryState → Bool
suppress_recent_outgoing_stop_notify now state =
    given state.stop_notify_sender_id
    && given state.last_outgoing_sm_send_target
    && same_text state.stop_notify_sender_id state.last_outgoing_sm_send_target
    && within now 30 state.last_outgoing_sm_send_at

abbrev pub has_handoff : Stop → DeliveryState → Bool
has_handoff r state = r.from_stop_hook && given state.pending_handoff_path

-- a stop hook behind an armed fence; `window` is `skip_fence_window_seconds`
abbrev pub is_fenced : Stop → DeliveryState → Bool
is_fenced r state = r.from_stop_hook && ltb 0 state.stop_notify_skip_count

-- the stop hook of a /clear
unfoldable pub absorb : Stops → Stops
absorb s =
    let left = s.state.stop_notify_skip_count - 1 in
    emit tries_delivery (record s {
      state = record (s.state) {
        stop_notify_skip_count = left;
        skip_count_armed_at = if left == 0 then none else s.state.skip_count_armed_at;
      };
    })

abbrev pub reset_fence : Stops → Stops
reset_fence s = record s {
  state = record (s.state) { stop_notify_skip_count = 0; skip_count_armed_at = none };
}

-- the sender that waits is notified, now or after its delay
unfoldable pub notify_sender : Option String → Stops → Stops
notify_sender output s = elim s.state.stop_notify_sender_id [
  | none ↦ s
  | some sender ↦
      if str_eq sender ""
      then s
      else if ltb 0 s.state.stop_notify_delay_seconds
      then record s {
        delayed = some (record {
          sender_session_id = sender;
          last_output = output;
          delay_seconds = s.state.stop_notify_delay_seconds;
        });
      }
      else record (emit (notifies sender output) s) { state = clear_stop_notify s.state }
]

-- a sender of a text that was pasted in mid-turn waits for the next stop
unfoldable pub promote : Stops → Stops
promote s =
    if given s.state.paste_buffered_notify_sender_id
    then record s {
      state = record (s.state) {
        stop_notify_sender_id = s.state.paste_buffered_notify_sender_id;
        stop_notify_sender_name = s.state.paste_buffered_notify_sender_name;
        stop_notify_delay_seconds = 0;
        paste_buffered_notify_sender_id = none;
        paste_buffered_notify_sender_name = none;
      };
    }
    else s

unfoldable pub drop_suppressed : ℕ → Stops → Stops
unfolding suppress_recent_outgoing_stop_notify
drop_suppressed now s =
    if suppress_recent_outgoing_stop_notify now s.state
    then record s { state = forget_outgoing (clear_stop_notify s.state) }
    else s

unfoldable pub drop_for_fork : Bool → Stops → Stops
drop_for_fork is_fork s =
    if is_fork
    then record (cancel_pending_stop_notification s) {
      state = record (clear_stop_notify s.state) {
        paste_buffered_notify_sender_id = none;
        paste_buffered_notify_sender_name = none;
      };
    }
    else s

-- from "NOT absorbed" on
unfoldable pub complete_stop : Stop → Stops → Stops
unfolding notify_sender promote drop_suppressed drop_for_fork
complete_stop r s =
    let ended = if r.from_stop_hook || r.completion_transition then emit cancels_reminds s else s in
    let idle = record ended {
      state = record (ended.state) { is_idle = true; last_idle_at = some r.now };
    } in
    emit tries_delivery (
      promote
        (notify_sender r.last_output (drop_for_fork r.is_codex_fork (drop_suppressed r.now idle))))

abbrev pub start_handoff : Stops → Stops
start_handoff s = elim s.state.pending_handoff_path [
  | none ↦ s
  | some path ↦ record (emit (executes_handoff path) s) {
    state = record (s.state) { pending_handoff_path = none; is_idle = false };
  }
]

-- `mark_session_idle`
unfoldable pub mark_session_idle : ℕ → Stop → Stops → Stops
unfolding absorb complete_stop
mark_session_idle window r s =
    let s' = emit cancels_reconcile s in
    if has_handoff r s.state
    then start_handoff s'
    else if is_fenced r s.state
    then if within r.now window s.state.skip_count_armed_at
      then absorb s'
      else complete_stop r (reset_fence s')
    else complete_stop r s'

-- `mark_session_active`, less the status of the session
unfoldable pub mark_session_active : Stops → Stops
mark_session_active s =
    let idle_over =
      cancel_pending_stop_notification
        (record (emit cancels_reconcile s) { state = record (s.state) { is_idle = false } }) in
    if ltb 0 s.state.stop_notify_delay_seconds
    then record idle_over { state = clear_stop_notify idle_over.state }
    else idle_over

-- `arm_stop_notify`
unfoldable pub arm_stop_notify : String → String → ℕ → Stops → Stops
arm_stop_notify sender name delay s = record (cancel_pending_stop_notification s) {
  state = record (s.state) {
    stop_notify_sender_id = some sender;
    stop_notify_sender_name = some name;
    stop_notify_delay_seconds = delay;
  };
}

-- what `_run_delayed_stop_notification` tests behind its sleep
abbrev pub is_current : Delayed → DeliveryState → Bool
is_current d state =
    state.is_idle
    && same_text state.stop_notify_sender_id (some d.sender_session_id)
    && (state.stop_notify_delay_seconds == d.delay_seconds)

-- `_run_delayed_stop_notification` behind its sleep, of the task that is the session's
unfoldable pub run_delayed_stop_notification : ℕ → Stops → Stops
unfolding suppress_recent_outgoing_stop_notify
run_delayed_stop_notification now s = elim s.delayed [
  | none ↦ s
  | some d ↦
      let over = record s { delayed = none } in
      if not (is_current d s.state)
      then over
      else if suppress_recent_outgoing_stop_notify now s.state
      then record over { state = forget_outgoing (clear_stop_notify s.state) }
      else record (emit (notifies d.sender_session_id d.last_output) over) {
        state = clear_stop_notify s.state;
      }
]
