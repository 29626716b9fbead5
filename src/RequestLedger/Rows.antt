-- ===== src/RequestLedger/Rows.antt =====
-- The rows, futures and tasks of src/codex_request_ledger.py, and what its statements change in them.
use claude_sessions.Prelude.{
  ℕ, ◌+◌, ◌*◌, max, String, Bool, true, false, not, ◌&&◌, ◌||◌, Option, none, some, List, str_eq,
  if◌then◌else◌,
}
use claude_sessions.Sql.{fetch_one, update}
use claude_sessions.RequestLedger.Types.{
  pending, expired, resolved, orphaned, is_open, is_pending, Request, Codec, View, Future, waiting,
  result, cancelled, Waiter, Task, sleeping, stopped, Timer, Ledger, NewRequest, Answer,
}

-- WHERE request_id = ?
abbrev pub has_id : String → Request → Bool
has_id id r = str_eq r.request_id id

abbrev pub row : {P : Type 0} → String → Ledger P → Option Request
row id l = fetch_one (has_id id) l.rows

-- `json.loads(text) if text else None`
unfoldable pub load_json : {P : Type 0} → Codec P → Option String → Option P
load_json codec none = none
load_json codec (some text) = if str_eq text "" then none else some (codec.loads text)

unfoldable pub view : {P : Type 0} → Codec P → Request → View P
unfolding load_json
view codec r = record {
  request_id = r.request_id;
  session_id = r.session_id;
  thread_id = r.thread_id;
  turn_id = r.turn_id;
  item_id = r.item_id;
  request_type = r.request_type;
  request_method = r.request_method;
  status = r.status;
  requested_at = r.requested_at;
  expires_at = r.expires_at;
  resolved_payload = load_json codec r.resolved_payload_json;
  resolved_at = r.resolved_at;
  resolution_source = r.resolution_source;
  error_code = r.error_code;
  error_message = r.error_message;
}

-- The row is open, and of another run of the server.
abbrev pub from_prior_run : String → Request → Bool
from_prior_run generation r = is_open r.status && not (str_eq r.process_generation generation)

unfoldable pub orphan_row : ℕ → String → String → Request → Request
orphan_row now code message r = record r {
  status = orphaned;
  resolved_at = some now;
  resolution_source = some "policy";
  error_code = some code;
  error_message = some message;
}

abbrev pub awaits : String → Request → Bool
awaits id r = has_id id r && is_pending r.status

unfoldable pub expire_row : ℕ → Request → Request
expire_row now r = record r {
  status = expired;
  resolved_at = some now;
  resolution_source = some "policy";
  error_code = some "request_expired";
  error_message = some "request expired before explicit response";
}

abbrev pub open_in : String → Request → Bool
open_in session r = str_eq r.session_id session && is_open r.status

abbrev pub pending_in : String → Request → Bool
pending_in session r = str_eq r.session_id session && is_pending r.status

abbrev pub listed : String → Bool → Request → Bool
listed session include_orphaned r =
    str_eq r.session_id session
    && elim r.status [ pending ↦ true | orphaned ↦ include_orphaned | _ ↦ false ]

-- A task that runs cancels itself to no effect: nothing is awaited after `resolve_request`.
unfoldable pub cancel_task : Task → Task
cancel_task sleeping = stopped
cancel_task task = task

module _ {P : Type 0} where
  -- set_result, unless the future is done
  unfoldable pub fulfil : Option P → Future P → Future P
  fulfil value waiting = result value
  fulfil value future = future

  -- Takes the future out of `_pending_futures`, and sets its result.
  abbrev pub holds : String → Waiter P → Bool
  holds id w = str_eq w.request_id id && w.tracked

  unfoldable pub settle_waiter : String → Option P → List (Waiter P) → List (Waiter P)
  unfolding fulfil
  settle_waiter id value =
      update (holds id) (λ w. record w { tracked = false; future = fulfil value w.future })

  -- Takes the task out of `_expiry_tasks`, and cancels it.
  unfoldable pub cancel_timer : String → List (Timer P) → List (Timer P)
  unfolding cancel_task
  cancel_timer id =
      update (λ t. str_eq t.request_id id && t.tracked)
        (λ t. record t { tracked = false; task = cancel_task t.task })

  -- Both pops behind the database lock.
  unfoldable pub settle : String → Option P → Ledger P → Ledger P
  unfolding settle_waiter cancel_timer
  settle id value l = record l {
    waiters = settle_waiter id value l.waiters;
    timers = cancel_timer id l.timers;
  }

  -- The caller that awaits a future is cancelled.
  unfoldable pub abandon : Future P → Future P
  abandon waiting = cancelled
  abandon future = future

  unfoldable pub set_task : String → Task → List (Timer P) → List (Timer P)
  set_task id task = update (λ t. str_eq t.request_id id) (λ t. record t { task = task })

-- The condition of `resolve_request` on the status that it read.
abbrev pub accepts : {P : Type 0} → Answer P → Request → Bool
accepts a r = is_open r.status && (is_pending r.status || a.allow_expired)

module _ {P : Type 0} (codec : Codec P) where
  unfoldable pub new_row : ℕ → String → String → NewRequest P → Request
  new_row now id generation q = record {
    request_id = id;
    session_id = q.session_id;
    process_generation = generation;
    rpc_request_id = q.rpc_request_id;
    thread_id = q.thread_id;
    turn_id = q.turn_id;
    item_id = q.item_id;
    request_type = q.request_type;
    request_method = q.request_method;
    requested_at = now;
    expires_at = some (now + 1000000 * max 1 q.timeout_seconds);
    status = pending;
    request_payload_json = some (codec.dumps q.request_payload);
    resolved_payload_json = none;
    resolved_at = none;
    resolution_source = none;
    error_code = none;
    error_message = none;
  }

  unfoldable pub resolve_row : ℕ → Answer P → Request → Request
  resolve_row now a r = record r {
    status = resolved;
    resolved_payload_json = some (codec.dumps a.response_payload);
    resolved_at = some now;
    resolution_source = some a.resolution_source;
    error_code = a.error_code;
    error_message = a.error_message;
  }
