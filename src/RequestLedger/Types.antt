-- ===== src/RequestLedger/Types.antt =====
-- The data of src/codex_request_ledger.py: the row of `codex_pending_requests`, the dictionaries
-- that a request is reported by, the futures and the expiry tasks of the running process.
use claude_sessions.Prelude.{ℕ, String, Bool, true, false, Option, List}

pub data Status : Type 0 where
  pending expired resolved orphaned : Status

-- status IN ('pending', 'expired')
abbrev pub is_open : Status → Bool
is_open pending = true
is_open expired = true
is_open resolved = false
is_open orphaned = false

abbrev pub is_pending : Status → Bool
is_pending pending = true
is_pending _ = false

-- f"request is {status}"
abbrev pub unavailable_message : Status → String
unavailable_message pending = "request is pending"
unavailable_message expired = "request is expired"
unavailable_message resolved = "request is resolved"
unavailable_message orphaned = "request is orphaned"

-- A row of the table. The two ISO timestamps that SQL compares, and all others, are numbers of
-- microseconds.
pub record Request : Type 0 where
  pub request_id : String
  pub session_id : String
  pub process_generation : String
  pub rpc_request_id : ℕ
  pub thread_id : Option String
  pub turn_id : Option String
  pub item_id : Option String
  pub request_type : String
  pub request_method : String
  pub requested_at : ℕ
  pub expires_at : Option ℕ
  pub status : Status
  pub request_payload_json : Option String
  pub resolved_payload_json : Option String
  pub resolved_at : Option ℕ
  pub resolution_source : Option String
  pub error_code : Option String
  pub error_message : Option String

-- `json.dumps(_, separators=(",", ":"), default=str)` and `json.loads`.
pub record Codec (Payload : Type 0) : Type 0 where
  pub dumps : Payload → String
  pub loads : String → Payload

-- The dictionary of `get_request`, of a list entry and of a resolution's "request".
pub record View (Payload : Type 0) : Type 0 where
  pub request_id : String
  pub session_id : String
  pub thread_id : Option String
  pub turn_id : Option String
  pub item_id : Option String
  pub request_type : String
  pub request_method : String
  pub status : Status
  pub requested_at : ℕ
  pub expires_at : Option ℕ
  pub resolved_payload : Option Payload
  pub resolved_at : Option ℕ
  pub resolution_source : Option String
  pub error_code : Option String
  pub error_message : Option String

-- What `register_request` returns.
pub record Registered : Type 0 where
  pub request_id : String
  pub session_id : String
  pub request_type : String
  pub request_method : String
  pub requested_at : ℕ
  pub expires_at : ℕ
  pub status : Status

-- What `resolve_request` returns: "ok" with its "idempotent" flag, or "http_status" with the
-- error's code and message.
pub data Resolution (Payload : Type 0) : Type 0 where
  ok : Bool → View Payload → Resolution Payload
  failed : ℕ → String → String → Resolution Payload

-- An asyncio future of a waiter.
pub data Future (Payload : Type 0) : Type 0 where
  waiting : Future Payload
  result : Option Payload → Future Payload
  cancelled : Future Payload

abbrev pub is_done : {Payload : Type 0} → Future Payload → Bool
is_done waiting = false
is_done (result _) = true
is_done cancelled = true

-- A future, and whether `_pending_futures` still holds it. A waiter keeps the future after the
-- dictionary has let it go.
pub record Waiter (Payload : Type 0) : Type 0 where
  pub request_id : String
  pub tracked : Bool
  pub future : Future Payload

pub data Task : Type 0 where
  sleeping running stopped finished : Task

-- An expiry task, its arguments, and whether `_expiry_tasks` still holds it.
pub record Timer (Payload : Type 0) : Type 0 where
  pub request_id : String
  pub tracked : Bool
  pub task : Task
  pub timeout_seconds : ℕ
  pub policy_payload : Payload

pub record Ledger (Payload : Type 0) : Type 0 where
  pub process_generation : String
  pub rows : List Request
  pub waiters : List (Waiter Payload)
  pub timers : List (Timer Payload)

-- The arguments of `register_request`.
pub record NewRequest (Payload : Type 0) : Type 0 where
  pub session_id : String
  pub rpc_request_id : ℕ
  pub request_method : String
  pub request_payload : Payload
  pub thread_id : Option String
  pub turn_id : Option String
  pub item_id : Option String
  pub request_type : String
  pub timeout_seconds : ℕ
  pub policy_payload : Payload

-- The arguments of `resolve_request`.
pub record Answer (Payload : Type 0) : Type 0 where
  pub response_payload : Payload
  pub resolution_source : String
  pub error_code : Option String
  pub error_message : Option String
  pub allow_expired : Bool
