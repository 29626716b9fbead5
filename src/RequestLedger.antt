-- ===== src/RequestLedger.antt =====
-- src/codex_request_ledger.py: the structured requests of a codex-app session (approvals, user
-- input), persisted, resolved once, and expired by a timer. Each method is a function of the ledger
-- and of the time that it reads; the methods of a section take the JSON codec.
pub mod Types
pub mod Rows
pub mod Effects
pub mod Runs
pub mod Settled
pub mod Unique
pub mod Waiters
pub mod Consistency
pub mod Outcomes
pub mod Listing
mod Tests
use claude_sessions.Prelude.{
  ℕ, ◌+◌, ◌*◌, max, String, Bool, true, false, ◌&&◌, ◌||◌, Option, none, some, List, [], ◌∷◌, ◌++◌,
  map, str_eq, if◌then◌else◌,
}
use claude_sessions.Sql.{select, fetch_one, update, exists, order_by}
use Types.{
  pending, resolved, is_open, is_pending, unavailable_message, Request, Codec, View, Registered,
  Resolution, ok, failed, Future, waiting, result, Waiter, sleeping, running, finished, Timer,
  Ledger, NewRequest, Answer,
}
use Rows.{
  has_id, row, load_json, view, from_prior_run, orphan_row, awaits, expire_row, open_in, pending_in,
  listed, holds, settle, abandon, set_task, new_row, resolve_row, accepts,
}
use mathlib.Core.Option

module _ {P : Type 0} where
  -- `__init__` and `_init_db` over the rows that the file holds: a new process has no futures and
  -- no tasks.
  pub init : ℕ → String → List Request → Ledger P
  unfolding orphan_row
  init now generation rows = record {
    process_generation = generation;
    rows =
        update (from_prior_run generation)
          (orphan_row now "server_restarted" "server restarted before request resolution") rows;
    waiters = [];
    timers = [];
  }

  -- `_mark_expired`: the flag is `cursor.rowcount > 0`.
  pub mark_expired : ℕ → String → Ledger P → Ledger P × Bool
  unfolding expire_row
  mark_expired now id l =
      (record l { rows = update (awaits id) (expire_row now) l.rows }, exists (awaits id) l.rows)

  -- `orphan_pending_for_session`
  pub settle_each : List Request → Ledger P → Ledger P
  settle_each [] l = l
  settle_each (r ∷ rs) l = settle_each rs (settle r.request_id none l)

  pub orphan_pending_for_session : ℕ → String → String → Ledger P → Ledger P
  unfolding settle_each orphan_row
  orphan_pending_for_session now session code l =
      settle_each (select (open_in session) l.rows) (record l {
        rows =
            update (open_in session)
              (orphan_row now code "session terminated before request resolution") l.rows;
      })

  -- The caller that awaits the future of `wait_for_resolution` is cancelled.
  pub cancel_waiter : String → Ledger P → Ledger P
  unfolding abandon
  cancel_waiter id l = record l {
    waiters =
        update (λ w. str_eq w.request_id id) (λ w. record w { future = abandon w.future })
          l.waiters;
  }

  -- `has_pending_requests`
  pub has_pending_requests : String → Ledger P → Bool
  has_pending_requests session l = exists (pending_in session) l.rows

  -- `oldest_pending_summary`: the identifier, the type and the time
  pub oldest_pending_summary : String → Ledger P → Option (String × String × ℕ)
  oldest_pending_summary session l =
      elim (order_by (λ (r : Request). r.requested_at) (select (pending_in session) l.rows)) [
        | [] ↦ none
        | r ∷ _ ↦ some (r.request_id, r.request_type, r.requested_at)
      ]

module _ {P : Type 0} (codec : Codec P) where
  -- `register_request`, with the identifier that `uuid4` made. The INSERT raises on an identifier
  -- that the table holds: `none`, with nothing changed.
  pub register_request : ℕ → String → NewRequest P → Ledger P → Option (Ledger P × Registered)
  unfolding new_row
  register_request now id q l =
      if exists (has_id id) l.rows
      then none
      else some (
        record l {
          rows = l.rows ++ new_row codec now id l.process_generation q ∷ [];
          waiters = l.waiters ++ record { request_id = id; tracked = true; future = waiting } ∷ [];
          timers =
              l.timers
              ++ record {
                request_id = id;
                tracked = true;
                task = sleeping;
                timeout_seconds = max 1 q.timeout_seconds;
                policy_payload = q.policy_payload;
              }
                ∷ [];
        },
        record {
          request_id = id;
          session_id = q.session_id;
          request_type = q.request_type;
          request_method = q.request_method;
          requested_at = now;
          expires_at = now + 1000000 * max 1 q.timeout_seconds;
          status = pending;
        },
      )

  -- The branches on the status of the row that was fetched.
  pub resolve_fetched : ℕ → String → Answer P → Request → Ledger P → Ledger P × Resolution P
  unfolding resolve_row view settle
  resolve_fetched now id a r l =
      if accepts a r
      then (
        settle id (some a.response_payload)
            (record l { rows = update (has_id id) (resolve_row codec now a) l.rows }),
        ok false (record (view codec (resolve_row codec now a r)) {
          resolved_payload = some a.response_payload;
        }),
      )
      else elim r.status [
        | resolved ↦ (settle id (view codec r).resolved_payload l, ok true (view codec r))
        | other ↦ (l, failed 404 "request_unavailable" (unavailable_message other))
      ]

  -- `resolve_request`
  pub resolve_request : ℕ → String → Answer P → Ledger P → Ledger P × Resolution P
  unfolding resolve_fetched
  resolve_request now id a l = elim (row id l) [
    | none ↦ (l, failed 404 "request_not_found" "request id not found")
    | some r ↦ resolve_fetched now id a r l
  ]

  abbrev expiry_answer : P → Answer P
  expiry_answer payload = record {
    response_payload = payload;
    resolution_source = "policy";
    error_code = some "request_expired";
    error_message = some "request expired before explicit response";
    allow_expired = true;
  }

  abbrev wake : String → Ledger P → Ledger P
  wake id l = record l { timers = set_task id running l.timers }

  -- What `_expire_after_timeout` does once its sleep is over. The clock is read twice.
  pub expire_after_timeout : ℕ → ℕ → String → P → Ledger P → Ledger P
  expire_after_timeout now later id payload l =
      let (marked, transitioned) = mark_expired now id (wake id l) in
      let l' =
        if transitioned
        then (resolve_request later id (expiry_answer payload) marked).0
        else marked in
      record l' { timers = set_task id finished l'.timers }

  -- `wait_for_resolution`: a future that the dictionary holds is awaited, else the row is read.
  pub wait_for_resolution : String → Ledger P → Future P
  unfolding load_json
  wait_for_resolution id l = elim (fetch_one (holds id) l.waiters) [
    | some w ↦ w.future
    | none ↦ elim (row id l) [
      | none ↦ result none
      | some r ↦
          result (elim r.status [ resolved ↦ load_json codec r.resolved_payload_json | _ ↦ none ])
    ]
  ]

  -- `get_request`
  pub get_request : String → Ledger P → Option (View P)
  unfolding view
  get_request id l = Option.map (view codec) (row id l)

  -- `list_requests`
  pub list_requests : String → Bool → Ledger P → List (View P)
  unfolding view
  list_requests session include_orphaned l =
      map (view codec)
        (order_by (λ r. r.requested_at) (select (listed session include_orphaned) l.rows))
