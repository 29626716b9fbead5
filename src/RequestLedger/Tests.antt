-- ===== src/RequestLedger/Tests.antt =====
-- Runs of the ledger at concrete requests, and its theorems at them.
use claude_sessions.Prelude.{
  str_eq, String, ◌≡◌, refl, true, false, Option, none, some, [], ◌∷◌, map, if◌then◌else◌, is_some,
}
use claude_sessions.Sql.{select, fetch_one, update, order_by, IsAscending, head}
use claude_sessions.RequestLedger.Types.{
  pending, resolved, orphaned, Request, Codec, View, Ledger, NewRequest, Answer, Waiter, waiting,
  result, Registered, ok,
}
use claude_sessions.RequestLedger.Rows.{row, listed, view}
use claude_sessions.RequestLedger.{
  init, mark_expired, orphan_pending_for_session, cancel_waiter, resolve_request, register_request,
  expire_after_timeout, wait_for_resolution, list_requests, oldest_pending_summary,
}
use claude_sessions.RequestLedger.Runs.{register, resolve, expire, orphan, Reach, here, next}
use claude_sessions.RequestLedger.Settled.{Reach-closed}
use claude_sessions.RequestLedger.Waiters.{waiter}
use claude_sessions.RequestLedger.Consistency.{IsConsistent, Reach-IsConsistent, init-IsConsistent}
use claude_sessions.RequestLedger.Outcomes.{
  refusal, refused_with, first_answer_wins, answer_reaches_waiter, resolve_request-refusal,
  expiry_resolves, init_orphans,
}
use claude_sessions.RequestLedger.Listing.{
  at_view, list_requests_exact, oldest_pending_summary_first,
}
use mathlib.Core.List.{Perm}
use mathlib.Core.Option

-- payloads that are their own JSON text
abbrev plain : Codec String
plain = record { dumps = λ p. p; loads = λ t. t }

abbrev approval : NewRequest String
approval = record {
  session_id = "s1";
  rpc_request_id = 7;
  request_method = "item/commandExecution/requestApproval";
  request_payload = "{}";
  thread_id = some "t";
  turn_id = none;
  item_id = none;
  request_type = "request_approval";
  timeout_seconds = 0;
  policy_payload = "decline";
}

abbrev one_row : Request
one_row = record {
  request_id = "r1";
  session_id = "s1";
  process_generation = "g1";
  rpc_request_id = 7;
  thread_id = some "t";
  turn_id = none;
  item_id = none;
  request_type = "request_approval";
  request_method = "item/commandExecution/requestApproval";
  requested_at = 100;
  expires_at = some 1000100;
  status = pending;
  request_payload_json = some "{}";
  resolved_payload_json = none;
  resolved_at = none;
  resolution_source = none;
  error_code = none;
  error_message = none;
}

abbrev empty : Ledger String
empty = record { process_generation = "g1"; rows = []; waiters = []; timers = [] }

abbrev one_waiter : Waiter String
one_waiter = record { request_id = "r1"; tracked = true; future = waiting }

abbrev accept : Answer String
accept = record {
  response_payload = "accept";
  resolution_source = "cli";
  error_code = none;
  error_message = none;
  allow_expired = false;
}

abbrev reject : Answer String
reject = record accept { response_payload = "reject" }

program : Unit {0}
unfolding init mark_expired orphan_pending_for_session cancel_waiter resolve_request
    register_request expire_after_timeout wait_for_resolution list_requests select fetch_one update
    order_by
program = tt

-- the ledger after the request is registered
abbrev state : Option (Ledger String × Registered) → Ledger String
state none = empty
state (some (l, _)) = l

abbrev one : Ledger String
one = state (register_request plain 100 "r1" approval empty)

one_row_lem : row "r1" one ≡ some one_row
unfolding program
one_row_lem = refl

one_waiter_lem : waiter "r1" one ≡ some one_waiter
unfolding program
one_waiter_lem = refl

abbrev done : Ledger String
done = (resolve_request plain 200 "r1" accept one).0

abbrev done_row : Request
done_row = record one_row {
  status = resolved;
  resolved_payload_json = some "accept";
  resolved_at = some 200;
  resolution_source = some "cli";
}

done_row_lem : row "r1" done ≡ some done_row
unfolding program
done_row_lem = refl

-- A late timer and the end of the session, after the answer.
abbrev late : Ledger String
late =
    orphan_pending_for_session 400 "s1" "session_closed"
      (expire_after_timeout plain 300 301 "r1" "decline" done)

late_run : Reach plain done late
late_run = next (next here (expire 300 301 "r1" "decline")) (orphan 400 "s1" "session_closed")

Reach-closed_example : row "r1" late ≡ some done_row
Reach-closed_example = Reach-closed plain "r1" done_row refl late_run done_row_lem

one_run : Reach plain (init 50 "g1" []) late
unfolding program
one_run =
    next
      (next
        (next
          (next here (
            register 100 "r1" approval
              {s = record {
                request_id = "r1";
                session_id = "s1";
                request_type = "request_approval";
                request_method = "item/commandExecution/requestApproval";
                requested_at = 100;
                expires_at = 1000100;
                status = pending;
              }}
              refl))
          (resolve 200 "r1" accept))
        (expire 300 301 "r1" "decline"))
      (orphan 400 "s1" "session_closed")

init-IsConsistent_example : IsConsistent (init {P = String} 50 "g2" (one_row ∷ []))
unfolding fetch_one
init-IsConsistent_example = init-IsConsistent 50 "g2" (one_row ∷ []) (refl, tt)

Reach-IsConsistent_example : IsConsistent late
Reach-IsConsistent_example = Reach-IsConsistent plain one_run (init-IsConsistent 50 "g1" [] tt)

first_answer_wins_example :
    (v : View String) × ((resolve_request plain 500 "r1" reject late).1 ≡ ok true v)
    × (v.resolved_payload ≡ some "accept")
    × (v.resolution_source ≡ some "cli")
    × ((resolve_request plain 500 "r1" reject late).0.rows ≡ late.rows)
first_answer_wins_example =
    first_answer_wins plain "r1" 200 500 accept reject one_row one late one_row_lem refl refl refl
      late_run

answer_reaches_waiter_example :
    waiter "r1" done
    ≡ some (record { request_id = "r1"; tracked = false; future = result (some "accept") })
answer_reaches_waiter_example =
    answer_reaches_waiter plain "r1" 200 accept one_row one_waiter one one_row_lem refl
      one_waiter_lem refl refl

abbrev lapsed : Ledger String
lapsed = (mark_expired 300 "r1" one).0

resolve_request-refusal_example :
    (refused_with (resolve_request plain 310 "r1" accept lapsed).1
      ≡ refusal false (row "r1" lapsed))
    × ((resolve_request plain 310 "r1" accept lapsed).0 ≡ (
        if is_some (refusal false (row "r1" lapsed))
        then lapsed
        else (resolve_request plain 310 "r1" accept lapsed).0))
resolve_request-refusal_example = resolve_request-refusal plain "r1" 310 accept lapsed

lapsed_refused :
    refusal false (row "r1" lapsed) ≡ some (404, "request_unavailable", "request is expired")
unfolding program
lapsed_refused = refl

expiry_resolves_example :
    row "r1" (expire_after_timeout plain 300 301 "r1" "decline" one)
    ≡ some (record one_row {
      status = resolved;
      resolved_payload_json = some (plain.dumps "decline");
      resolved_at = some 301;
      resolution_source = some "policy";
      error_code = some "request_expired";
      error_message = some "request expired before explicit response";
    })
unfolding program
expiry_resolves_example =
    expiry_resolves plain "r1" 300 301 "decline" one_row one (refl, tt) one_row_lem refl

init_orphans_example :
    row "r1" (init {P = String} 600 "g2" one.rows)
    ≡ some (record one_row {
      status = orphaned;
      resolved_at = some 600;
      resolution_source = some "policy";
      error_code = some "server_restarted";
      error_message = some "server restarted before request resolution";
    })
init_orphans_example = init_orphans "r1" 600 "g2" one_row one one_row_lem

list_requests_exact_example :
    IsAscending at_view (list_requests plain "s1" true one)
    × Perm
        (list_requests plain "s1" true one)
        (map (view plain) (select (listed "s1" true) one.rows))
    × ((id : String)
        → fetch_one
            (λ (v : View String). str_eq v.request_id id)
            (list_requests plain "s1" true one)
          ≡ elim (row id one) [
            | none ↦ none
            | some r ↦ if listed "s1" true r then some (view plain r) else none
          ])
unfolding register_request fetch_one
list_requests_exact_example = list_requests_exact plain "s1" one true (refl, tt)

oldest_pending_summary_first_example :
    oldest_pending_summary "s1" one
    ≡ Option.map
        (λ (v : View String). (v.request_id, v.request_type, v.requested_at))
        (head (list_requests plain "s1" false one))
oldest_pending_summary_first_example = oldest_pending_summary_first plain "s1" one

oldest_pending : oldest_pending_summary "s1" one ≡ some ("r1", "request_approval", 100)
unfolding program oldest_pending_summary
oldest_pending = refl

waits : wait_for_resolution plain "r1" one ≡ waiting
unfolding program
waits = refl

answered : wait_for_resolution plain "r1" done ≡ result (some "accept")
unfolding program
answered = refl
