-- ===== src/MessageQueue/Notified.antt =====
-- Notifications of stops against the requests for them, over any sequence of calls.
use claude_sessions.Prelude.{◌+◌, ◌≤◌, String, refl, true, some, List, [], ◌∷◌, arith}
use claude_sessions.MessageQueue.Stops.{Stops, tries_delivery, arm_stop_notify}
use claude_sessions.MessageQueue.Clears.{
  invalidate_session_cache, clear_for_handoff, restore_idle, schedule_handoff,
  record_outgoing_sm_send_target,
}
use claude_sessions.MessageQueue.StopCalls.{
  StopCall, stops, activates, arms, fires, invalidates, clears_for_handoff, restores,
  schedules_handoff, records_outgoing, delivers, delivers_urgently, queue_with, run_call, run_calls,
  count_notified, asked, count_asked, due,
}
use claude_sessions.MessageQueue.StopCounts.{
  spent, emit-spent, mark_session_idle-spent, mark_session_active-spent,
  run_delayed_stop_notification-spent,
}
use claude_sessions.MessageQueue.DueCounts.{try_deliver_messages-due, deliver_urgent-due}

run_call-spent :
    (id : String) (call : StopCall) (s : Stops)
    → spent id (run_call call s) ≤ spent id s + asked id call
unfolding run_call
run_call-spent id (stops window r) s = omega (arith, mark_session_idle-spent id window r s)
run_call-spent id activates s = omega (arith, mark_session_active-spent id s)
run_call-spent id (arms sender name delay) s = unfold arm_stop_notify in omega arith
run_call-spent id (fires now) s = omega (arith, run_delayed_stop_notification-spent id now s)
run_call-spent id (invalidates arm_skip is_running now) s =
    unfold invalidate_session_cache in ground arith
run_call-spent id (clears_for_handoff now) s = unfold clear_for_handoff in omega arith
run_call-spent id (restores now) s =
    let idle = record s { state = record (s.state) { is_idle = true; last_idle_at = some now } } in
    unfold restore_idle in
    omega (arith, emit-spent id tries_delivery idle (unfold count_notified in refl))
run_call-spent id (schedules_handoff path) s = unfold schedule_handoff in omega arith
run_call-spent id (records_outgoing target now) s =
    unfold record_outgoing_sm_send_target in omega arith
run_call-spent id (delivers c r session important_only rows) s =
    omega (arith, try_deliver_messages-due id c r session important_only (queue_with rows s))
run_call-spent id (delivers_urgently c u m rows) s =
    omega (arith, deliver_urgent-due id c u m (queue_with rows s))

-- Over any sequence of stops, turns, deliveries, clears and handoffs, the notifications of stops
-- that a session was sent and the ones still due to it grow by no more than the requests for them:
-- one for each message with notify_on_stop of that sender in a batch that the terminal takes, one
-- for each such urgent message that is taken, and one for each time it was armed.
pub notified_at_most_asked :
    (id : String) (calls : List StopCall) (s : Stops)
    → count_notified id (run_calls calls s).effects + due id (run_calls calls s).state
      ≤ (count_notified id s.effects + due id s.state) + count_asked id calls
unfolding run_calls count_asked
notified_at_most_asked id [] s = omega arith
notified_at_most_asked id (call ∷ calls) s =
    omega (arith, notified_at_most_asked id calls (run_call call s), run_call-spent id call s)
