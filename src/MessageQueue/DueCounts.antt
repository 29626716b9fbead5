-- ===== src/MessageQueue/DueCounts.antt =====
-- What a delivery makes due to a sender, its messages asked for.
use claude_sessions.Prelude.{
  ℕ, ◌+◌, ◌≤◌, String, ◌≡◌, sym, refl, ap, ◌∙◌, Bool, true, not, ◌&&◌, ◌||◌, List, [], ◌∷◌, arith,
  is_some, Bool-cases, inl, inr,
}
use claude_sessions.MessageQueue.{QueuedMessage, given, get_pending_messages, mark_delivered}
use claude_sessions.MessageQueue.Delivery.{
  only_rename, Queue, DeliveryReading, BatchSettings, relays_inbound, replies, notifies_delivery,
  sends, sends_urgent, interrupts, perform, perform_if, track_sender, tell_others, deliver_message,
  deliver_each, mark_active, send_batch, deliver_batch, try_deliver_messages,
}
use mathlib.Core.Option
use claude_sessions.MessageQueue.Batches.{
  perform_if-state, start_reminds-state, tell_others-state, deliver_message-state,
}
use claude_sessions.MessageQueue.Urgent.{UrgentReading, finish_urgent, deliver_urgent}
use claude_sessions.MessageQueue.StopCalls.{
  asks_for, count_asking, batch_of, is_taken, if_sent, due,
}

module _ (id : String) where
  abbrev queue_due : Queue → ℕ
  queue_due q = due id q.state

  track_sender-due :
      (was_idle : Bool) (m : QueuedMessage) (q : Queue)
      → queue_due (track_sender was_idle m q) ≤ queue_due q + asks_for id m
  unfolding track_sender
  track_sender-due was_idle m q = ground arith

  deliver_message-due :
      (c : BatchSettings) (r : DeliveryReading) (was_idle : Bool) (m : QueuedMessage) (q : Queue)
      → queue_due (deliver_message c r was_idle m q) ≤ queue_due q + asks_for id m
  deliver_message-due c r was_idle m q =
      let marked = record q { rows = mark_delivered r.now m.id q.rows } in
      let told = tell_others r m marked in
      rw (deliver_message-state c r was_idle m q) (
        omega (arith, track_sender-due was_idle m told, ap (due id) (tell_others-state r m marked)))

  deliver_each-due :
      (c : BatchSettings) (r : DeliveryReading) (was_idle : Bool) (batch : List QueuedMessage)
      (q : Queue)
      → queue_due (deliver_each c r was_idle batch q) ≤ queue_due q + count_asking id batch
  unfolding deliver_each count_asking
  deliver_each-due c r was_idle [] q = omega arith
  deliver_each-due c r was_idle (m ∷ batch) q = omega (
    arith,
    deliver_message-due c r was_idle m q,
    deliver_each-due c r was_idle batch (deliver_message c r was_idle m q),
  )

  mark_active-due : (q : Queue) → queue_due (mark_active q) ≤ queue_due q
  unfolding mark_active
  mark_active-due q = ground arith

  send_batch-due :
      (r : DeliveryReading) (batch : List QueuedMessage) (q : Queue)
      → queue_due (send_batch r batch q).0 ≡ queue_due q
  unfolding send_batch
  send_batch-due r batch q = ground arith

  send_batch-taken :
      (r : DeliveryReading) (batch : List QueuedMessage) (q : Queue)
      → (send_batch r batch q).1 ≡ is_taken r batch
  unfolding send_batch
  send_batch-taken r batch q = elim (Bool-cases (only_rename batch)) [
    | inl alone ↦ rw alone (elim (Bool-cases (given r.friendly_name)) [
      | inl named ↦ rw named refl
      | inr unnamed ↦ rw unnamed refl
    ])
    | inr several ↦ rw several refl
  ]

  deliver_batch-due :
      (c : BatchSettings) (r : DeliveryReading) (batch : List QueuedMessage) (q : Queue)
      → queue_due (deliver_batch c r batch q)
        ≤ queue_due q + if_sent (is_taken r batch) (count_asking id batch)
  unfolding deliver_batch
  deliver_batch-due c r batch q =
      let sent = (send_batch r batch q).0 in
      let delivered = deliver_each-due c r q.state.is_idle batch (mark_active sent) in
      let same = send_batch-due r batch q in
      let tells = send_batch-taken r batch q in
      elim (Bool-cases (send_batch r batch q).1) [
        | inl taken ↦
            rw (sym tells ∙ taken, taken, deliver_batch)
              (omega (arith, delivered, same, mark_active-due sent))
        | inr refused ↦ ground (arith, refused, same)
      ]

  pub try_deliver_messages-due :
      (c : BatchSettings) (r : DeliveryReading) (session : String) (important_only : Bool)
      (q : Queue)
      → queue_due (try_deliver_messages c r session important_only q)
        ≤ queue_due q
          + if_sent
              (is_taken r (batch_of c r session important_only q.rows))
              (count_asking id (batch_of c r session important_only q.rows))
  unfolding try_deliver_messages
  try_deliver_messages-due c r session important_only q =
      let read = record q { rows = (get_pending_messages r.now session q.rows).0 } in
      let sent = deliver_batch-due c r (batch_of c r session important_only q.rows) read in
      elim (Bool-cases (r.paused || not r.session_found)) [
        | inl off ↦ rw off (omega arith)
        | inr on ↦ ground (arith, on, sent)
      ]

  finish_urgent-due :
      (c : BatchSettings) (r : DeliveryReading) (m : QueuedMessage) (q : Queue)
      → queue_due (finish_urgent c r m q) ≤ queue_due q + asks_for id m
  unfolding finish_urgent
  finish_urgent-due c r m q =
      let marked = record q { rows = mark_delivered r.now m.id q.rows } in
      let active = mark_active (perform (relays_inbound m r.now) marked) in
      let replied =
        perform_if (given m.sender_session_id && not (is_some m.message_category))
          (replies (Option.get_or m.sender_session_id "") m.target_session_id) active in
      let notified =
        perform_if (m.notify_on_delivery && given m.sender_session_id) (notifies_delivery m)
          replied in
      rw (start_reminds-state c m (track_sender true m notified)) (
        omega (
          arith,
          track_sender-due true m notified,
          ap (due id) (
              perform_if-state (m.notify_on_delivery && given m.sender_session_id)
                (notifies_delivery m) replied
              ∙ perform_if-state (given m.sender_session_id && not (is_some m.message_category))
                  (replies (Option.get_or m.sender_session_id "") m.target_session_id) active),
          mark_active-due (perform (relays_inbound m r.now) marked),
        ))

  pub deliver_urgent-due :
      (c : BatchSettings) (u : UrgentReading) (m : QueuedMessage) (q : Queue)
      → queue_due (deliver_urgent c u m q)
        ≤ queue_due q + if_sent u.reading.text_taken (asks_for id m)
  unfolding deliver_urgent
  deliver_urgent-due c u m q = ground (
    arith,
    finish_urgent-due c u.reading m (perform (sends_urgent m.text) q),
    finish_urgent-due c u.reading m (perform (sends (m.text ∷ [])) (perform interrupts q)),
  )
