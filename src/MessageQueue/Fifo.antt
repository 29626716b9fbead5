-- ===== src/MessageQueue/Fifo.antt =====
-- Deliveries take the messages of a session in the order in which they were queued.
use claude_sessions.Prelude.{
  String, ◌≡◌, refl, sym, ◌∙◌, ap, Bool, true, false, not, ◌&&◌, ◌||◌, List, [], ◌∷◌, ◌++◌, arith,
  Bool-cases, inl, inr, if◌then◌else◌,
}
use claude_sessions.Sql.{IsUnique}
use claude_sessions.MessageQueue.{QueuedMessage, id_of, given, get_pending_messages, mark_delivered}
use claude_sessions.MessageQueue.Pending.{
  pending, pending-IsUnique, pending-mark_delivered, get_pending_messages-IsRead,
}
use claude_sessions.MessageQueue.Delivery.{
  Queue, DeliveryReading, BatchSettings, only_rename, choose_batch, deliver_message, deliver_each,
  mark_active, send_batch, deliver_batch, is_none, try_deliver_messages,
}
use claude_sessions.MessageQueue.Batches.{
  choose_batch-IsPrefix, deliver_message-rows, others, mark-IsUnique,
}

deliver_each-pending :
    (c : BatchSettings) (r : DeliveryReading) (was_idle : Bool) (session : String)
    (batch rest : List QueuedMessage) (q : Queue)
    → IsUnique id_of q.rows
    → pending r.now session q.rows ≡ batch ++ rest
    → (pending r.now session (deliver_each c r was_idle batch q).rows ≡ rest)
      × IsUnique id_of (deliver_each c r was_idle batch q).rows
unfolding deliver_each
deliver_each-pending c r was_idle session [] rest q u e = (e, u)
deliver_each-pending c r was_idle session (m ∷ batch) rest q u e =
    let q' = deliver_message c r was_idle m q in
    let written = deliver_message-rows c r was_idle m q in
    let left : pending r.now session q'.rows ≡ batch ++ rest =
      rw (written, pending-mark_delivered r.now r.now session m.id q.rows, e)
        (others m (batch ++ rest) (rw e at (pending-IsUnique r.now session q.rows u))) in
    deliver_each-pending c r was_idle session batch rest q'
      (rw written (mark-IsUnique r.now m.id q.rows u)) left

-- A batch leaves the queue when it is sent, and a rename alone also when the provider does not take it.
abbrev pub is_settled : DeliveryReading → List QueuedMessage → Bool
is_settled r batch = only_rename batch || r.text_taken

send_batch-rows :
    (r : DeliveryReading) (batch : List QueuedMessage) (q : Queue)
    → (send_batch r batch q).0.rows ≡ q.rows
unfolding send_batch
send_batch-rows r batch q = ground arith

send_batch_taken :
    (r : DeliveryReading) (batch : List QueuedMessage) (q : Queue)
    → only_rename batch ≡ false
    → (send_batch r batch q).1 ≡ r.text_taken
unfolding send_batch
send_batch_taken r batch q several = rw several refl

settled_if_taken :
    (r : DeliveryReading) (batch : List QueuedMessage) (q : Queue)
    → (send_batch r batch q).1 ≡ true
    → is_settled r batch ≡ true
settled_if_taken r batch q taken = elim (Bool-cases (only_rename batch)) [
  | inl alone ↦ rw alone refl
  | inr several ↦ rw several (sym (send_batch_taken r batch q several) ∙ taken)
]

mark_active-rows : (q : Queue) → (mark_active q).rows ≡ q.rows
unfolding mark_active
mark_active-rows q = ground arith

-- What is pending before, when a batch is its beginning, is what a delivery takes and what is left.
abbrev IsTaken :
    DeliveryReading → String → List QueuedMessage → List QueuedMessage → List QueuedMessage → Type 0
IsTaken r session batch rest rows =
    (batch ++ rest ≡ (if is_settled r batch then batch else []) ++ pending r.now session rows)
    × IsUnique id_of rows

rename-IsTaken :
    (r : DeliveryReading) (session : String) (batch rest rows : List QueuedMessage)
    → only_rename batch ≡ true
    → IsUnique id_of rows
    → pending r.now session rows ≡ batch ++ rest
    → IsTaken r session batch rest
        (elim batch [ [] ↦ rows | m ∷ _ ↦ mark_delivered r.now m.id rows ])
rename-IsTaken r session [] rest rows alone u e = absurd (ground arith)
rename-IsTaken r session (m ∷ []) rest rows alone u e = (
  rw alone (
      ap (◌∷◌ m) (
        sym (
          rw (pending-mark_delivered r.now r.now session m.id rows, e)
            (others m rest (rw e at (pending-IsUnique r.now session rows u)))))),
  mark-IsUnique r.now m.id rows u,
)
rename-IsTaken r session (m ∷ n ∷ batch) rest rows alone u e = absurd (ground arith)

deliver_batch-IsTaken :
    (c : BatchSettings) (r : DeliveryReading) (session : String) (batch rest : List QueuedMessage)
    (q : Queue)
    → IsUnique id_of q.rows
    → pending r.now session q.rows ≡ batch ++ rest
    → IsTaken r session batch rest (deliver_batch c r batch q).rows
unfolding deliver_batch
deliver_batch-IsTaken c r session batch rest q u e =
    let sent = (send_batch r batch q).0 in
    let sent_rows = send_batch-rows r batch q in
    let active_rows : (mark_active sent).rows ≡ q.rows = mark_active-rows sent ∙ sent_rows in
    elim (Bool-cases (send_batch r batch q).1) [
      | inl taken ↦
          let done =
            deliver_each-pending c r q.state.is_idle session batch rest (mark_active sent)
              (rw active_rows u) (rw active_rows e) in
          let settled : is_settled r batch ≡ true = settled_if_taken r batch q taken in
          rw (taken, deliver_batch, settled) (ap (λ t. batch ++ t) (sym done.0), done.1)
      | inr refused ↦ elim (Bool-cases (only_rename batch)) [
        | inl alone ↦
            rw (refused, alone, deliver_batch)
              (rw alone at (
                rename-IsTaken r session batch rest sent.rows alone (rw sent_rows u)
                  (rw sent_rows e)))
        | inr several ↦
            let kept : r.text_taken ≡ false = sym (send_batch_taken r batch q several) ∙ refused in
            rw (refused, several, kept, deliver_batch) (sym e, u)
      ]
    ]

prefix-nil :
    (batch messages rest : List QueuedMessage)
    → is_none messages ≡ true
    → messages ≡ batch ++ rest
    → batch ≡ []
prefix-nil [] messages rest none_there e = refl
prefix-nil (m ∷ batch) messages rest none_there e = absurd (ground (arith, (rw e at none_there)))

-- The delivery looks at the queue: the session takes messages and nobody is typing.
abbrev pub lets_in : DeliveryReading → Queue → Bool
lets_in r q =
    not r.paused
    && r.session_found
    && not (r.input_at_prompt && not (given q.state.saved_user_input))

-- The messages that a delivery takes off the queue.
abbrev pub dispatched : BatchSettings → DeliveryReading → String → Queue → List QueuedMessage
dispatched c r session q =
    let batch = choose_batch c (pending r.now session q.rows) in
    if lets_in r q && is_settled r batch then batch else []

-- If the identifiers of the messages are distinct, then an attempt to deliver messages of every mode
-- splits what is pending into what it takes, first, and what is pending after it: none is lost, and
-- none that was taken can be taken again. It takes the whole batch that it chooses when the session
-- is known and not paused, nobody is typing, and the batch was sent or is a rename alone, and
-- otherwise nothing; and the identifiers stay distinct.
pub try_deliver_messages_fifo :
    (c : BatchSettings) (r : DeliveryReading) (session : String) (q : Queue)
    → IsUnique id_of q.rows
    → (pending r.now session q.rows
        ≡ dispatched c r session q
          ++ pending r.now session (try_deliver_messages c r session false q).rows)
      × IsUnique id_of (try_deliver_messages c r session false q).rows
unfolding try_deliver_messages
try_deliver_messages_fifo c r session q u =
    let read = get_pending_messages-IsRead r.now session q.rows u in
    let rows = (get_pending_messages r.now session q.rows).0 in
    let batch = choose_batch c (pending r.now session q.rows) in
    let (rest, split) = choose_batch-IsPrefix c (pending r.now session q.rows) in
    let held : Queue = record q { rows = rows } in
    elim (Bool-cases (r.paused || not r.session_found)) [
      | inl shut ↦
          let off : lets_in r q ≡ false = ground (arith, shut) in
          rw (shut, off, try_deliver_messages) (refl, u)
      | inr let_in ↦ elim (Bool-cases (is_none (pending r.now session q.rows))) [
        | inl nothing ↦
            let gone = prefix-nil batch (pending r.now session q.rows) rest nothing split in
            let idle : dispatched c r session q ≡ [] = ground (arith, gone) in
            rw (idle, let_in, read.returned, nothing, try_deliver_messages)
              (sym read.kept, read.unique)
        | inr something ↦
            elim (Bool-cases (r.input_at_prompt && not (given q.state.saved_user_input))) [
              | inl typing ↦
                  let off : lets_in r q ≡ false = ground (arith, typing) in
                  let idle : dispatched c r session q ≡ [] = rw off refl in
                  rw (idle, let_in, read.returned, something, typing, try_deliver_messages)
                    (sym read.kept, read.unique)
              | inr quiet ↦
                  let on : lets_in r q ≡ true = ground (arith, let_in, quiet) in
                  let sent : dispatched c r session q ≡ (if is_settled r batch then batch else []) =
                    rw on refl in
                  let taken =
                    deliver_batch-IsTaken c r session batch rest held read.unique
                      (read.kept ∙ split) in
                  rw (sent, let_in, read.returned, something, quiet, try_deliver_messages)
                    (split ∙ taken.0, taken.1)
            ]
      ]
    ]
