-- ===== src/MessageQueue/Pending.antt =====
-- The messages that `get_pending_messages` returns, and what the writes of the table do to them.
use claude_sessions.Prelude.{
  zero, suc, str_eq_refl, ℕ, ◌≤◌, String, ◌≡◌, refl, sym, ◌∙◌, ap, Bool, true, false, not, Option,
  none, some, List, [], ◌∷◌, ◌++◌, All, All-of-Among, Among, arith, str_eq_iff, ltb, Bool-cases,
  inl, inr,
}
use claude_sessions.Sql.{
  delete-IsUnique, select, select-All, select-append, select-keeps, append-IsUnique, fetch_one,
  update, delete, order_by, order_by-select, order_by-IsUnique, order_by-last, select-IsUnique,
  IsUnique, Among-fetch_one, select-Among,
}
use claude_sessions.MessageQueue.{
  QueuedMessage, id_of, has_message_id, waits, is_expired, delete_expired, skip_expired,
  get_pending_messages, mark_delivered, MessageRequest, timeout_from, new_message, queue_message,
}

abbrev pub lives : ℕ → QueuedMessage → Bool
lives now m = not (is_expired now m)

-- the messages that wait for a session, the oldest first
abbrev pub waiting : String → List QueuedMessage → List QueuedMessage
waiting session rows = order_by (λ m. m.queued_at) (select (waits session) rows)

-- the ones of these that have not expired
abbrev pub pending : ℕ → String → List QueuedMessage → List QueuedMessage
pending now session rows = select (lives now) (waiting session rows)

waiting-IsUnique :
    (session : String) (rows : List QueuedMessage)
    → IsUnique id_of rows
    → IsUnique id_of (waiting session rows)
waiting-IsUnique session rows u =
    order_by-IsUnique (λ m. m.queued_at) id_of (select (waits session) rows)
      (select-IsUnique id_of (waits session) rows u)

pub pending-IsUnique :
    (now : ℕ) (session : String) (rows : List QueuedMessage)
    → IsUnique id_of rows
    → IsUnique id_of (pending now session rows)
pending-IsUnique now session rows u =
    select-IsUnique id_of (lives now) (waiting session rows) (waiting-IsUnique session rows u)

abbrev pub is_other : String → QueuedMessage → Bool
is_other id m = not (has_message_id id m)

select_comm :
    (p q : QueuedMessage → Bool) (rows : List QueuedMessage)
    → select p (select q rows) ≡ select q (select p rows)
unfolding select
select_comm p q [] = refl
select_comm p q (m ∷ rows) = ground (arith, select_comm p q rows)

-- A write that takes one message out of those that wait takes it out of those that are pending.
pending-without :
    (now : ℕ) (session id : String) (rows rows' : List QueuedMessage)
    → select (waits session) rows' ≡ select (is_other id) (select (waits session) rows)
    → pending now session rows' ≡ select (is_other id) (pending now session rows)
pending-without now session id rows rows' h =
    rw (h, order_by-select (λ m. m.queued_at) (is_other id) (select (waits session) rows))
      (select_comm (lives now) (is_other id) (waiting session rows))

waits-mark_delivered :
    (at : ℕ) (session id : String) (rows : List QueuedMessage)
    → select (waits session) (mark_delivered at id rows)
      ≡ select (is_other id) (select (waits session) rows)
unfolding mark_delivered update select
waits-mark_delivered at session id [] = refl
waits-mark_delivered at session id (m ∷ rows) =
    ground (arith, waits-mark_delivered at session id rows)

waits-delete_expired :
    (session id : String) (rows : List QueuedMessage)
    → select (waits session) (delete_expired id rows)
      ≡ select (is_other id) (select (waits session) rows)
unfolding delete select
waits-delete_expired session id [] = refl
waits-delete_expired session id (m ∷ rows) = ground (arith, waits-delete_expired session id rows)

pub pending-mark_delivered :
    (at now : ℕ) (session id : String) (rows : List QueuedMessage)
    → pending now session (mark_delivered at id rows)
      ≡ select (is_other id) (pending now session rows)
pending-mark_delivered at now session id rows =
    pending-without now session id rows (mark_delivered at id rows)
      (waits-mark_delivered at session id rows)

pending-delete_expired :
    (now : ℕ) (session id : String) (rows : List QueuedMessage)
    → pending now session (delete_expired id rows) ≡ select (is_other id) (pending now session rows)
pending-delete_expired now session id rows =
    pending-without now session id rows (delete_expired id rows)
      (waits-delete_expired session id rows)

-- What a reading of the pending messages gives and leaves.
pub record IsRead (now : ℕ) (session : String) (rows messages : List QueuedMessage)
    (read : List QueuedMessage × List QueuedMessage) : Type 0 where
  pub returned : read.1 ≡ messages
  pub kept : pending now session read.0 ≡ pending now session rows
  pub unique : IsUnique id_of read.0

skip_expired-IsRead :
    (now : ℕ) (session : String) (messages rows : List QueuedMessage)
    → IsUnique id_of rows
    → All
        (λ m.
          is_expired now m ≡ true → All (λ r. is_other m.id r ≡ true) (pending now session rows))
        messages
    → IsRead now session rows (select (lives now) messages) (skip_expired now messages rows)
unfolding skip_expired select
skip_expired-IsRead now session [] rows u h = record { returned = refl; kept = refl; unique = u }
skip_expired-IsRead now session (m ∷ messages) rows u h = elim (Bool-cases (is_expired now m)) [
  | inl old ↦
      let rows' : List QueuedMessage = delete_expired m.id rows in
      let same : pending now session rows' ≡ pending now session rows =
        rw (pending-delete_expired now session m.id rows)
          (select-All (is_other m.id) (pending now session rows) (h.0 old)) in
      let rest =
        skip_expired-IsRead now session messages rows'
          (delete-IsUnique id_of (has_message_id m.id) rows u) (rw same h.1) in
      rw old (record { returned = rest.returned; kept = rw rest.kept same; unique = rest.unique })
  | inr young ↦
      let rest = skip_expired-IsRead now session messages rows u h.1 in
      rw young
        (record { returned = ap (◌∷◌ m) rest.returned; kept = rest.kept; unique = rest.unique })
]

expired_apart :
    (now : ℕ) (all : List QueuedMessage) (m r : QueuedMessage)
    → IsUnique id_of all
    → Among m all
    → is_expired now m ≡ true
    → Among r (select (lives now) all)
    → is_other m.id r ≡ true
expired_apart now all m r u here old there = elim (Bool-cases (has_message_id m.id r)) [
  | inr other ↦ ground (arith, other)
  | inl same ↦
      let in_all = select-Among (lives now) r all there in
      let same_id : r.id ≡ m.id = (str_eq_iff r.id m.id).0 same in
      let one : some r ≡ some m =
        sym (Among-fetch_one id_of r all u in_all.0)
        ∙ (rw same_id (Among-fetch_one id_of m all u here)) in
      let as_old = ap (λ o. elim o [ none ↦ false | some x ↦ is_expired now x ]) one in
      absurd (ground (arith, as_old, old, in_all.1))
]

-- With distinct identifiers, the messages that are read are the pending ones, and they stay so.
pub get_pending_messages-IsRead :
    (now : ℕ) (session : String) (rows : List QueuedMessage)
    → IsUnique id_of rows
    → IsRead now session rows (pending now session rows) (get_pending_messages now session rows)
unfolding get_pending_messages
get_pending_messages-IsRead now session rows u =
    let all = waiting session rows in
    skip_expired-IsRead now session all rows u (
      All-of-Among _ all (λ m here old.
        All-of-Among _ (pending now session rows)
          (λ r there. expired_apart now all m r (waiting-IsUnique session rows u) here old there)))

new_message-lives :
    (id : String) (now : ℕ) (r : MessageRequest) → lives now (new_message id now r) ≡ true
unfolding new_message
new_message-lives id now r = timely now r.timeout_seconds
  where
    timely :
        (now : ℕ) (seconds : Option ℕ)
        → not (elim (timeout_from now seconds) [ none ↦ false | some t ↦ ltb t now ]) ≡ true
    timely now none = refl
    timely now (some zero) = refl
    timely now (some (suc n)) = ground arith

-- A message under a new identifier that is queued no earlier than the others is the last one that is
-- pending for its session, behind those that were pending before; and the identifiers stay distinct.
pub queue_message-pending :
    (id : String) (now : ℕ) (r : MessageRequest) (rows : List QueuedMessage)
    → IsUnique id_of rows
    → fetch_one (has_message_id id) rows ≡ none
    → All (λ m. m.queued_at ≤ now) rows
    → (pending now r.target_session_id (queue_message id now r rows).0
        ≡ pending now r.target_session_id rows ++ (queue_message id now r rows).1 ∷ [])
      × IsUnique id_of (queue_message id now r rows).0
unfolding queue_message new_message select
queue_message-pending id now r rows u new earlier =
    let session = r.target_session_id in
    let m = new_message id now r in
    let read =
      get_pending_messages-IsRead now session (rows ++ m ∷ [])
        (append-IsUnique id_of rows m new u) in
    let at_end : select (waits session) (rows ++ m ∷ []) ≡ select (waits session) rows ++ m ∷ [] =
      rw (select-append (waits session) rows (m ∷ []), str_eq_refl session) refl in
    let sorted =
      order_by-last (λ m'. m'.queued_at) (select (waits session) rows) m
        (select-keeps (λ m'. m'.queued_at ≤ now) (waits session) rows earlier) in
    let last : pending now session (rows ++ m ∷ []) ≡ pending now session rows ++ m ∷ [] =
      rw
        (
          at_end,
          sorted,
          select-append (lives now) (waiting session rows) (m ∷ []),
          new_message-lives id now r,
        )
        refl in
    (read.kept ∙ last, read.unique)
