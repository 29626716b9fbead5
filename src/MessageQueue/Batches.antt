-- ===== src/MessageQueue/Batches.antt =====
-- A batch is a first part of the pending messages, and what its parts do to the table.
use claude_sessions.Prelude.{
  ℕ, zero, suc, String, ◌≡◌, refl, ◌∙◌, ap, Bool, true, none, some, List, [], ◌∷◌, ◌++◌, All, take,
  arith, str_eq_refl, Bool-cases, Option-cases, inl, inr,
}
use claude_sessions.Sql.{select, select-All, fetch_one, IsUnique, update-IsUnique, keyed}
use claude_sessions.MessageQueue.{QueuedMessage, id_of, has_message_id, mark_delivered}
use claude_sessions.MessageQueue.Pending.{is_other}
use claude_sessions.MessageQueue.Delivery.{
  Queue, DeliveryReading, BatchSettings, Effect, is_rename, before_rename, isolate_rename,
  choose_batch, perform_if, track_sender, start_reminds, deliver_message, tell_others,
}

-- These messages are the first of those.
abbrev pub IsPrefix : List QueuedMessage → List QueuedMessage → Type 0
IsPrefix batch messages = (rest : List QueuedMessage) × (messages ≡ batch ++ rest)

pub before_rename-IsPrefix :
    (messages : List QueuedMessage) → IsPrefix (before_rename messages) messages
unfolding before_rename
before_rename-IsPrefix [] = ([], refl)
before_rename-IsPrefix (m ∷ messages) = elim (Bool-cases (is_rename m)) [
  | inl on ↦ rw on (m ∷ messages, refl)
  | inr off ↦ let (rest, e) = before_rename-IsPrefix messages in rw off (rest, ap (◌∷◌ m) e)
]

pub isolate_rename-IsPrefix :
    (messages : List QueuedMessage) → IsPrefix (isolate_rename messages) messages
unfolding isolate_rename
isolate_rename-IsPrefix [] = ([], refl)
isolate_rename-IsPrefix (m ∷ messages) = elim (Bool-cases (is_rename m)) [
  | inl on ↦ rw on (messages, refl)
  | inr off ↦ let (rest, e) = before_rename-IsPrefix messages in rw off (rest, ap (◌∷◌ m) e)
]

pub ++-assoc : (a b c : List QueuedMessage) → (a ++ b) ++ c ≡ a ++ (b ++ c)
++-assoc [] b c = refl
++-assoc (m ∷ a) b c = ap (◌∷◌ m) (++-assoc a b c)

pub take-IsPrefix : (n : ℕ) (messages : List QueuedMessage) → IsPrefix (take n messages) messages
take-IsPrefix zero messages = (messages, refl)
take-IsPrefix (suc n) [] = ([], refl)
take-IsPrefix (suc n) (m ∷ messages) =
    let (rest, e) = take-IsPrefix n messages in (rest, ap (◌∷◌ m) e)

pub choose_batch-IsPrefix :
    (c : BatchSettings) (messages : List QueuedMessage)
    → IsPrefix (choose_batch c messages) messages
unfolding choose_batch
choose_batch-IsPrefix c messages =
    let (more, e) = take-IsPrefix c.max_batch_size messages in
    let (rest, e') = isolate_rename-IsPrefix (take c.max_batch_size messages) in
    (rest ++ more, e ∙ (ap (λ t. t ++ more) e' ∙ ++-assoc (choose_batch c messages) rest more))

pub perform_if-rows : (b : Bool) (e : Effect) (q : Queue) → (perform_if b e q).rows ≡ q.rows
unfolding perform_if
perform_if-rows b e q = ground arith

pub track_sender-rows :
    (was_idle : Bool) (m : QueuedMessage) (q : Queue) → (track_sender was_idle m q).rows ≡ q.rows
unfolding track_sender
track_sender-rows was_idle m q = ground arith

pub start_reminds-rows :
    (c : BatchSettings) (m : QueuedMessage) (q : Queue) → (start_reminds c m q).rows ≡ q.rows
unfolding start_reminds
start_reminds-rows c m q = elim (Option-cases m.remind_soft_threshold) [
  | inl e ↦ rw e refl
  | inr (soft, e) ↦ rw (e, perform_if-rows) refl
]

pub perform_if-state : (b : Bool) (e : Effect) (q : Queue) → (perform_if b e q).state ≡ q.state
unfolding perform_if
perform_if-state b e q = ground arith

pub start_reminds-state :
    (c : BatchSettings) (m : QueuedMessage) (q : Queue) → (start_reminds c m q).state ≡ q.state
unfolding start_reminds
start_reminds-state c m q = elim (Option-cases m.remind_soft_threshold) [
  | inl e ↦ rw e refl
  | inr (soft, e) ↦ rw (e, perform_if-state) refl
]

tell_others-rows :
    (r : DeliveryReading) (m : QueuedMessage) (q : Queue) → (tell_others r m q).rows ≡ q.rows
unfolding tell_others
tell_others-rows r m q =
    rw (perform_if-rows, perform_if-rows, perform_if-rows, perform_if-rows) refl

pub tell_others-state :
    (r : DeliveryReading) (m : QueuedMessage) (q : Queue) → (tell_others r m q).state ≡ q.state
unfolding tell_others
tell_others-state r m q =
    rw (perform_if-state, perform_if-state, perform_if-state, perform_if-state) refl

pub deliver_message-rows :
    (c : BatchSettings) (r : DeliveryReading) (was_idle : Bool) (m : QueuedMessage) (q : Queue)
    → (deliver_message c r was_idle m q).rows ≡ mark_delivered r.now m.id q.rows
unfolding deliver_message
deliver_message-rows c r was_idle m q =
    let marked = record q { rows = mark_delivered r.now m.id q.rows } in
    start_reminds-rows c m (track_sender was_idle m (tell_others r m marked))
    ∙ track_sender-rows was_idle m (tell_others r m marked)
    ∙ tell_others-rows r m marked

-- a delivered message changes the state only by its sender
pub deliver_message-state :
    (c : BatchSettings) (r : DeliveryReading) (was_idle : Bool) (m : QueuedMessage) (q : Queue)
    → (deliver_message c r was_idle m q).state
      ≡ (track_sender was_idle m
          (tell_others r m (record q { rows = mark_delivered r.now m.id q.rows }))).state
unfolding deliver_message
deliver_message-state c r was_idle m q = start_reminds-state c m _

pub apart :
    (id : String) (messages : List QueuedMessage)
    → fetch_one (keyed id_of id) messages ≡ none
    → All (λ m. is_other id m ≡ true) messages
unfolding fetch_one
apart id [] e = tt
apart id (m ∷ messages) e = (ground (arith, e), apart id messages (ground (arith, e)))

-- A message that is taken out of distinct ones leaves the others.
pub others :
    (m : QueuedMessage) (messages : List QueuedMessage)
    → IsUnique id_of (m ∷ messages)
    → select (is_other m.id) (m ∷ messages) ≡ messages
unfolding select
others m messages u =
    rw (str_eq_refl m.id) (select-All (is_other m.id) messages (apart m.id messages u.0))

pub mark-IsUnique :
    (at : ℕ) (id : String) (rows : List QueuedMessage)
    → IsUnique id_of rows
    → IsUnique id_of (mark_delivered at id rows)
unfolding mark_delivered
mark-IsUnique at id rows u =
    update-IsUnique id_of (has_message_id id) (λ m. record m { delivered_at = some at }) (λ m. refl)
      rows u
