-- ===== src/RequestLedger/Runs.antt =====
-- The steps that a ledger can take, in any order: its methods, called by any thread, and a restart.
use claude_sessions.Prelude.{ℕ, String, ◌≡◌, some}
use claude_sessions.RequestLedger.Types.{Codec, Registered, Ledger, NewRequest, Answer}
use claude_sessions.RequestLedger.{
  init, mark_expired, orphan_pending_for_session, cancel_waiter, resolve_request, register_request,
  expire_after_timeout,
}

module _ {P : Type 0} (codec : Codec P) where
  -- `expire` is the whole body of an expiry task; `mark` is its first half alone, for a run in which
  -- another thread takes the database lock before the second half.
  pub data Step (l : Ledger P) : Ledger P → Type 0 where
    register :
        (now : ℕ) (id : String) (q : NewRequest P) {l' : Ledger P} {s : Registered}
        → register_request codec now id q l ≡ some (l', s)
        → Step l l'
    resolve : (now : ℕ) (id : String) (a : Answer P) → Step l (resolve_request codec now id a l).0
    expire :
        (now later : ℕ) (id : String) (payload : P)
        → Step l (expire_after_timeout codec now later id payload l)
    mark : (now : ℕ) (id : String) → Step l (mark_expired now id l).0
    orphan :
        (now : ℕ) (session code : String) → Step l (orphan_pending_for_session now session code l)
    restart : (now : ℕ) (generation : String) → Step l (init now generation l.rows)
    give_up : (id : String) → Step l (cancel_waiter id l)

  pub data Reach (l : Ledger P) : Ledger P → Type 0 where
    here : Reach l l
    next : {m n : Ledger P} → Reach l m → Step m n → Reach l n
