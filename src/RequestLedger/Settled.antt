-- ===== src/RequestLedger/Settled.antt =====
-- A request that is resolved or orphaned stays as it is.
use claude_sessions.Prelude.{
  ℕ, String, ◌≡◌, false, some, arith, str_eq, str_eq_iff, Bool-cases, inl, inr,
}
use claude_sessions.Sql.{fetch_one-append_some}
use claude_sessions.RequestLedger.Types.{is_open, Request, Codec, Ledger, Answer}
use claude_sessions.RequestLedger.Rows.{has_id, row}
use claude_sessions.RequestLedger.{
  mark_expired, resolve_request, expire_after_timeout, cancel_waiter, expiry_answer, wake,
}
use claude_sessions.RequestLedger.Effects.{
  row-init, row-mark_expired, row-orphan_pending_for_session, row-register_request,
  row-resolve_request_self, row-resolve_request_ne,
}
use claude_sessions.RequestLedger.Runs.{
  Step, register, resolve, expire, mark, orphan, restart, give_up, Reach, here, next,
}

module _ {P : Type 0} (codec : Codec P) (j : String) (r : Request)
    (closed : is_open r.status ≡ false) where
  row-mark_expired_closed :
      (now : ℕ) (id : String) (l : Ledger P)
      → row j l ≡ some r
      → row j (mark_expired now id l).0 ≡ some r
  row-mark_expired_closed now id l h = ground (arith, row-mark_expired j now id l)

  row-resolve_request_closed :
      (now : ℕ) (id : String) (a : Answer P) (l : Ledger P)
      → row j l ≡ some r
      → row j (resolve_request codec now id a l).0 ≡ some r
  row-resolve_request_closed now id a l h = elim (Bool-cases (str_eq id j)) [
    | inl e ↦
        rw ((str_eq_iff id j).0 e) (ground (arith, row-resolve_request_self codec j now a r l))
    | inr e ↦ ground (arith, row-resolve_request_ne codec j now id a l)
  ]

  row-expire_after_timeout_closed :
      (now later : ℕ) (id : String) (payload : P) (l : Ledger P)
      → row j l ≡ some r
      → row j (expire_after_timeout codec now later id payload l) ≡ some r
  unfolding expire_after_timeout
  row-expire_after_timeout_closed now later id payload l h = ground (
    arith,
    row-mark_expired_closed now id (wake codec id l) h,
    row-resolve_request_closed later id (expiry_answer codec payload)
        (mark_expired now id (wake codec id l)).0,
  )

  Step-closed : {l m : Ledger P} → Step codec l m → row j l ≡ some r → row j m ≡ some r
  Step-closed {l} (register now id q {l' = l'} {s = s} e) h =
      rw (row-register_request codec j now id q l l' s e).1
        (fetch_one-append_some (has_id j) l.rows _ r h)
  Step-closed {l} (resolve now id a) h = row-resolve_request_closed now id a l h
  Step-closed {l} (expire now later id payload) h =
      row-expire_after_timeout_closed now later id payload l h
  Step-closed {l} (mark now id) h = row-mark_expired_closed now id l h
  Step-closed {l} (orphan now session code) h =
      ground (arith, row-orphan_pending_for_session j now session code l)
  Step-closed {l} (restart now generation) h = ground (arith, row-init j now generation l)
  Step-closed {l} (give_up id) h = unfold cancel_waiter in h

  -- Whatever the ledger goes through, with any identifiers and from any threads, a row that is
  -- resolved or orphaned keeps its status, its payload and all its other fields.
  pub Reach-closed : {l m : Ledger P} → Reach codec l m → row j l ≡ some r → row j m ≡ some r
  Reach-closed here h = h
  Reach-closed (next run step) h = Step-closed step (Reach-closed run h)
