-- ===== src/RequestLedger/Unique.antt =====
-- `request_id` is a primary key: no method gives two rows one identifier.
use claude_sessions.Prelude.{ℕ, String, ◌≡◌, refl, List, Bool-cases, Option-cases, inl, inr, some}
use claude_sessions.Sql.{IsUnique, update-IsUnique, append-IsUnique}
use claude_sessions.RequestLedger.Types.{Request, Codec, Ledger, Answer, NewRequest, Registered}
use claude_sessions.RequestLedger.Rows.{row, orphan_row, expire_row, resolve_row, accepts, new_row}
use claude_sessions.RequestLedger.{
  init, mark_expired, orphan_pending_for_session, cancel_waiter, resolve_request,
  expire_after_timeout, expiry_answer, wake, register_request,
}
use claude_sessions.RequestLedger.Effects.{
  row-register_request, rows-resolve_fetched, rows-settle_each, resolve_request_found,
  resolve_request_missing,
}
use claude_sessions.RequestLedger.Runs.{
  Step, register, resolve, expire, mark, orphan, restart, give_up,
}

abbrev pub HasKey : List Request → Type 0
HasKey rows = IsUnique (λ (r : Request). r.request_id) rows

module _ {P : Type 0} (codec : Codec P) where
  mark_expired-HasKey :
      (now : ℕ) (id : String) (l : Ledger P) → HasKey l.rows → HasKey (mark_expired now id l).0.rows
  unfolding mark_expired expire_row
  mark_expired-HasKey now id l h =
      update-IsUnique (λ (r : Request). r.request_id) _ _ (λ r. refl) l.rows h

  resolve_request-HasKey :
      (now : ℕ) (id : String) (a : Answer P) (l : Ledger P)
      → HasKey l.rows
      → HasKey (resolve_request codec now id a l).0.rows
  resolve_request-HasKey now id a l h = elim (Option-cases (row id l)) [
    | inl e ↦ rw (resolve_request_missing codec id now a l e) h
    | inr (r, e) ↦
        rw (resolve_request_found codec id now a r l e, rows-resolve_fetched codec id now id a r l)
          (elim (Bool-cases (accepts a r)) [
            | inl took ↦ rw took (
                update-IsUnique (λ (r : Request). r.request_id) _ (resolve_row codec now a)
                  (λ r. unfold resolve_row in refl) l.rows h)
            | inr left ↦ rw left h
          ])
  ]

  orphan-HasKey :
      (now : ℕ) (session code : String) (l : Ledger P)
      → HasKey l.rows
      → HasKey (orphan_pending_for_session now session code l).rows
  unfolding orphan_pending_for_session orphan_row
  orphan-HasKey now session code l h =
      rw rows-settle_each (update-IsUnique (λ (r : Request). r.request_id) _ _ (λ r. refl) l.rows h)

  init-HasKey :
      (now : ℕ) (generation : String) (l : Ledger P)
      → HasKey l.rows
      → HasKey (init {P = P} now generation l.rows).rows
  unfolding init orphan_row
  init-HasKey now generation l h =
      update-IsUnique (λ (r : Request). r.request_id) _ _ (λ r. refl) l.rows h

  expire-HasKey :
      (now later : ℕ) (id : String) (payload : P) (l : Ledger P)
      → HasKey l.rows
      → HasKey (expire_after_timeout codec now later id payload l).rows
  unfolding expire_after_timeout
  expire-HasKey now later id payload l h =
      let marked = (mark_expired now id (wake codec id l)).0 in
      let key : HasKey marked.rows = mark_expired-HasKey now id (wake codec id l) h in
      elim (Bool-cases (mark_expired now id (wake codec id l)).1) [
        | inl e ↦ rw e (resolve_request-HasKey later id (expiry_answer codec payload) marked key)
        | inr e ↦ rw e key
      ]

  register-HasKey :
      (now : ℕ) (id : String) (q : NewRequest P) (l l' : Ledger P) (s : Registered)
      → register_request codec now id q l ≡ some (l', s)
      → HasKey l.rows
      → HasKey l'.rows
  unfolding new_row
  register-HasKey now id q l l' s e h =
      let (new, appended) = row-register_request codec id now id q l l' s e in
      rw appended (
        append-IsUnique (λ (r : Request). r.request_id) l.rows
          (new_row codec now id l.process_generation q) new h)

  pub Step-HasKey : {l m : Ledger P} → Step codec l m → HasKey l.rows → HasKey m.rows
  Step-HasKey {l} (register now id q {l' = l'} {s = s} e) h = register-HasKey now id q l l' s e h
  Step-HasKey {l} (resolve now id a) h = resolve_request-HasKey now id a l h
  Step-HasKey {l} (expire now later id payload) h = expire-HasKey now later id payload l h
  Step-HasKey {l} (mark now id) h = mark_expired-HasKey now id l h
  Step-HasKey {l} (orphan now session code) h = orphan-HasKey now session code l h
  Step-HasKey {l} (restart now generation) h = init-HasKey now generation l h
  Step-HasKey {l} (give_up id) h = unfold cancel_waiter in h
