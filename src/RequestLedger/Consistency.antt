-- ===== src/RequestLedger/Consistency.antt =====
-- No caller of `wait_for_resolution` is forgotten: a future that no result has come to belongs to a
-- request that is still open, and `_pending_futures` holds it.
use claude_sessions.Prelude.{
  ℕ, String, ◌≡◌, refl, true, false, Option, none, some, List, arith, str_eq, str_eq_iff,
  Bool-cases, Option-cases, inl, inr,
}
use claude_sessions.Sql.{
  fetch_one, fetch_one-update, fetch_one-append, fetch_one_sound, update-IsUnique, exists-select,
}
use claude_sessions.RequestLedger.Types.{
  is_open, Request, Codec, Ledger, Answer, NewRequest, Registered, Waiter, Future, waiting, is_done,
}
use claude_sessions.RequestLedger.Rows.{
  row, has_id, fulfil, abandon, expire_row, orphan_row, open_in, resolve_row, new_row,
}
use claude_sessions.RequestLedger.{
  init, mark_expired, orphan_pending_for_session, cancel_waiter, resolve_request, register_request,
  expire_after_timeout, expiry_answer, wake,
}
use claude_sessions.RequestLedger.Effects.{
  row-mark_expired, row-orphan_pending_for_session, row-resolve_request_self,
  row-resolve_request_ne, resolve_request_missing,
}
use claude_sessions.RequestLedger.Unique.{HasKey, Step-HasKey}
use claude_sessions.RequestLedger.Runs.{
  Step, register, resolve, expire, mark, orphan, restart, give_up, Reach, here, next,
}
use claude_sessions.RequestLedger.Waiters.{
  waits_for, waiter, waiter-mark_expired, waiter-orphan_pending_for_session, waiter-resolve_request,
}

-- A future belongs to a row; the dictionary holds it while the row is open; one that the dictionary
-- has let go is done.
abbrev pub Fits : {P : Type 0} → Option (Waiter P) → Option Request → Type 0
Fits none _ = Unit
Fits (some w) none = ⊥
Fits (some w) (some r) =
    (w.tracked ≡ is_open r.status) × (w.tracked ≡ false → is_done w.future ≡ true)

pub record IsConsistent {P : Type 0} (l : Ledger P) : Type 0 where
  pub unique : HasKey l.rows
  pub fits : (id : String) → Fits (waiter id l) (row id l)

module _ {P : Type 0} (j : String) where
  -- Letting a future go leaves it done.
  fulfil-is_done : (value : Option P) (future : Future P) → is_done (fulfil value future) ≡ true
  unfolding fulfil
  fulfil-is_done value future = ground arith

  Fits-init :
      (now : ℕ) (generation : String) (l : Ledger P)
      → Fits
          (waiter j (init {P = P} now generation l.rows))
          (row j (init {P = P} now generation l.rows))
  unfolding init fetch_one
  Fits-init now generation l = tt

  Fits-mark_expired :
      (now : ℕ) (id : String) (l : Ledger P)
      → Fits (waiter j l) (row j l)
      → Fits (waiter j (mark_expired now id l).0) (row j (mark_expired now id l).0)
  unfolding expire_row
  Fits-mark_expired now id l h =
      rw (row-mark_expired j now id l, waiter-mark_expired j now id l) (ground arith)

  Fits-cancel_waiter :
      (id : String) (l : Ledger P)
      → Fits (waiter j l) (row j l)
      → Fits (waiter j (cancel_waiter id l)) (row j (cancel_waiter id l))
  unfolding cancel_waiter
  Fits-cancel_waiter id l h =
      rw
        (fetch_one-update (waits_for j) (waits_for id) (λ w. record w { future = abandon w.future })
          (λ w. refl) l.waiters)
        (unfold abandon in ground arith)

  Fits-orphan :
      (now : ℕ) (session code : String) (l : Ledger P)
      → IsConsistent l
      → Fits
          (waiter j (orphan_pending_for_session now session code l))
          (row j (orphan_pending_for_session now session code l))
  Fits-orphan now session code l h = rw (row-orphan_pending_for_session j now session code l) (
      rw (waiter-orphan_pending_for_session j now session code l) (
        rw (exists-select (λ (r : Request). r.request_id) (open_in session) j l.rows h.unique)
          (unfold orphan_row fulfil in ground (arith, h.fits j))))

module _ {P : Type 0} (codec : Codec P) (j : String) where
  Fits-register_request :
      (now : ℕ) (id : String) (q : NewRequest P) (l l' : Ledger P) (s : Registered)
      → register_request codec now id q l ≡ some (l', s)
      → Fits (waiter j l) (row j l)
      → Fits (waiter id l) (row id l)
      → Fits (waiter j l') (row j l')
  unfolding register_request
  Fits-register_request now id q l l' s e h hi = ground (
    arith,
    fetch_one-append (has_id j) l.rows (new_row codec now id l.process_generation q),
    fetch_one-append (waits_for j) l.waiters
        (record { request_id = id; tracked = true; future = waiting }),
    str_eq_iff id j,
  )

  Fits-resolve_self :
      (now : ℕ) (a : Answer P) (r : Request) (l : Ledger P)
      → row j l ≡ some r
      → Fits (waiter j l) (some r)
      → Fits
          (waiter j (resolve_request codec now j a l).0)
          (row j (resolve_request codec now j a l).0)
  unfolding resolve_row fulfil
  Fits-resolve_self now a r l e h =
      rw
        (row-resolve_request_self codec j now a r l e, waiter-resolve_request codec j now j a r l e)
        (elim (Option-cases (waiter j l)) [
          | inl n ↦ rw n tt
          | inr (w, f) ↦ rw f (ground (arith, fetch_one_sound (waits_for j) l.waiters w f))
        ])

  Fits-resolve_ne :
      (now : ℕ) (id : String) (a : Answer P) (r : Request) (l : Ledger P)
      → row id l ≡ some r
      → str_eq id j ≡ false
      → Fits (waiter j l) (row j l)
      → Fits
          (waiter j (resolve_request codec now id a l).0)
          (row j (resolve_request codec now id a l).0)
  Fits-resolve_ne now id a r l e ne h =
      rw
        (
          row-resolve_request_ne codec j now id a l ne,
          waiter-resolve_request codec j now id a r l e,
        )
        (elim (Option-cases (waiter j l)) [
          | inl n ↦ rw n tt
          | inr (w, f) ↦ rw f (
              ground (
                arith,
                fetch_one_sound (waits_for j) l.waiters w f,
                str_eq_iff w.request_id j,
                str_eq_iff w.request_id id,
                str_eq_iff id j,
              ))
        ])

  Fits-resolve_request :
      (now : ℕ) (id : String) (a : Answer P) (l : Ledger P)
      → Fits (waiter j l) (row j l)
      → Fits
          (waiter j (resolve_request codec now id a l).0)
          (row j (resolve_request codec now id a l).0)
  Fits-resolve_request now id a l h = elim (Option-cases (row id l)) [
    | inl e ↦ rw (resolve_request_missing codec id now a l e) h
    | inr (r, e) ↦ elim (Bool-cases (str_eq id j)) [
      | inl same ↦ rw ((str_eq_iff id j).0 same) (
          let e' : row j l ≡ some r = rw (← (str_eq_iff id j).0 same) e in
          Fits-resolve_self now a r l e' (rw e' at h))
      | inr other ↦ Fits-resolve_ne now id a r l e other h
    ]
  ]

  Fits-expire_after_timeout :
      (now later : ℕ) (id : String) (payload : P) (l : Ledger P)
      → Fits (waiter j l) (row j l)
      → Fits
          (waiter j (expire_after_timeout codec now later id payload l))
          (row j (expire_after_timeout codec now later id payload l))
  unfolding expire_after_timeout
  Fits-expire_after_timeout now later id payload l h =
      let marked = (mark_expired now id (wake codec id l)).0 in
      let fits : Fits (waiter j marked) (row j marked) =
        Fits-mark_expired j now id (wake codec id l) h in
      elim (Bool-cases (mark_expired now id (wake codec id l)).1) [
        | inl e ↦ rw e (Fits-resolve_request later id (expiry_answer codec payload) marked fits)
        | inr e ↦ rw e fits
      ]

  Step-Fits : {l m : Ledger P} → Step codec l m → IsConsistent l → Fits (waiter j m) (row j m)
  Step-Fits {l} (register now id q {l' = l'} {s = s} e) h =
      Fits-register_request now id q l l' s e (h.fits j) (h.fits id)
  Step-Fits {l} (resolve now id a) h = Fits-resolve_request now id a l (h.fits j)
  Step-Fits {l} (expire now later id payload) h =
      Fits-expire_after_timeout now later id payload l (h.fits j)
  Step-Fits {l} (mark now id) h = Fits-mark_expired j now id l (h.fits j)
  Step-Fits {l} (orphan now session code) h = Fits-orphan j now session code l h
  Step-Fits {l} (restart now generation) h = Fits-init j now generation l
  Step-Fits {l} (give_up id) h = Fits-cancel_waiter j id l (h.fits j)

module _ {P : Type 0} (codec : Codec P) where
  Step-IsConsistent : {l m : Ledger P} → Step codec l m → IsConsistent l → IsConsistent m
  Step-IsConsistent step h = record {
    unique = Step-HasKey codec step h.unique;
    fits = λ id. Step-Fits codec id step h;
  }

  -- From a consistent ledger, every run of methods and restarts leads to a consistent one: request
  -- identifiers stay unique; a future belongs to a row, `_pending_futures` holds it exactly while
  -- that row is pending or expired, and a future that it has let go is done.
  pub Reach-IsConsistent : {l m : Ledger P} → Reach codec l m → IsConsistent l → IsConsistent m
  Reach-IsConsistent here h = h
  Reach-IsConsistent (next run step) h = Step-IsConsistent step (Reach-IsConsistent run h)

-- A server that starts on a table with unique identifiers is consistent.
pub init-IsConsistent :
    {P : Type 0} (now : ℕ) (generation : String) (rows : List Request)
    → HasKey rows
    → IsConsistent (init {P = P} now generation rows)
unfolding init fetch_one
init-IsConsistent now generation rows h = record {
  unique =
      update-IsUnique (λ (r : Request). r.request_id) _ _ (λ r. unfold orphan_row in refl) rows h;
  fits = λ id. tt;
}
