-- ===== src/RequestLedger/Effects.antt =====
-- What each method of the ledger does to the row of an identifier.
use claude_sessions.Prelude.{
  ℕ, String, ◌≡◌, refl, Bool, false, none, some, List, [], ◌∷◌, ◌++◌, arith, str_eq, str_eq_iff,
  if◌then◌else◌, Option-cases, inl, inr,
}
use claude_sessions.Sql.{fetch_one, update, fetch_one_sound, fetch_one-update}
use claude_sessions.RequestLedger.Types.{
  Request, Codec, Registered, Ledger, NewRequest, Answer, failed,
}
use claude_sessions.RequestLedger.Rows.{
  has_id, row, awaits, expire_row, open_in, orphan_row, from_prior_run, settle, resolve_row,
  new_row, accepts,
}
use claude_sessions.RequestLedger.{
  init, mark_expired, settle_each, orphan_pending_for_session, resolve_fetched, resolve_request,
  register_request,
}
use mathlib.Core.Option

-- The statement leaves a row that it does not select.
abbrev pub changed : (Request → Bool) → (Request → Request) → Request → Request
changed p f r = if p r then f r else r

fetch_one-update_ne :
    (id j : String) (f : Request → Request)
    → ((r : Request) → (f r).request_id ≡ r.request_id)
    → (rows : List Request) → str_eq id j ≡ false
    → fetch_one (has_id j) (update (has_id id) f rows) ≡ fetch_one (has_id j) rows
unfolding fetch_one update
fetch_one-update_ne id j f keep [] h = refl
fetch_one-update_ne id j f keep (r ∷ rows) h = ground (
  arith,
  keep r,
  fetch_one-update_ne id j f keep rows,
  str_eq_iff id j,
  str_eq_iff r.request_id id,
  str_eq_iff r.request_id j,
)

module _ {P : Type 0} (j : String) where
  pub row-init :
      (now : ℕ) (generation : String) (l : Ledger P)
      → row j (init {P = P} now generation l.rows)
        ≡ Option.map
            (changed
              (from_prior_run generation)
              (orphan_row now "server_restarted" "server restarted before request resolution"))
            (row j l)
  unfolding init
  row-init now generation l =
      fetch_one-update (has_id j) (from_prior_run generation) _ (λ r. unfold orphan_row in refl)
        l.rows

  pub row-mark_expired :
      (now : ℕ) (id : String) (l : Ledger P)
      → row j (mark_expired now id l).0
        ≡ Option.map (changed (awaits id) (expire_row now)) (row j l)
  unfolding mark_expired
  row-mark_expired now id l =
      fetch_one-update (has_id j) (awaits id) (expire_row now) (λ r. unfold expire_row in refl)
        l.rows

  pub rows-settle_each : (rs : List Request) (l : Ledger P) → (settle_each rs l).rows ≡ l.rows
  unfolding settle_each settle
  rows-settle_each [] l = refl
  rows-settle_each (r ∷ rs) l = rows-settle_each rs (settle r.request_id none l)

  pub row-orphan_pending_for_session :
      (now : ℕ) (session code : String) (l : Ledger P)
      → row j (orphan_pending_for_session now session code l)
        ≡ Option.map
            (changed
              (open_in session)
              (orphan_row now code "session terminated before request resolution"))
            (row j l)
  unfolding orphan_pending_for_session
  row-orphan_pending_for_session now session code l =
      rw rows-settle_each
        (fetch_one-update (has_id j) (open_in session) _ (λ r. unfold orphan_row in refl) l.rows)

module _ {P : Type 0} (codec : Codec P) (j : String) where
  -- A registered request is a new row behind the others.
  pub row-register_request :
      (now : ℕ) (id : String) (q : NewRequest P) (l l' : Ledger P) (s : Registered)
      → register_request codec now id q l ≡ some (l', s)
      → (row id l ≡ none) × (l'.rows ≡ l.rows ++ new_row codec now id l.process_generation q ∷ [])
  unfolding register_request
  row-register_request now id q l l' s h = ground arith

  -- The row that `resolve_request` writes, if it writes.
  pub rows-resolve_fetched :
      (now : ℕ) (id : String) (a : Answer P) (r : Request) (l : Ledger P)
      → (resolve_fetched codec now id a r l).0.rows
        ≡ (if accepts a r then update (has_id id) (resolve_row codec now a) l.rows else l.rows)
  unfolding resolve_fetched
  rows-resolve_fetched now id a r l = ground arith

  pub row-resolve_request_self :
      (now : ℕ) (a : Answer P) (r : Request) (l : Ledger P)
      → row j l ≡ some r
      → row j (resolve_request codec now j a l).0
        ≡ some (if accepts a r then resolve_row codec now a r else r)
  unfolding resolve_request
  row-resolve_request_self now a r l h = ground (
    arith,
    rows-resolve_fetched now j a r l,
    fetch_one-update (has_id j) (has_id j) (resolve_row codec now a)
        (λ r. unfold resolve_row in refl) l.rows,
    fetch_one_sound (has_id j) l.rows r,
  )

  pub row-resolve_request_ne :
      (now : ℕ) (id : String) (a : Answer P) (l : Ledger P)
      → str_eq id j ≡ false
      → row j (resolve_request codec now id a l).0 ≡ row j l
  unfolding resolve_request
  row-resolve_request_ne now id a l h = elim (Option-cases (row id l)) [
    | inl e ↦ rw (e, resolve_request)
    | inr (r, e) ↦
        rw (e, resolve_request)
          (rw (rows-resolve_fetched now id a r l) (
            ground (
              arith,
              fetch_one-update_ne id j (resolve_row codec now a) (λ s. unfold resolve_row in refl)
                  l.rows,
            )))
  ]

  -- The two ways out of the SELECT of `resolve_request`.
  pub resolve_request_found :
      (now : ℕ) (a : Answer P) (r : Request) (l : Ledger P)
      → row j l ≡ some r
      → resolve_request codec now j a l ≡ resolve_fetched codec now j a r l
  unfolding resolve_request
  resolve_request_found now a r l h = rw (h, resolve_request)

  pub resolve_request_missing :
      (now : ℕ) (a : Answer P) (l : Ledger P)
      → row j l ≡ none
      → resolve_request codec now j a l ≡ (l, failed 404 "request_not_found" "request id not found")
  unfolding resolve_request
  resolve_request_missing now a l h = rw (h, resolve_request)
