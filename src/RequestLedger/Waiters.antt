-- ===== src/RequestLedger/Waiters.antt =====
-- The futures of src/codex_request_ledger.py, and what each method does to the one of an identifier.
use claude_sessions.Prelude.{
  ℕ, String, ◌≡◌, refl, Bool, false, ◌&&◌, Option, none, some, List, [], ◌∷◌, arith, str_eq,
  str_eq_iff, Option-cases, inl, inr, if◌then◌else◌,
}
use claude_sessions.Sql.{select, fetch_one, exists, fetch_one-update, fetch_one_sound}
use claude_sessions.RequestLedger.Types.{resolved, Request, Codec, Ledger, Answer, Waiter}
use claude_sessions.RequestLedger.Rows.{
  row, has_id, settle, fulfil, settle_waiter, holds, open_in, accepts, view,
}
use claude_sessions.RequestLedger.{
  mark_expired, settle_each, orphan_pending_for_session, resolve_fetched, resolve_request,
}
use claude_sessions.RequestLedger.Effects.{resolve_request_found}
use mathlib.Core.Option

abbrev pub waits_for : {P : Type 0} → String → Waiter P → Bool
waits_for id w = str_eq w.request_id id

-- The future that was made for the identifier, held by the dictionary or not.
abbrev pub waiter : {P : Type 0} → String → Ledger P → Option (Waiter P)
waiter id l = fetch_one (waits_for id) l.waiters

abbrev pub settled : {P : Type 0} → Option P → Waiter P → Waiter P
settled value w = record w { tracked = false; future = fulfil value w.future }

module _ {P : Type 0} (j : String) where
  pub waiter-settle :
      (id : String) (value : Option P) (l : Ledger P)
      → waiter j (settle id value l)
        ≡ Option.map (λ w. if holds id w then settled value w else w) (waiter j l)
  unfolding settle settle_waiter
  waiter-settle id value l =
      fetch_one-update (waits_for j) (holds id) (settled value) (λ w. refl) l.waiters

  pub waiter-settle_each :
      (rs : List Request) (l : Ledger P)
      → waiter j (settle_each rs l)
        ≡ Option.map
            (λ w. if exists (has_id j) rs && w.tracked then settled none w else w)
            (waiter j l)
  unfolding settle_each fetch_one
  waiter-settle_each [] l = ground arith
  waiter-settle_each (r ∷ rs) l =
      let first = settle r.request_id none l in
      elim (Option-cases (waiter j l)) [
        | inl e ↦ ground (arith, waiter-settle r.request_id none l, waiter-settle_each rs first)
        | inr (w, e) ↦ ground (
          arith,
          waiter-settle r.request_id none l,
          waiter-settle_each rs first,
          fetch_one_sound (waits_for j) l.waiters w e,
          str_eq_iff w.request_id j,
          str_eq_iff w.request_id r.request_id,
          str_eq_iff r.request_id j,
        )
      ]

  pub waiter-mark_expired :
      (now : ℕ) (id : String) (l : Ledger P) → waiter j (mark_expired now id l).0 ≡ waiter j l
  unfolding mark_expired
  waiter-mark_expired now id l = refl

  pub waiter-orphan_pending_for_session :
      (now : ℕ) (session code : String) (l : Ledger P)
      → waiter j (orphan_pending_for_session now session code l)
        ≡ Option.map
            (λ w.
              if exists (has_id j) (select (open_in session) l.rows) && w.tracked
              then settled none w
              else w)
            (waiter j l)
  unfolding orphan_pending_for_session
  waiter-orphan_pending_for_session now session code l =
      waiter-settle_each (select (open_in session) l.rows) _

module _ {P : Type 0} (codec : Codec P) (j : String) where
  pub waiter-resolve_fetched :
      (now : ℕ) (id : String) (a : Answer P) (r : Request) (l : Ledger P)
      → waiter j (resolve_fetched codec now id a r l).0 ≡ (
          if accepts a r then waiter j (settle id (some a.response_payload) l) else elim r.status [
            | resolved ↦ waiter j (settle id (view codec r).resolved_payload l)
            | _ ↦ waiter j l
          ])
  unfolding resolve_fetched
  waiter-resolve_fetched now id a r l = ground arith

  -- The waiter after an answer: settled if the answer is accepted or repeated.
  pub waiter-resolve_request :
      (now : ℕ) (id : String) (a : Answer P) (r : Request) (l : Ledger P)
      → row id l ≡ some r
      → waiter j (resolve_request codec now id a l).0
        ≡ Option.map
            (λ w.
              if holds id w
              then if accepts a r
                then settled (some a.response_payload) w
                else elim r.status [ resolved ↦ settled (view codec r).resolved_payload w | _ ↦ w ]
              else w)
            (waiter j l)
  waiter-resolve_request now id a r l e = rw (resolve_request_found codec id now a r l e) (
      rw (waiter-resolve_fetched now id a r l) (
        ground (
          arith,
          waiter-settle j id (some a.response_payload) l,
          waiter-settle j id (view codec r).resolved_payload l,
        )))
