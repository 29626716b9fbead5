-- ===== src/RequestLedger/Outcomes.antt =====
-- What the methods of the ledger come to, on each branch.
use claude_sessions.Prelude.{
  ℕ, String, ◌≡◌, refl, Bool, true, false, Option, none, some, arith, str_eq, Option-cases, inl,
  inr, ◌∙◌, if◌then◌else◌, is_some,
}
use claude_sessions.Sql.{fetch_one, fetch_one_sound, fetch_one-keyed, update-none}
use claude_sessions.RequestLedger.Types.{
  expired, resolved, orphaned, is_open, is_pending, Request, Codec, View, Resolution, ok, failed,
  Ledger, Answer, Waiter, waiting, result,
}
use claude_sessions.RequestLedger.Rows.{
  row, has_id, accepts, view, resolve_row, fulfil, expire_row, orphan_row, awaits,
}
use claude_sessions.RequestLedger.{
  init, mark_expired, resolve_fetched, resolve_request, expire_after_timeout, expiry_answer, wake,
}
use claude_sessions.RequestLedger.Effects.{
  row-init, row-mark_expired, row-resolve_request_self, resolve_request_found,
  resolve_request_missing,
}
use claude_sessions.RequestLedger.Runs.{Reach}
use claude_sessions.RequestLedger.Settled.{Reach-closed}
use claude_sessions.RequestLedger.Unique.{HasKey}
use claude_sessions.RequestLedger.Waiters.{waits_for, waiter, waiter-resolve_request}

-- The refusals, described by the row alone.
abbrev pub refusal : Bool → Option Request → Option (ℕ × String × String)
refusal allow_expired none = some (404, "request_not_found", "request id not found")
refusal allow_expired (some r) = elim r.status [
  | orphaned ↦ some (404, "request_unavailable", "request is orphaned")
  | expired ↦
      if allow_expired then none else some (404, "request_unavailable", "request is expired")
  | _ ↦ none
]

abbrev pub refused_with : {P : Type 0} → Resolution P → Option (ℕ × String × String)
refused_with (ok again v) = none
refused_with (failed status code message) = some (status, code, message)

module _ {P : Type 0} (codec : Codec P) (id : String) where
  resolve_request-replay :
      (later : ℕ) (b : Answer P) (r : Request) (m : Ledger P)
      → row id m ≡ some r
      → r.status ≡ resolved
      → ((resolve_request codec later id b m).1 ≡ ok true (view codec r))
        × ((resolve_request codec later id b m).0.rows ≡ m.rows)
  unfolding resolve_fetched
  resolve_request-replay later b r m h s =
      rw (resolve_request_found codec id later b r m h) (ground arith)

  -- An answer that is accepted is final. After it, whatever the ledger goes through, each further
  -- answer to the same request is reported as a success marked idempotent, with the payload and the
  -- source of the first answer, and changes no row. The payload is one that JSON keeps.
  pub first_answer_wins :
      (now later : ℕ) (a b : Answer P) (r : Request) (l m : Ledger P)
      → row id l ≡ some r
      → accepts a r ≡ true
      → codec.loads (codec.dumps a.response_payload) ≡ a.response_payload
      → str_eq (codec.dumps a.response_payload) "" ≡ false
      → Reach codec (resolve_request codec now id a l).0 m
      → (v : View P) × ((resolve_request codec later id b m).1 ≡ ok true v)
        × (v.resolved_payload ≡ some a.response_payload)
        × (v.resolution_source ≡ some a.resolution_source)
        × ((resolve_request codec later id b m).0.rows ≡ m.rows)
  unfolding resolve_row view
  first_answer_wins now later a b r l m h acc round full run =
      let r' = resolve_row codec now a r in
      let written : row id (resolve_request codec now id a l).0 ≡ some r' =
        ground (arith, row-resolve_request_self codec id now a r l h) in
      let kept : row id m ≡ some r' = Reach-closed codec id r' refl run written in
      let (told, same) = resolve_request-replay later b r' m kept refl in
      (view codec r', told, ground arith, refl, same)

  -- A caller that waits while an answer is accepted gets the answer's payload, and the dictionary
  -- lets its future go.
  pub answer_reaches_waiter :
      (now : ℕ) (a : Answer P) (r : Request) (w : Waiter P) (l : Ledger P)
      → row id l ≡ some r
      → accepts a r ≡ true
      → waiter id l ≡ some w
      → w.tracked ≡ true
      → w.future ≡ waiting
      → waiter id (resolve_request codec now id a l).0
        ≡ some (record {
          request_id = w.request_id;
          tracked = false;
          future = result (some a.response_payload);
        })
  unfolding fulfil
  answer_reaches_waiter now a r w l h acc held tracked waits =
      rw (waiter-resolve_request codec id now id a r l h)
        (rw held (ground (arith, fetch_one_sound (waits_for id) l.waiters w held)))

  -- The answer is refused with this status, code and message exactly when the table has no such row
  -- (not found), or the row is orphaned, or it is expired and the answer may not meet an expired row
  -- (unavailable). A refusal leaves the ledger as it was.
  pub resolve_request-refusal :
      (now : ℕ) (a : Answer P) (l : Ledger P)
      → (refused_with (resolve_request codec now id a l).1 ≡ refusal a.allow_expired (row id l))
        × ((resolve_request codec now id a l).0 ≡ (
            if is_some (refusal a.allow_expired (row id l))
            then l
            else (resolve_request codec now id a l).0))
  resolve_request-refusal now a l = elim (Option-cases (row id l)) [
    | inl e ↦ rw (resolve_request_missing codec id now a l e, e) (refl, refl)
    | inr (r, e) ↦
        rw (resolve_request_found codec id now a r l e, e) (unfold resolve_fetched in ground arith)
  ]

  mark_expired_transitioned :
      (now : ℕ) (r : Request) (l : Ledger P)
      → HasKey l.rows
      → row id l ≡ some r
      → (mark_expired now id l).1 ≡ is_pending r.status
  unfolding mark_expired
  mark_expired_transitioned now r l key h =
      fetch_one-keyed (λ (r : Request). r.request_id) (λ r. is_pending r.status) id l.rows key
      ∙ rw h

  -- The end of the sleep of an expiry task, with distinct request identifiers: a request that is
  -- still pending is resolved by the policy at the second time, with the policy's payload, and its
  -- error code and message say that it expired. The rest of its row is as before.
  pub expiry_resolves :
      (now later : ℕ) (payload : P) (r : Request) (l : Ledger P)
      → HasKey l.rows
      → row id l ≡ some r
      → is_pending r.status ≡ true
      → row id (expire_after_timeout codec now later id payload l)
        ≡ some (record r {
          status = resolved;
          resolved_payload_json = some (codec.dumps payload);
          resolved_at = some later;
          resolution_source = some "policy";
          error_code = some "request_expired";
          error_message = some "request expired before explicit response";
        })
  unfolding expire_after_timeout
  expiry_resolves now later payload r l key h pend =
      let marked = (mark_expired now id (wake codec id l)).0 in
      let over : row id marked ≡ some (expire_row now r) = ground (
        arith,
        row-mark_expired id now id (wake codec id l),
        fetch_one_sound (has_id id) l.rows r h,
      ) in
      rw (mark_expired_transitioned now r (wake codec id l) key h ∙ pend) (
        row-resolve_request_self codec id later (expiry_answer codec payload) (expire_row now r)
          marked over
        ∙ unfold expire_row resolve_row in refl)

  -- The end of the sleep for a request that is no longer pending changes no row and no future.
  pub expiry_late :
      (now later : ℕ) (payload : P) (r : Request) (l : Ledger P)
      → HasKey l.rows
      → row id l ≡ some r
      → is_pending r.status ≡ false
      → ((expire_after_timeout codec now later id payload l).rows ≡ l.rows)
        × ((expire_after_timeout codec now later id payload l).waiters ≡ l.waiters)
  unfolding expire_after_timeout mark_expired
  expiry_late now later payload r l key h late =
      let none_pending : fetch_one (awaits id) l.rows ≡ none = ground (
        arith,
        fetch_one-keyed (λ (r : Request). r.request_id) (λ r. is_pending r.status) id l.rows key,
      ) in
      (rw none_pending (update-none (awaits id) _ l.rows none_pending), rw none_pending)

module _ {P : Type 0} (id : String) where
  -- A restart with a new generation leaves no request of an earlier run open: the row is orphaned
  -- with the code that names the restart. Each row that is settled, or of this generation, is kept.
  pub init_orphans :
      (now : ℕ) (generation : String) (r : Request) (l : Ledger P)
      → row id l ≡ some r
      → row id (init {P = P} now generation l.rows)
        ≡ some (
            if is_open r.status
            then if str_eq r.process_generation generation then r else record r {
              status = orphaned;
              resolved_at = some now;
              resolution_source = some "policy";
              error_code = some "server_restarted";
              error_message = some "server restarted before request resolution";
            }
            else r)
  unfolding orphan_row
  init_orphans now generation r l h = rw (row-init id now generation l, h) (ground arith)
