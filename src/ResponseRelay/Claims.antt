-- ===== src/ResponseRelay/Claims.antt =====
-- Who may relay an assistant's output: one claimant at a time, and nobody once it is relayed.
use claude_sessions.Prelude.{
  ℕ, ◌+◌, ◌*◌, ◌<◌, ◌≡◌, refl, Bool, true, false, ◌⊎◌, Option, some, List, [], ◌∷◌, ◌++◌, arith,
  str_eq_iff, str_eq_refl, is_some, Bool-cases, Option-cases, inl, inr,
}
use claude_sessions.Sql.{
  fetch_one, fetch_one_sound, fetch_one-append, fetch_one-append_some, fetch_one-update, update,
}
use claude_sessions.ResponseRelay.{
  OutputKey, OutputRow, Claim, same_output_key, same_output, stands, claim_row, new_output,
  claim_assistant_output, mark_assistant_output_relayed, release_assistant_output_claim,
}

same_output_key_iff : (a b : OutputKey) → same_output_key a b ≡ true → a ≡ b
same_output_key_iff a b h = ground (
  arith,
  str_eq_iff a.session_id b.session_id,
  str_eq_iff a.inbound_id b.inbound_id,
  str_eq_iff a.provider b.provider,
  str_eq_iff a.assistant_message_id b.assistant_message_id,
)

same_output_key_refl : (a : OutputKey) → same_output_key a a ≡ true
same_output_key_refl a = ground (
  arith,
  str_eq_refl a.session_id,
  str_eq_refl a.inbound_id,
  str_eq_refl a.provider,
  str_eq_refl a.assistant_message_id,
)

-- A claim on an output meets a claim of time `t` that still stands.
abbrev pub IsEarly : ℕ → Claim → Type 0
IsEarly t claim = claim.now < t + 1000000 * claim.claim_timeout_seconds

-- The output has a row, of which this holds.
pub record HasRow (P : OutputRow → Type 0) (key : OutputKey) (rows : List OutputRow) : Type 0 where
  pub row : OutputRow
  pub found : fetch_one (same_output key) rows ≡ some row
  pub holds : P row

abbrev pub Relayed : OutputRow → Type 0
Relayed row = is_some row.relayed_at ≡ true

-- It was relayed, or is claimed since time `t`.
abbrev pub Taken : ℕ → OutputRow → Type 0
Taken t row = (is_some row.relayed_at ≡ true) ⊎ (row.relay_claimed_at ≡ some t)

-- The calls that may come while a claim of time `t` on an output stands: claims of it are early, and
-- nobody releases it.
pub data Meanwhile (t : ℕ) (key : OutputKey) (rows : List OutputRow) : List OutputRow → Type 0 where
  claims :
      (claim : Claim) → IsEarly t claim → Meanwhile t key rows (claim_assistant_output claim rows).0
  claims_other :
      (claim : Claim)
      → same_output_key key claim.key ≡ false
      → Meanwhile t key rows (claim_assistant_output claim rows).0
  marks :
      (marked : OutputKey) (now : ℕ) (telegram : Option ℕ)
      → Meanwhile t key rows (mark_assistant_output_relayed marked now telegram rows)
  releases_other :
      (released : OutputKey)
      → same_output_key key released ≡ false
      → Meanwhile t key rows (release_assistant_output_claim released rows)

pub data Run (C : List OutputRow → List OutputRow → Type 0) (rows : List OutputRow)
    : List OutputRow → Type 0 where
  here : Run C rows rows
  next : {s u : List OutputRow} → Run C rows s → C s u → Run C rows u

-- Any call on the table.
pub data Call (rows : List OutputRow) : List OutputRow → Type 0 where
  claims : (claim : Claim) → Call rows (claim_assistant_output claim rows).0
  marks :
      (key : OutputKey) (now : ℕ) (telegram : Option ℕ)
      → Call rows (mark_assistant_output_relayed key now telegram rows)
  releases : (key : OutputKey) → Call rows (release_assistant_output_claim key rows)

-- An UPDATE that keeps the keys, and what holds of the row of this output.
update-HasRow :
    (P : OutputRow → Type 0) (key : OutputKey) (p : OutputRow → Bool) (f : OutputRow → OutputRow)
    (rows : List OutputRow)
    → ((row : OutputRow) → (f row).key ≡ row.key)
    → ((row : OutputRow) → same_output key row ≡ true → p row ≡ true → P row → P (f row))
    → HasRow P key rows
    → HasRow P key (update p f rows)
update-HasRow P key p f rows same keep h =
    let seen = fetch_one-update (same_output key) p f (λ row. rw (same row) refl) rows in
    let is_key : same_output key h.row ≡ true =
      fetch_one_sound (same_output key) rows h.row h.found in
    elim (Bool-cases (p h.row)) [
      | inl on ↦ record {
        row = f h.row;
        found = rw seen (rw (h.found) (rw on refl));
        holds = keep h.row is_key on h.holds;
      }
      | inr off ↦ record {
        row = h.row;
        found = rw seen (rw (h.found) (rw off refl));
        holds = h.holds;
      }
    ]

append-HasRow :
    (P : OutputRow → Type 0) (key : OutputKey) (rows more : List OutputRow)
    → HasRow P key rows
    → HasRow P key (rows ++ more)
append-HasRow P key rows more h = record {
  row = h.row;
  found = fetch_one-append_some (same_output key) rows more h.row h.found;
  holds = h.holds;
}

-- A claim leaves the table, adds a row, or writes the rows of its output.
data Claims (claim : Claim) (rows : List OutputRow) : List OutputRow → Type 0 where
  refused : Claims claim rows rows
  added : Claims claim rows (rows ++ new_output claim ∷ [])
  renewed :
      (row : OutputRow)
      → fetch_one (same_output claim.key) rows ≡ some row
      → is_some row.relayed_at ≡ false
      → Claims claim rows (update (same_output claim.key) (claim_row claim) rows)

claim_assistant_output-Claims :
    (claim : Claim) (rows : List OutputRow)
    → Claims claim rows (claim_assistant_output claim rows).0
unfolding claim_assistant_output
claim_assistant_output-Claims claim rows =
    elim (Option-cases (fetch_one (same_output claim.key) rows)) [
      | inl e ↦ rw (e, claim_assistant_output) added
      | inr (row, e) ↦ elim (Bool-cases (is_some row.relayed_at)) [
        | inl done ↦ rw (e, done, claim_assistant_output) refused
        | inr open_row ↦ elim (Bool-cases (stands claim row)) [
          | inl old ↦ rw (e, open_row, old, claim_assistant_output) refused
          | inr stale ↦ rw (e, open_row, stale, claim_assistant_output) (renewed row e open_row)
        ]
      ]
    ]

-- A claim keeps what holds of a row if writing the row does.
claim-HasRow :
    (P : OutputRow → Type 0) (key : OutputKey) (claim : Claim) {rows s : List OutputRow}
    → Claims claim rows s
    → ((row : OutputRow)
        → same_output key row ≡ true
        → same_output claim.key row ≡ true
        → P row
        → P (claim_row claim row))
    → HasRow P key rows
    → HasRow P key s
unfolding claim_row
claim-HasRow P key claim refused keep h = h
claim-HasRow P key claim {rows} added keep h = append-HasRow P key rows (new_output claim ∷ []) h
claim-HasRow P key claim {rows} (renewed row e open_row) keep h =
    update-HasRow P key (same_output claim.key) (claim_row claim) rows (λ r. refl) keep h

-- A row of one output is no row of another.
other_row :
    (key other : OutputKey) (row : OutputRow)
    → same_output_key key other ≡ false
    → same_output key row ≡ true
    → same_output other row ≡ true
    → ⊥
other_row key other row apart mine theirs =
    let is_mine : row.key ≡ key = same_output_key_iff row.key key mine in
    let clash : same_output_key key other ≡ true = rw (← is_mine) theirs in ground arith

Taken-refuses :
    (t : ℕ) (claim : Claim) (rows : List OutputRow)
    → HasRow (Taken t) claim.key rows
    → IsEarly t claim
    → claim_assistant_output claim rows ≡ (rows, false)
unfolding claim_assistant_output
Taken-refuses t claim rows h early = rw (h.found, claim_assistant_output) (ground (arith, h.holds))

Relayed-refuses :
    (claim : Claim) (rows : List OutputRow)
    → HasRow Relayed claim.key rows
    → claim_assistant_output claim rows ≡ (rows, false)
unfolding claim_assistant_output
Relayed-refuses claim rows h = rw (h.found, claim_assistant_output) (ground (arith, h.holds))

Meanwhile-Taken :
    {t : ℕ} {key : OutputKey} {rows s : List OutputRow}
    → Meanwhile t key rows s
    → HasRow (Taken t) key rows
    → HasRow (Taken t) key s
unfolding mark_assistant_output_relayed release_assistant_output_claim
Meanwhile-Taken {t} {key} {rows} (claims claim early) h =
    elim (Bool-cases (same_output_key key claim.key)) [
      | inl same ↦
          let is_key : key ≡ claim.key = same_output_key_iff key claim.key same in
          rw (Taken-refuses t claim rows (rw (← is_key) h) early) h
      | inr apart ↦
          claim-HasRow (Taken t) key claim (claim_assistant_output-Claims claim rows)
            (λ row mine theirs taken. absurd (other_row key claim.key row apart mine theirs)) h
    ]
Meanwhile-Taken {t} {key} {rows} (claims_other claim apart) h =
    claim-HasRow (Taken t) key claim (claim_assistant_output-Claims claim rows)
      (λ row mine theirs taken. absurd (other_row key claim.key row apart mine theirs)) h
Meanwhile-Taken {t} {key} {rows} (marks marked now telegram) h =
    update-HasRow (Taken t) key (same_output marked) _ rows (λ row. refl)
      (λ row mine on taken. inl refl) h
Meanwhile-Taken {t} {key} {rows} (releases_other released apart) h =
    update-HasRow (Taken t) key _ _ rows (λ row. refl)
      (λ row mine on taken. absurd (other_row key released row apart mine (ground arith))) h

Call-Relayed :
    {key : OutputKey} {rows s : List OutputRow}
    → Call rows s
    → HasRow Relayed key rows
    → HasRow Relayed key s
unfolding mark_assistant_output_relayed release_assistant_output_claim claim_row
Call-Relayed {key} {rows} (claims claim) h =
    claim-HasRow Relayed key claim (claim_assistant_output-Claims claim rows)
      (λ row mine theirs done. done) h
Call-Relayed {key} {rows} (marks marked now telegram) h =
    update-HasRow Relayed key (same_output marked) _ rows (λ row. refl) (λ row mine on done. refl) h
Call-Relayed {key} {rows} (releases released) h =
    update-HasRow Relayed key _ _ rows (λ row. refl) (λ row mine on done. done) h

Run-Taken :
    {t : ℕ} {key : OutputKey} {rows s : List OutputRow}
    → Run (Meanwhile t key) rows s
    → HasRow (Taken t) key rows
    → HasRow (Taken t) key s
Run-Taken here h = h
Run-Taken (next run call) h = Meanwhile-Taken call (Run-Taken run h)

Run-Relayed :
    {key : OutputKey} {rows s : List OutputRow}
    → Run Call rows s
    → HasRow Relayed key rows
    → HasRow Relayed key s
Run-Relayed here h = h
Run-Relayed (next run call) h = Call-Relayed call (Run-Relayed run h)

-- A claim that is accepted leaves its output claimed since then.
accepted-Taken :
    (claim : Claim) (rows : List OutputRow)
    → (claim_assistant_output claim rows).1 ≡ true
    → HasRow (Taken claim.now) claim.key (claim_assistant_output claim rows).0
unfolding claim_assistant_output claim_row new_output
accepted-Taken claim rows h = elim (Option-cases (fetch_one (same_output claim.key) rows)) [
  | inl e ↦
      rw (e, claim_assistant_output)
        (record {
          row = new_output claim;
          found =
              rw (fetch_one-append (same_output claim.key) rows (new_output claim))
                (rw (e, same_output_key_refl claim.key) refl);
          holds = inr refl;
        })
  | inr (row, e) ↦ elim (Bool-cases (is_some row.relayed_at)) [
    | inl done ↦ absurd (ground (arith, (rw (e, done, claim_assistant_output) at h)))
    | inr open_row ↦ elim (Bool-cases (stands claim row)) [
      | inl old ↦ absurd (ground (arith, (rw (e, open_row, old, claim_assistant_output) at h)))
      | inr stale ↦
          rw (e, open_row, stale, claim_assistant_output)
            (record {
              row = claim_row claim row;
              found =
                  rw
                    (fetch_one-update (same_output claim.key) (same_output claim.key)
                      (claim_row claim) (λ r. refl) rows)
                    (rw (e, fetch_one_sound (same_output claim.key) rows row e) refl);
              holds = inr refl;
            })
    ]
  ]
]

-- A claim that is accepted keeps every other one out until its time is over or it is released:
-- whatever happens to other outputs, and to this one by marks and early claims, an early claim of
-- this output is refused and changes nothing.
pub claim_excludes :
    (first : Claim) (rows s : List OutputRow) (second : Claim)
    → (claim_assistant_output first rows).1 ≡ true
    → Run (Meanwhile first.now first.key) (claim_assistant_output first rows).0 s
    → second.key ≡ first.key
    → IsEarly first.now second
    → claim_assistant_output second s ≡ (s, false)
claim_excludes first rows s second accepted run same early =
    Taken-refuses first.now second s (rw same (Run-Taken run (accepted-Taken first rows accepted)))
      early

marked-Relayed :
    (key : OutputKey) (now : ℕ) (telegram : Option ℕ) (rows : List OutputRow)
    → is_some (fetch_one (same_output key) rows) ≡ true
    → HasRow Relayed key (mark_assistant_output_relayed key now telegram rows)
unfolding mark_assistant_output_relayed
marked-Relayed key now telegram rows there =
    elim (Option-cases (fetch_one (same_output key) rows)) [
      | inl e ↦ absurd (ground (arith))
      | inr (row, e) ↦ record {
        row = record row { relayed_at = some now; telegram_thread_id = telegram };
        found =
            rw
              (fetch_one-update (same_output key) (same_output key)
                (λ r. record r { relayed_at = some now; telegram_thread_id = telegram }) (λ r. refl)
                rows)
              (rw (e, fetch_one_sound (same_output key) rows row e) refl);
        holds = refl;
      }
    ]

-- An output that was marked as relayed is not relayed again: whatever calls come, every claim of it
-- is refused and changes nothing.
pub relayed_once :
    (key : OutputKey) (now : ℕ) (telegram : Option ℕ) (rows s : List OutputRow) (claim : Claim)
    → is_some (fetch_one (same_output key) rows) ≡ true
    → Run Call (mark_assistant_output_relayed key now telegram rows) s
    → claim.key ≡ key
    → claim_assistant_output claim s ≡ (s, false)
relayed_once key now telegram rows s claim there run same =
    Relayed-refuses claim s (rw same (Run-Relayed run (marked-Relayed key now telegram rows there)))
