-- ===== src/ResponseRelay/Turns.antt =====
-- The active turn of a session: there is at most one, and it is the last that was recorded.
use claude_sessions.Prelude.{
  ℕ, ◌≤◌, String, ◌≡◌, refl, ap, Bool, true, false, Option, none, some, List, [], ◌∷◌, All, arith,
  str_eq, str_eq_iff, str_eq_refl, Bool-cases, Option-cases, inl, inr,
}
use claude_sessions.Sql.{
  select, fetch_one, fetch_one_sound, fetch_one-update, update, count, IsUnique, update-IsUnique,
  upsert-IsUnique, count-upsert, count-update, select-upsert_only,
}
use claude_sessions.ResponseRelay.{
  TurnRow, InboundTurn, key_of_turn, coalesce, active_in, older_than, supersede, turn_row,
  has_turn_id, record_inbound_turn, update_inbound_boundary, replace_inbound_transcript_boundary,
  turn_of, get_latest_active_turn,
}

-- Turns have distinct identifiers, and a session has at most one that is active.
pub record IsSettled (rows : List TurnRow) : Type 0 where
  pub key : IsUnique key_of_turn rows
  pub single : (session : String) → count (active_in session) rows ≤ 1

-- One call on the table, by any caller.
pub data Call (rows : List TurnRow) : List TurnRow → Type 0 where
  records : (now : ℕ) (turn : InboundTurn) → Call rows (record_inbound_turn now turn rows)
  fills :
      (now : ℕ) (id : String) (path : Option String) (offset : Option ℕ) (turn : Option String)
      → Call rows (update_inbound_boundary now id path offset turn rows)
  moves :
      (now : ℕ) (id path : String) (offset : Option ℕ)
      → Call rows (replace_inbound_transcript_boundary now id path offset rows)

pub data Reach (rows : List TurnRow) : List TurnRow → Type 0 where
  here : Reach rows rows
  next : {s t : List TurnRow} → Reach rows s → Call s t → Reach rows t

count-select :
    (p : TurnRow → Bool) (rows : List TurnRow) (row : TurnRow)
    → select p rows ≡ row ∷ []
    → count p rows ≡ 1
unfolding select count
count-select p [] row h = absurd (ground arith)
count-select p (r ∷ rows) row h = elim (Bool-cases (p r)) [
  | inl on ↦ rw on (omega (arith, count-none p rows (ground arith)))
  | inr off ↦ rw off (omega (arith, count-select p rows row (ground arith)))
]
  where
    count-none : (p : TurnRow → Bool) (rows : List TurnRow) → select p rows ≡ [] → count p rows ≡ 0
    count-none p [] h = refl
    count-none p (r ∷ rows) h = ground (arith, count-none p rows)

module _ (now : ℕ) (turn : InboundTurn) where
  abbrev superseded : List TurnRow → List TurnRow
  superseded rows = update (older_than turn) (supersede now) rows

  abbrev written : List TurnRow → TurnRow
  written rows = turn_row now turn (fetch_one (has_turn_id turn.inbound_id) (superseded rows))

  -- The row that is written is active, in the turn's session, under the turn's identifier.
  written-id : (rows : List TurnRow) → (written rows).inbound_id ≡ turn.inbound_id
  unfolding turn_row
  written-id rows =
      elim (Option-cases (fetch_one (has_turn_id turn.inbound_id) (superseded rows))) [
        | inl e ↦ rw e refl
        | inr (old, e) ↦ rw e (
            (str_eq_iff old.inbound_id turn.inbound_id).0
              (fetch_one_sound (has_turn_id turn.inbound_id) (superseded rows) old e))
      ]

  written-active :
      (rows : List TurnRow) (session : String)
      → active_in session (written rows) ≡ str_eq turn.session_id session
  unfolding turn_row
  written-active rows session = ground arith

  -- Behind the UPDATE only the turn's own row can be active in its session.
  All-superseded :
      (rows : List TurnRow)
      → All
          (λ row. active_in turn.session_id row ≡ true → row.inbound_id ≡ turn.inbound_id)
          (superseded rows)
  unfolding update
  All-superseded [] = tt
  All-superseded (row ∷ rows) =
      (λ on. ground (arith, str_eq_iff row.inbound_id turn.inbound_id), All-superseded rows)

  record-key :
      (rows : List TurnRow)
      → IsUnique key_of_turn rows
      → IsUnique key_of_turn (record_inbound_turn now turn rows)
  unfolding record_inbound_turn
  record-key rows u =
      upsert-IsUnique key_of_turn (written rows) (superseded rows)
        (update-IsUnique key_of_turn (older_than turn) (supersede now) (λ r. refl) rows u)

  -- After a turn is recorded its row is the one active row of its session.
  pub select-record_inbound_turn :
      (rows : List TurnRow)
      → IsUnique key_of_turn rows
      → select (active_in turn.session_id) (record_inbound_turn now turn rows) ≡ written rows ∷ []
  unfolding record_inbound_turn
  select-record_inbound_turn rows u =
      select-upsert_only key_of_turn (active_in turn.session_id) (written rows) (superseded rows)
        (update-IsUnique key_of_turn (older_than turn) (supersede now) (λ r. refl) rows u)
        (rw (written-id rows) (All-superseded rows))
        (rw (written-active rows turn.session_id) (str_eq_refl turn.session_id))

  record-single :
      (rows : List TurnRow)
      → IsSettled rows
      → (session : String) → count (active_in session) (record_inbound_turn now turn rows) ≤ 1
  unfolding record_inbound_turn
  record-single rows h session = elim (Bool-cases (str_eq turn.session_id session)) [
    | inl same ↦
        let is_session : turn.session_id ≡ session = (str_eq_iff turn.session_id session).0 same in
        rw (← is_session) (
          omega (
            arith,
            count-select (active_in turn.session_id) (record_inbound_turn now turn rows)
                (written rows) (select-record_inbound_turn rows h.key),
          ))
    | inr other ↦
        let off : active_in session (written rows) ≡ false =
          rw (written-active rows session) other in
        let kept : count (active_in session) (superseded rows) ≡ count (active_in session) rows =
          count-update (active_in session) (older_than turn) (supersede now) rows (λ row. λ on.
            ground (
              arith,
              str_eq_iff row.session_id turn.session_id,
              str_eq_iff row.session_id session,
            )) in
        let counted =
          count-upsert key_of_turn (active_in session) (written rows) (superseded rows) in
        omega (arith, (rw off at counted), kept, h.single session)
  ]

  -- The turn with what it leaves open filled in from the row that was there.
  abbrev pub filled : Option TurnRow → InboundTurn
  filled none = turn
  filled (some old) = record turn {
    transcript_path = coalesce turn.transcript_path old.transcript_path;
    transcript_offset = coalesce turn.transcript_offset old.transcript_offset;
    provider_turn_id = coalesce turn.provider_turn_id old.provider_turn_id;
    text_hash = coalesce turn.text_hash old.text_hash;
  }

  turn_of-written :
      (rows : List TurnRow)
      → turn_of (written rows) ≡ filled (fetch_one (has_turn_id turn.inbound_id) rows)
  unfolding turn_of turn_row
  turn_of-written rows =
      let seen =
        fetch_one-update (has_turn_id turn.inbound_id) (older_than turn) (supersede now) (λ r. refl)
          rows in
      elim (Option-cases (fetch_one (has_turn_id turn.inbound_id) rows)) [
        | inl e ↦ rw seen (rw e refl)
        | inr (old, e) ↦
            let is_id : old.inbound_id ≡ turn.inbound_id =
              (str_eq_iff old.inbound_id turn.inbound_id).0
                (fetch_one_sound (has_turn_id turn.inbound_id) rows old e) in
            rw seen (rw e (ground (arith, str_eq_iff old.inbound_id turn.inbound_id)))
      ]

  -- If the identifiers are distinct, the latest active turn of a session is the turn that was recorded
  -- last for it, whatever times the turns have; a boundary or a text that it leaves open is the one
  -- that was known under its identifier.
  pub get_latest-record_inbound_turn :
      (rows : List TurnRow)
      → IsUnique key_of_turn rows
      → get_latest_active_turn turn.session_id (record_inbound_turn now turn rows)
        ≡ some (filled (fetch_one (has_turn_id turn.inbound_id) rows))
  unfolding get_latest_active_turn
  get_latest-record_inbound_turn rows u =
      rw (select-record_inbound_turn rows u) (ap some (turn_of-written rows))

update-IsSettled :
    (q : TurnRow → Bool) (f : TurnRow → TurnRow)
    → ((row : TurnRow) → (f row).inbound_id ≡ row.inbound_id)
    → ((session : String) (row : TurnRow) → active_in session (f row) ≡ active_in session row)
    → (rows : List TurnRow) → IsSettled rows
    → IsSettled (update q f rows)
update-IsSettled q f same_id same_state rows h = record {
  key = update-IsUnique key_of_turn q f same_id rows h.key;
  single = λ session.
      let kept = count-update (active_in session) q f rows (λ row on. same_state session row) in
      omega (arith, kept, h.single session);
}

Call-IsSettled : {rows s : List TurnRow} → Call rows s → IsSettled rows → IsSettled s
unfolding update_inbound_boundary replace_inbound_transcript_boundary
Call-IsSettled {rows} (records now turn) h = record {
  key = record-key now turn rows h.key;
  single = record-single now turn rows h;
}
Call-IsSettled {rows} (fills now id path offset turn) h =
    update-IsSettled (has_turn_id id) _ (λ row. refl) (λ session row. refl) rows h
Call-IsSettled {rows} (moves now id path offset) h =
    update-IsSettled (has_turn_id id) _ (λ row. refl) (λ session row. refl) rows h

-- Along every run of calls the identifiers of the turns stay distinct, and no session has two turns
-- that are active.
pub Reach-IsSettled : {rows s : List TurnRow} → Reach rows s → IsSettled rows → IsSettled s
Reach-IsSettled here h = h
Reach-IsSettled (next run call) h = Call-IsSettled call (Reach-IsSettled run h)
