-- ===== src/EventStore/Sequence.antt =====
-- The sequence numbers that `append_event` gives.
use claude_sessions.Prelude.{
  ℕ, ◌+◌, ◌≤◌, ◌<◌, max, String, ◌≡◌, refl, Bool, true, false, Option, none, some, List, [], ◌∷◌,
  ◌++◌, All, All-append, arith, str_eq_iff, str_eq_refl, Bool-cases, inl, inr, if◌then◌else◌, Among,
}
use claude_sessions.Sql.{select, select-append}
use claude_sessions.EventStore.Events.{
  EventRow, Event, Json, Settings, EventStore, of_session, max_seq, latest_seq, set_entry,
  append_ring_event, event_row, marker, put_event, put_marker, serialize_payload_preview,
  persist_event, fall_back, append_event,
}

max_seq-append : (xs ys : List EventRow) → max_seq (xs ++ ys) ≡ max (max_seq xs) (max_seq ys)
unfolding max_seq
max_seq-append [] ys = omega arith
max_seq-append (x ∷ xs) ys = omega (arith, max_seq-append xs ys)

latest_seq-append_one :
    (id : String) (rows : List EventRow) (row : EventRow)
    → latest_seq id (rows ++ row ∷ [])
      ≡ (if of_session id row then max (latest_seq id rows) row.seq else latest_seq id rows)
unfolding latest_seq max_seq select
latest_seq-append_one id rows row = rw (select-append (of_session id) rows (row ∷ [])) (
    rw (max_seq-append (select (of_session id) rows) (select (of_session id) (row ∷ [])))
      (ground arith))

-- Every row of a session is at most the latest.
pub latest_seq-bound :
    (id : String) (rows : List EventRow) (row : EventRow)
    → Among row rows
    → of_session id row ≡ true
    → row.seq ≤ latest_seq id rows
unfolding latest_seq max_seq select
latest_seq-bound id [] row m own = absurd m
latest_seq-bound id (r ∷ rows) row m own = ground (arith, latest_seq-bound id rows row)

latest_seq-rest :
    (id : String) (row : EventRow) (rows : List EventRow)
    → latest_seq id rows ≤ latest_seq id (row ∷ rows)
unfolding latest_seq max_seq select
latest_seq-rest id row rows = ground arith

-- Within each session the rows stand in the order of their sequence numbers, which are all different.
abbrev pub IsSequenced : List EventRow → Type 0
IsSequenced [] = Unit
IsSequenced (row ∷ rows) =
    All (λ later. of_session row.session_id later ≡ true → row.seq < later.seq) rows
    × IsSequenced rows

append_one-IsSequenced :
    (rows : List EventRow) (row : EventRow)
    → latest_seq row.session_id rows < row.seq
    → IsSequenced rows
    → IsSequenced (rows ++ row ∷ [])
append_one-IsSequenced [] row new h = (tt, tt)
append_one-IsSequenced (first ∷ rows) row new h = (
  All-append (λ later. of_session first.session_id later ≡ true → first.seq < later.seq) rows
      (row ∷ []) h.0
      (
        λ own. first_below (
            ground (
              arith,
              own,
              str_eq_iff row.session_id first.session_id,
              str_eq_iff first.session_id row.session_id,
            )),
        tt,
      ),
  append_one-IsSequenced rows row below_rest h.1,
)
  where
    first_below : of_session row.session_id first ≡ true → first.seq < row.seq
    first_below own =
        omega (arith, latest_seq-bound row.session_id (first ∷ rows) first (inl refl) own)

    below_rest : latest_seq row.session_id rows < row.seq
    below_rest = omega (arith, latest_seq-rest row.session_id first rows)

module _ {P : Type 0} (json : Json P) (c : Settings) where
  latest_seq-put_event :
      (n : ℕ) (e : Event P) (s : EventStore P)
      → latest_seq e.session_id (put_event json c n e s).rows
        ≡ max (latest_seq e.session_id s.rows) n
  unfolding put_event event_row
  latest_seq-put_event n e s = ground (
    arith,
    latest_seq-append_one e.session_id s.rows (event_row json n e),
    str_eq_refl e.session_id,
  )

  latest_seq-put_marker :
      (now : ℕ) (id : String) (s : EventStore P)
      → latest_seq id (put_marker json c now id s).rows
        ≡ latest_seq id s.rows + (if s.persistence_degraded id then 1 else 0)
  unfolding put_marker
  latest_seq-put_marker now id s = elim (Bool-cases (s.persistence_degraded id)) [
    | inl degraded ↦
        let n = latest_seq id s.rows + 1 in
        let cleared : EventStore P = record s {
          persistence_degraded = set_entry id false s.persistence_degraded;
        } in
        let put = latest_seq-put_event n (marker json id n now) cleared in
        rw degraded (omega (arith, put))
    | inr whole ↦ rw whole (omega arith)
  ]

  degraded-put_marker :
      (now : ℕ) (id : String) (s : EventStore P)
      → (put_marker json c now id s).persistence_degraded id ≡ false
  unfolding put_marker put_event append_ring_event
  degraded-put_marker now id s = ground (arith, str_eq_refl id)

  put_event-IsSequenced :
      (n : ℕ) (e : Event P) (s : EventStore P)
      → latest_seq e.session_id s.rows < n
      → IsSequenced s.rows
      → IsSequenced (put_event json c n e s).rows
  unfolding put_event event_row
  put_event-IsSequenced n e s new h = append_one-IsSequenced s.rows (event_row json n e) new h

  put_marker-IsSequenced :
      (now : ℕ) (id : String) (s : EventStore P)
      → IsSequenced s.rows
      → IsSequenced (put_marker json c now id s).rows
  unfolding put_marker
  put_marker-IsSequenced now id s h = elim (Bool-cases (s.persistence_degraded id)) [
    | inl degraded ↦
        let n = latest_seq id s.rows + 1 in
        let cleared : EventStore P = record s {
          persistence_degraded = set_entry id false s.persistence_degraded;
        } in
        rw degraded (put_event-IsSequenced n (marker json id n now) cleared (omega arith) h)
    | inr whole ↦ rw whole h
  ]

  persisted_at : Event P → EventStore P → ℕ
  persisted_at e s =
      latest_seq e.session_id s.rows + (if s.persistence_degraded e.session_id then 2 else 1)

  latest_seq-persist_event :
      (now : ℕ) (e : Event P) (s : EventStore P)
      → latest_seq e.session_id (persist_event json c now e s).0.rows ≡ persisted_at e s
  unfolding persist_event persisted_at
  latest_seq-persist_event now e s =
      let n : ℕ =
        latest_seq e.session_id s.rows + (if s.persistence_degraded e.session_id then 2 else 1) in
      let put =
        latest_seq-put_event n (record e { seq = some n; persisted = true })
          (put_marker json c now e.session_id s) in
      let before = latest_seq-put_marker now e.session_id s in grind (arith, put, before)

  persist_event-IsSequenced :
      (now : ℕ) (e : Event P) (s : EventStore P)
      → IsSequenced s.rows
      → IsSequenced (persist_event json c now e s).0.rows
  unfolding persist_event
  persist_event-IsSequenced now e s h =
      let n : ℕ =
        latest_seq e.session_id s.rows + (if s.persistence_degraded e.session_id then 2 else 1) in
      let before = latest_seq-put_marker now e.session_id s in
      let new : latest_seq e.session_id (put_marker json c now e.session_id s).rows < n =
        ground (arith, before) in
      put_event-IsSequenced n (record e { seq = some n; persisted = true })
        (put_marker json c now e.session_id s) new (put_marker-IsSequenced now e.session_id s h)

  module _ (now ts : ℕ) (id event_type : String) (turn : Option String) (payload : Option P) where
    abbrev appended : Bool → EventStore P → EventStore P × Event P
    appended fails s = append_event json c fails now ts id event_type turn payload s

    -- An event that is persisted gets a sequence number above every one that its session has: the
    -- next one, or the next but one when the marker of a recovery takes the next. It is then the
    -- latest, and the session is no longer marked as degraded.
    append_event_next :
        (s : EventStore P)
        → ((appended false s).1.seq
            ≡ some (latest_seq id s.rows + (if s.persistence_degraded id then 2 else 1)))
          × (latest_seq id (appended false s).0.rows
              ≡ latest_seq id s.rows + (if s.persistence_degraded id then 2 else 1))
          × ((appended false s).0.persistence_degraded id ≡ false)
    unfolding append_event persist_event persisted_at put_event append_ring_event
    append_event_next s =
        let e : Event P = record {
          session_id = id;
          seq = none;
          timestamp = ts;
          event_type = event_type;
          turn_id = turn;
          payload_preview = serialize_payload_preview json c payload;
          persisted = false;
        } in
        (refl, latest_seq-persist_event now e s, degraded-put_marker now id s)

    -- Whether or not its transaction goes through, an event leaves the rows of each session in the
    -- order of their sequence numbers, all different, if they were so before.
    pub append_event-IsSequenced :
        (fails : Bool) (s : EventStore P)
        → IsSequenced s.rows
        → IsSequenced (appended fails s).0.rows
    unfolding append_event fall_back append_ring_event
    append_event-IsSequenced true s h = h
    append_event-IsSequenced false s h =
        let e : Event P = record {
          session_id = id;
          seq = none;
          timestamp = ts;
          event_type = event_type;
          turn_id = turn;
          payload_preview = serialize_payload_preview json c payload;
          persisted = false;
        } in
        persist_event-IsSequenced now e s h

  -- An event that cannot be persisted changes no row and gets no sequence number. When the next
  -- event of the session is persisted, it gets the number after the next, and two rows are added
  -- behind the others: the marker of the recovery at the number after the latest, with the object
  -- that says so as its payload, and then the event, with its preview, at the number after that.
  pub append_event_recovers :
      (id : String) (lost_at later ts ts' : ℕ) (lost_type event_type : String)
      (lost_turn turn : Option String) (lost_payload payload : Option P) (s : EventStore P)
      → let lost = append_event json c true lost_at ts id lost_type lost_turn lost_payload s in
        let next = append_event json c false later ts' id event_type turn payload lost.0 in
        (lost.0.rows ≡ s.rows)
        × (lost.1.seq ≡ none)
        × (next.1.seq ≡ some (latest_seq id s.rows + 2))
        × (next.0.rows
            ≡ (s.rows
                ++ record {
                  session_id = id;
                  seq = latest_seq id s.rows + 1;
                  timestamp = later;
                  event_type = "event_persist_recovered";
                  turn_id = none;
                  payload_preview_json =
                      if json.is_empty json.recovered
                      then none
                      else some (json.dumps json.recovered);
                }
                  ∷ [])
              ++ record {
                session_id = id;
                seq = latest_seq id s.rows + 2;
                timestamp = ts';
                event_type = event_type;
                turn_id = turn;
                payload_preview_json = elim (serialize_payload_preview json c payload) [
                  | none ↦ none
                  | some p ↦ if json.is_empty p then none else some (json.dumps p)
                ];
              }
                ∷ [])
  unfolding append_event fall_back append_ring_event persist_event put_marker put_event event_row
  append_event_recovers id lost_at later ts ts' lost_type event_type lost_turn turn lost_payload
        payload s =
      (refl, refl, rw (str_eq_refl id) refl, rw (str_eq_refl id) refl)
