-- ===== src/EventStore/Events.antt =====
-- `append_event` of src/codex_event_store.py: the table codex_session_events, the rings of recent
-- events, and the mark of a session whose last event could not be persisted.
use claude_sessions.Prelude.{
  ℕ, ◌+◌, ◌-◌, max, String, Bool, true, false, Option, none, some, List, [], ◌∷◌, ◌++◌, length,
  drop, str_eq, ltb, leb, if◌then◌else◌,
}
use claude_sessions.Sql.{select}
use claude_sessions.EventStore.Preview.{first_chars, count_chars}

-- A row of codex_session_events; its primary key is the session with the sequence number.
pub record EventRow : Type 0 where
  pub session_id : String
  pub seq : ℕ
  pub timestamp : ℕ
  pub event_type : String
  pub turn_id : Option String
  pub payload_preview_json : Option String

-- The dictionary of an event. One that was not persisted has no sequence number.
pub record Event (P : Type 0) : Type 0 where
  pub session_id : String
  pub seq : Option ℕ
  pub timestamp : ℕ
  pub event_type : String
  pub turn_id : Option String
  pub payload_preview : Option P
  pub persisted : Bool

-- JSON payloads: their text, whether one is the empty object, and the two objects that the store makes.
pub record Json (P : Type 0) : Type 0 where
  pub dumps : P → String
  pub is_empty : P → Bool
  pub truncated : String → ℕ → P
  pub recovered : P

pub record Settings : Type 0 where
  pub ring_size : ℕ
  pub retention_max_events_per_session : ℕ
  pub payload_preview_chars : ℕ

pub record EventStore (P : Type 0) : Type 0 where
  pub rows : List EventRow
  pub ring_events : String → List (Event P)
  pub persistence_degraded : String → Bool
  pub persisted_writes : ℕ
  pub pending_overflow_prune : String → Bool

abbrev pub of_session : String → EventRow → Bool
of_session id row = str_eq row.session_id id

-- MAX(seq), or 0 for no rows
unfoldable pub max_seq : List EventRow → ℕ
max_seq [] = 0
max_seq (row ∷ rows) = max row.seq (max_seq rows)

-- `_latest_seq_locked`
unfoldable pub latest_seq : String → List EventRow → ℕ
unfolding max_seq
latest_seq id rows = max_seq (select (of_session id) rows)

-- `d[id] = value` and `set.add`, `set.discard` on a session's entry
abbrev pub set_entry {ℓ} : {A : Type ℓ} → String → A → (String → A) → String → A
set_entry id a entries other = if str_eq id other then a else entries other

module _ {P : Type 0} where
  -- `deque(maxlen=n)`: an event that goes in behind a full ring drops the first.
  unfoldable pub append_ring_event : Settings → Event P → EventStore P → EventStore P
  append_ring_event c e s =
      let ring = s.ring_events e.session_id ++ e ∷ [] in
      record s {
        ring_events = set_entry e.session_id (drop (length ring - c.ring_size) ring) s.ring_events;
      }

  -- `_serialize_payload_preview`
  unfoldable pub serialize_payload_preview : Json P → Settings → Option P → Option P
  serialize_payload_preview json c none = none
  serialize_payload_preview json c (some payload) =
      let serialized = json.dumps payload in
      if leb (count_chars serialized) c.payload_preview_chars
      then some payload
      else some
          (json.truncated (first_chars c.payload_preview_chars serialized) (count_chars serialized))

  -- The values of an INSERT of an event at a sequence number.
  unfoldable pub event_row : Json P → ℕ → Event P → EventRow
  event_row json n e = record {
    session_id = e.session_id;
    seq = n;
    timestamp = e.timestamp;
    event_type = e.event_type;
    turn_id = e.turn_id;
    payload_preview_json = elim e.payload_preview [
      | none ↦ none
      | some payload ↦ if json.is_empty payload then none else some (json.dumps payload)
    ];
  }

  abbrev pub marker : Json P → String → ℕ → ℕ → Event P
  marker json id n now = record {
    session_id = id;
    seq = some n;
    timestamp = now;
    event_type = "event_persist_recovered";
    turn_id = none;
    payload_preview = some json.recovered;
    persisted = true;
  }

  -- An INSERT of an event at a sequence number, with what follows for the event after the commit.
  unfoldable pub put_event : Json P → Settings → ℕ → Event P → EventStore P → EventStore P
  unfolding append_ring_event event_row
  put_event json c n e s = record (append_ring_event c e s) {
    rows = s.rows ++ event_row json n e ∷ [];
    persisted_writes = s.persisted_writes + 1;
  }

  -- The marker of a recovery, when the last event of the session could not be persisted.
  unfoldable pub put_marker : Json P → Settings → ℕ → String → EventStore P → EventStore P
  unfolding latest_seq put_event
  put_marker json c now id s =
      let n = latest_seq id s.rows + 1 in
      if s.persistence_degraded id
      then put_event json c n (marker json id n now)
          (record s { persistence_degraded = set_entry id false s.persistence_degraded })
      else s

  -- The transaction goes through.
  unfoldable pub persist_event :
      Json P → Settings → ℕ → Event P → EventStore P → EventStore P × Event P
  unfolding put_marker put_event latest_seq
  persist_event json c now e s =
      let n =
        latest_seq e.session_id s.rows + (if s.persistence_degraded e.session_id then 2 else 1) in
      let stored : Event P = record e { seq = some n; persisted = true } in
      let s' = put_event json c n stored (put_marker json c now e.session_id s) in
      (
        record s' {
          pending_overflow_prune =
              if ltb c.retention_max_events_per_session n
              then set_entry e.session_id true s'.pending_overflow_prune
              else s'.pending_overflow_prune;
        },
        stored,
      )

  -- The transaction fails, and is rolled back.
  unfoldable pub fall_back : Settings → Event P → EventStore P → EventStore P × Event P
  unfolding append_ring_event
  fall_back c e s =
      let lost = record e { seq = none; persisted = false } in
      (
        record (append_ring_event c lost s) {
          persistence_degraded = set_entry e.session_id true s.persistence_degraded;
        },
        lost,
      )

  -- `append_event` of an event with this session, type and turn at time `ts`. `fails` is whether the
  -- transaction raises; `now` is the time of the marker.
  unfoldable pub append_event :
      Json P
      → Settings
      → Bool
      → ℕ
      → ℕ
      → String
      → String
      → Option String
      → Option P
      → EventStore P
      → EventStore P × Event P
  unfolding persist_event fall_back serialize_payload_preview
  append_event json c fails now ts id event_type turn payload s =
      let e : Event P = record {
        session_id = id;
        seq = none;
        timestamp = ts;
        event_type = event_type;
        turn_id = turn;
        payload_preview = serialize_payload_preview json c payload;
        persisted = false;
      } in
      if fails then fall_back c e s else persist_event json c now e s
