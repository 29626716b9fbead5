-- ===== src/EventStore/Reading.antt =====
-- `get_events` and `get_ring_events` of src/codex_event_store.py: reading the events of a session
-- behind a cursor. A cursor is a number from 0; a limit below 1 is read as 1, so it is a number too.
use claude_sessions.Prelude.{
  ℕ, ◌+◌, ◌-◌, min, max, String, Bool, true, false, ◌&&◌, ◌||◌, Option, none, some, List, [], ◌∷◌,
  map, length, take, drop, ltb, leb, str_eq, if◌then◌else◌,
}
use claude_sessions.Sql.{select, order_by}
use claude_sessions.EventStore.Preview.{first_chars}
use claude_sessions.EventStore.Events.{EventRow, Event, Settings, EventStore, of_session, max_seq}

-- json.loads, which raises on other texts, and the object that stands for a text that it refuses
pub record Reader (P : Type 0) : Type 0 where
  pub loads : String → Option P
  pub raw : String → P

-- The dictionary that `get_events` returns.
pub record Page (P : Type 0) : Type 0 where
  pub events : List (Event P)
  pub earliest_seq : Option ℕ
  pub latest_seq : Option ℕ
  pub next_seq : ℕ
  pub history_gap : Bool
  pub gap_reason : Option String

-- MIN(seq), or NULL for no rows
unfoldable pub min_seq : List EventRow → Option ℕ
min_seq [] = none
min_seq (row ∷ rows) = elim (min_seq rows) [ none ↦ some row.seq | some m ↦ some (min row.seq m) ]

-- the sequence number of the last row
unfoldable pub last_seq : List EventRow → Option ℕ
last_seq [] = none
last_seq (row ∷ rows) = elim (last_seq rows) [ none ↦ some row.seq | some m ↦ some m ]

abbrev pub from : String → ℕ → EventRow → Bool
from id start row = of_session id row && leb start row.seq

-- the limit of a page
abbrev pub page_size : ℕ → ℕ
page_size limit = max 1 (min limit 500)

-- the cursor stands before what is still kept
abbrev pub is_behind : Option ℕ → ℕ → Bool
is_behind none earliest = false
is_behind (some since) earliest = ltb (since + 1) earliest

abbrev pub start_seq : Option ℕ → ℕ → ℕ → ℕ → ℕ
start_seq none limit earliest latest = max earliest (latest + 1 - limit)
start_seq (some since) limit earliest latest =
    if is_behind (some since) earliest then earliest else since + 1

-- the SELECT … ORDER BY seq ASC LIMIT
unfoldable pub fetch_page : String → ℕ → ℕ → List EventRow → List EventRow
fetch_page id start limit rows =
    take limit (order_by (λ row. row.seq) (select (from id start) rows))

module _ {P : Type 0} (reader : Reader P) (c : Settings) where
  abbrev read_payload : Option String → Option P
  read_payload none = none
  read_payload (some json) = if str_eq json "" then none else elim (reader.loads json) [
    | some payload ↦ some payload
    | none ↦ some (reader.raw (first_chars c.payload_preview_chars json))
  ]

  unfoldable pub read_event : EventRow → Event P
  read_event row = record {
    session_id = row.session_id;
    seq = some row.seq;
    timestamp = row.timestamp;
    event_type = row.event_type;
    turn_id = row.turn_id;
    payload_preview = read_payload row.payload_preview_json;
    persisted = true;
  }

  -- `get_events`
  unfoldable pub get_events : String → Option ℕ → ℕ → EventStore P → Page P
  unfolding max_seq min_seq last_seq read_event fetch_page
  get_events id since limit s =
      let n = page_size limit in
      let own = select (of_session id) s.rows in
      let degraded = s.persistence_degraded id in
      elim (min_seq own) [
        | none ↦ record {
          events = [];
          earliest_seq = none;
          latest_seq = none;
          next_seq = elim since [ none ↦ 1 | some m ↦ m + 1 ];
          history_gap = degraded;
          gap_reason = if degraded then some "persistence_error" else none;
        }
        | some earliest ↦
            let latest = max_seq own in
            let rows = fetch_page id (start_seq since n earliest latest) n s.rows in
            let behind = is_behind since earliest in
            record {
              events = map read_event rows;
              earliest_seq = some earliest;
              latest_seq = some latest;
              next_seq = elim (last_seq rows) [
                | some m ↦ m + 1
                | none ↦ elim since [ none ↦ earliest | some m ↦ m + 1 ]
              ];
              history_gap = behind || degraded;
              gap_reason =
                  if behind
                  then some "retention"
                  else if degraded
                  then some "persistence_error"
                  else none;
            }
      ]

-- `get_ring_events`: `list(ring)[-limit:]`
unfoldable pub get_ring_events :
    {P : Type 0} → Settings → String → ℕ → EventStore P → List (Event P)
get_ring_events c id limit s =
    let ring = s.ring_events id in drop (length ring - max 1 (min limit c.ring_size)) ring
