-- ===== src/EventStore/ReadingTests.antt =====
-- Reading and pruning the events of concrete sessions.
use claude_sessions.Prelude.{
  ◌+◌, ℕ, ◌≤◌, String, ◌≡◌, refl, false, none, some, List, [], ◌∷◌, map, length, max, min, All,
  Among, Among-All, ◌⊎◌, arith, str_eq,
}
use claude_sessions.Sql.{select, order_by, place, delete}
use claude_sessions.EventStore.Events.{
  EventRow, Event, EventStore, Settings, append_event, max_seq, latest_seq,
}
use claude_sessions.EventStore.Sequence.{IsSequenced}
use claude_sessions.EventStore.Reading.{Reader, read_event, get_ring_events}
use claude_sessions.EventStore.Ordered.{behind_cursor}
use claude_sessions.EventStore.Cursor.{read_pages, get_events_complete}
use claude_sessions.EventStore.Pruning.{
  prune_incremental, prune_overflow, stale_rowids, overflow_rowids_for_session, delete_rowids_batch,
}
use claude_sessions.EventStore.Retention.{Outlived, prune_incremental_keeps, prune_incremental_done}
use claude_sessions.EventStore.Ring.{last, IsRing, noted, get_ring_events-append_event}
use claude_sessions.EventStore.Tests.{plain, small}

abbrev plain_reader : Reader String
plain_reader = record { loads = λ text. some text; raw = λ text. text }

abbrev delta_at : String → ℕ → EventRow
delta_at session n = record {
  session_id = session;
  seq = n;
  timestamp = n;
  event_type = "turn_delta";
  turn_id = none;
  payload_preview_json = none;
}

abbrev table : List EventRow
table = delta_at "a" 3 ∷ delta_at "b" 1 ∷ delta_at "a" 4 ∷ delta_at "a" 5 ∷ []

table-IsSequenced : IsSequenced table
table-IsSequenced = ground arith

abbrev store : EventStore String
store = record {
  rows = table;
  ring_events = λ id. [];
  persistence_degraded = λ id. false;
  persisted_writes = 0;
  pending_overflow_prune = λ id. false;
}

-- pages of two, from a cursor that stands before what is kept
get_events_complete_example :
    read_pages plain_reader small store "a" 2 2 0
    ≡ map (read_event plain_reader small) (select (behind_cursor "a" 0) table)
unfolding select
get_events_complete_example =
    get_events_complete plain_reader small store table-IsSequenced "a" 2 2 0 (ground arith)

abbrev three : Settings
three = record small { retention_max_events_per_session = 3 }

abbrev two : Settings
two = record small { retention_max_events_per_session = 2 }

prune_incremental_keeps_example :
    IsSequenced (prune_incremental two 10 0 ("a" ∷ []) table).rows
    × ((prune_incremental two 10 0 ("a" ∷ []) table).count ≤ 10)
    × (length table
        ≤ length (prune_incremental two 10 0 ("a" ∷ []) table).rows
          + (prune_incremental two 10 0 ("a" ∷ []) table).count)
    × ((row : EventRow)
        → Among row table
        → Outlived two 0 table row ⊎ Among row (prune_incremental two 10 0 ("a" ∷ []) table).rows)
prune_incremental_keeps_example =
    prune_incremental_keeps two 10 0 table table-IsSequenced ("a" ∷ [])

numbered : (row : EventRow) → Among row table → 1 ≤ row.seq
numbered row m = Among-All (λ r. 1 ≤ r.seq) table row (ground arith) m

prune_incremental_done_example :
    ((prune_incremental three 10 1 ("a" ∷ []) table).rows ≡ table)
    × ((row : EventRow) → Among row table → 1 ≤ row.timestamp)
    × All (λ id. length (select (λ row. str_eq row.session_id id) table) ≤ 3) ("a" ∷ [])
unfolding prune_incremental prune_overflow stale_rowids overflow_rowids_for_session
    delete_rowids_batch select order_by place latest_seq max_seq delete
prune_incremental_done_example =
    prune_incremental_done three 10 1 table table-IsSequenced (ground arith) numbered ("a" ∷ [])
      refl

abbrev no_log : String → List (Event String)
no_log id = []

abbrev started : EventStore String × Event String
started = append_event plain small false 8 7 "s" "turn_started" none none store

get_ring_events-append_event_example :
    IsRing small (noted plain false 8 started.1 store no_log) started.0
    × ((other : String) (limit : ℕ)
        → get_ring_events small other limit started.0
          ≡ last (max 1 (min limit 100)) (noted plain false 8 started.1 store no_log other))
get_ring_events-append_event_example =
    get_ring_events-append_event plain small 8 7 "s" "turn_started" none none false store no_log
      (ground arith) (λ id. refl)
