-- ===== src/EventStore/Tests.antt =====
-- The event store at concrete messages and events.
use claude_sessions.Prelude.{
  ◌++◌, ◌+◌, Bool, str_eq, ◌∷◌, String, ◌≡◌, true, false, none, some, List, [], ◌||◌,
}
use claude_sessions.EventStore.{
  Relay, Message, in_turn, of_message, has_assistant_message_relayed, has_assistant_turn_relayed,
  new_relay, mark_assistant_message_relayed,
}
use claude_sessions.EventStore.Events.{
  serialize_payload_preview, Json, Settings, EventStore, Event, append_event, latest_seq,
}
use claude_sessions.EventStore.Sequence.{
  IsSequenced, append_event-IsSequenced, append_event_recovers,
}
use claude_sessions.EventStore.Relays.{mark_seen}
use claude_sessions.EventStore.Preview.{count_chars}

abbrev digest : String → String
digest s = "d"

abbrev hello : Message
hello = record { session_id = "s1"; thread_id = some "t1"; turn_id = "u1"; message_item_id = "i1" }

-- the same message, asked for without its thread
abbrev unthreaded : Message
unthreaded = record { session_id = "s1"; thread_id = none; turn_id = "u1"; message_item_id = "i1" }

abbrev after : List Relay
after = (mark_assistant_message_relayed digest hello "hello" none 5 []).0

mark_seen_example :
    (has_assistant_message_relayed unthreaded after ≡ (
      has_assistant_message_relayed unthreaded []
      || of_message unthreaded (new_relay digest hello "hello" none 5)))
    × (has_assistant_turn_relayed unthreaded after ≡ (
        has_assistant_turn_relayed unthreaded []
        || in_turn unthreaded (new_relay digest hello "hello" none 5)))
    × (has_assistant_message_relayed hello after ≡ true)
    × (has_assistant_turn_relayed hello after ≡ true)
mark_seen_example = mark_seen digest hello "hello" none 5 unthreaded []

-- payloads that are their own JSON text
abbrev pub plain : Json String
plain = record {
  dumps = λ p. p;
  is_empty = λ p. str_eq p "{}";
  truncated = λ excerpt n. excerpt;
  recovered = "persistence_recovered";
}

abbrev pub small : Settings
small = record {
  ring_size = 100;
  retention_max_events_per_session = 5000;
  payload_preview_chars = 200;
}

-- one event is there, and the next could not be persisted
abbrev one_event : EventStore String
one_event = record {
  rows =
      record {
        session_id = "s1";
        seq = 4;
        timestamp = 1;
        event_type = "turn_started";
        turn_id = some "u1";
        payload_preview_json = none;
      }
      ∷ [];
  ring_events = λ id. [];
  persistence_degraded = λ id. str_eq id "s1";
  persisted_writes = 4;
  pending_overflow_prune = λ id. false;
}

abbrev turn_completed : Bool → EventStore String → EventStore String × Event String
turn_completed fails s =
    append_event plain small fails 8 7 "s1" "turn_completed" (some "u1") (some "{}") s

append_event-IsSequenced_example : IsSequenced (turn_completed false one_event).0.rows
append_event-IsSequenced_example =
    append_event-IsSequenced plain small 8 7 "s1" "turn_completed" (some "u1") (some "{}") false
      one_event (tt, tt)

-- the event that cannot be persisted, and the one after it
abbrev lost : EventStore String × Event String
lost = append_event plain small true 5 6 "s1" "turn_delta" none (some "lost") one_event

append_event_recovers_example :
    (lost.0.rows ≡ one_event.rows)
    × (lost.1.seq ≡ none)
    × ((turn_completed false lost.0).1.seq ≡ some (latest_seq "s1" one_event.rows + 2))
    × ((turn_completed false lost.0).0.rows
        ≡ (one_event.rows
            ++ record {
              session_id = "s1";
              seq = latest_seq "s1" one_event.rows + 1;
              timestamp = 8;
              event_type = "event_persist_recovered";
              turn_id = none;
              payload_preview_json = some "persistence_recovered";
            }
              ∷ [])
          ++ record {
            session_id = "s1";
            seq = latest_seq "s1" one_event.rows + 2;
            timestamp = 7;
            event_type = "turn_completed";
            turn_id = some "u1";
            payload_preview_json = none;
          }
            ∷ [])
unfolding serialize_payload_preview count_chars
append_event_recovers_example =
    append_event_recovers plain small "s1" 5 8 6 7 "turn_delta" "turn_completed" none (some "u1")
      (some "lost") (some "{}") one_event
