-- ===== src/EventStore.antt =====
-- src/codex_event_store.py: the ledger of assistant messages that were relayed to the user, the table
-- codex_assistant_relays. A method runs under `_lock`, so it is one step on the table.
pub mod Relays
pub mod Events
pub mod Sequence
pub mod Reading
pub mod Ordered
pub mod Cursor
pub mod Pruning
pub mod Batch
pub mod Retention
pub mod Ring
mod Preview
mod Tests
mod ReadingTests
use claude_sessions.Prelude.{
  ℕ, String, Bool, true, false, ◌&&◌, Option, none, some, List, [], ◌∷◌, ◌++◌, str_eq,
  if◌then◌else◌,
}
use claude_sessions.Sql.{exists}
unfoldable pub use Preview.{first_chars}
use mathlib.Core.Option

-- A row of codex_assistant_relays; its primary key is the first four columns.
pub record Relay : Type 0 where
  pub session_id : String
  pub thread_id : String
  pub turn_id : String
  pub message_item_id : String
  pub text_hash : String
  pub relayed_at : ℕ
  pub telegram_thread_id : Option ℕ
  pub text_preview : String

-- The identity of an assistant message.
pub record Message : Type 0 where
  pub session_id : String
  pub thread_id : Option String
  pub turn_id : String
  pub message_item_id : String

-- `thread_id or ""`
abbrev pub thread_key : Option String → String
thread_key id = Option.get_or id ""

-- the WHERE of `has_assistant_turn_relayed`, with and without a thread
abbrev pub in_turn : Message → Relay → Bool
in_turn m r =
    if str_eq (thread_key m.thread_id) ""
    then str_eq r.session_id m.session_id && str_eq r.turn_id m.turn_id
    else str_eq r.session_id m.session_id
      && str_eq r.thread_id (thread_key m.thread_id)
      && str_eq r.turn_id m.turn_id

-- the WHERE of `has_assistant_message_relayed`, with and without a thread
abbrev pub of_message : Message → Relay → Bool
of_message m r =
    if str_eq (thread_key m.thread_id) ""
    then str_eq r.session_id m.session_id
      && str_eq r.turn_id m.turn_id
      && str_eq r.message_item_id m.message_item_id
    else str_eq r.session_id m.session_id
      && str_eq r.thread_id (thread_key m.thread_id)
      && str_eq r.turn_id m.turn_id
      && str_eq r.message_item_id m.message_item_id

-- `has_assistant_message_relayed`
pub has_assistant_message_relayed : Message → List Relay → Bool
has_assistant_message_relayed m rows = exists (of_message m) rows

-- `has_assistant_turn_relayed`
pub has_assistant_turn_relayed : Message → List Relay → Bool
has_assistant_turn_relayed m rows = exists (in_turn m) rows

-- the conflict of an INSERT on the primary key
abbrev pub same_key : Relay → Relay → Bool
same_key new r =
    str_eq r.session_id new.session_id
    && str_eq r.thread_id new.thread_id
    && str_eq r.turn_id new.turn_id
    && str_eq r.message_item_id new.message_item_id

-- `digest` is hashlib's SHA-256 of the text, in hexadecimal.
abbrev pub new_relay : (String → String) → Message → String → Option ℕ → ℕ → Relay
new_relay digest m text telegram now = record {
  session_id = m.session_id;
  thread_id = thread_key m.thread_id;
  turn_id = m.turn_id;
  message_item_id = m.message_item_id;
  text_hash = digest text;
  relayed_at = now;
  telegram_thread_id = telegram;
  text_preview = first_chars 400 text;
}

-- `mark_assistant_message_relayed`: INSERT OR IGNORE, and `cursor.rowcount > 0`
pub mark_assistant_message_relayed :
    (String → String) → Message → String → Option ℕ → ℕ → List Relay → List Relay × Bool
mark_assistant_message_relayed digest m text telegram now rows =
    let new = new_relay digest m text telegram now in
    if exists (same_key new) rows then (rows, false) else (rows ++ new ∷ [], true)
