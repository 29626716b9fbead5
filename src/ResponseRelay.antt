-- ===== src/ResponseRelay.antt =====
-- src/response_relay.py: the ledger of the inputs that were delivered to sessions, and of the
-- assistant's outputs that are relayed for them. A method runs under `_lock`, so it is one step on
-- the two tables, inbound_turns and assistant_outputs.
pub mod Turns
pub mod Claims
pub mod Lines
pub mod Transcript
pub mod Boundary
mod Tests
mod TranscriptTests
use claude_sessions.Prelude.{
  ℕ, ◌+◌, ◌*◌, String, Bool, true, false, not, ◌&&◌, ◌||◌, Option, none, some, List, [], ◌∷◌, ◌++◌,
  str_eq, ltb, ◌==◌, is_some, if◌then◌else◌,
}
use claude_sessions.Sql.{select, fetch_one, update, upsert}
use claude_sessions.EventStore.{first_chars}
use mathlib.Core.Option

-- A row of inbound_turns; times are in microseconds.
pub record TurnRow : Type 0 where
  pub inbound_id : String
  pub session_id : String
  pub source : String
  pub provider : Option String
  pub delivered_at : ℕ
  pub transcript_path : Option String
  pub transcript_offset : Option ℕ
  pub provider_turn_id : Option String
  pub text_hash : Option String
  pub superseded_at : Option ℕ
  pub created_at : ℕ
  pub updated_at : ℕ

-- `InboundTurn`
pub record InboundTurn : Type 0 where
  pub inbound_id : String
  pub session_id : String
  pub source : String
  pub provider : Option String
  pub delivered_at : ℕ
  pub transcript_path : Option String
  pub transcript_offset : Option ℕ
  pub provider_turn_id : Option String
  pub text_hash : Option String

abbrev pub key_of_turn : TurnRow → String
key_of_turn row = row.inbound_id

-- COALESCE(a, b)
abbrev pub coalesce : {A : Type 0} → Option A → Option A → Option A
coalesce (some a) b = some a
coalesce none b = b

-- the rows of a session that are not superseded
abbrev pub active_in : String → TurnRow → Bool
active_in session row = str_eq row.session_id session && not (is_some row.superseded_at)

-- `record_inbound_turn`: the WHERE and the SET of the UPDATE
abbrev pub older_than : InboundTurn → TurnRow → Bool
older_than turn row =
    str_eq row.session_id turn.session_id
    && not (str_eq row.inbound_id turn.inbound_id)
    && not (is_some row.superseded_at)

abbrev pub supersede : ℕ → TurnRow → TurnRow
supersede now row = record row { superseded_at = some now; updated_at = now }

-- the row that the INSERT makes, or what ON CONFLICT DO UPDATE makes of the row that is there
unfoldable pub turn_row : ℕ → InboundTurn → Option TurnRow → TurnRow
turn_row now turn none = record {
  inbound_id = turn.inbound_id;
  session_id = turn.session_id;
  source = turn.source;
  provider = turn.provider;
  delivered_at = turn.delivered_at;
  transcript_path = turn.transcript_path;
  transcript_offset = turn.transcript_offset;
  provider_turn_id = turn.provider_turn_id;
  text_hash = turn.text_hash;
  superseded_at = none;
  created_at = now;
  updated_at = now;
}
turn_row now turn (some old) = record old {
  session_id = turn.session_id;
  source = turn.source;
  provider = turn.provider;
  delivered_at = turn.delivered_at;
  transcript_path = coalesce turn.transcript_path old.transcript_path;
  transcript_offset = coalesce turn.transcript_offset old.transcript_offset;
  provider_turn_id = coalesce turn.provider_turn_id old.provider_turn_id;
  text_hash = coalesce turn.text_hash old.text_hash;
  superseded_at = none;
  updated_at = now;
}

abbrev pub has_turn_id : String → TurnRow → Bool
has_turn_id id row = str_eq row.inbound_id id

-- `record_inbound_turn` of the turn that it returns
unfoldable pub record_inbound_turn : ℕ → InboundTurn → List TurnRow → List TurnRow
unfolding turn_row
record_inbound_turn now turn rows =
    let rows' = update (older_than turn) (supersede now) rows in
    upsert key_of_turn (turn_row now turn (fetch_one (has_turn_id turn.inbound_id) rows')) rows'

-- `update_inbound_boundary`
unfoldable pub update_inbound_boundary :
    ℕ → String → Option String → Option ℕ → Option String → List TurnRow → List TurnRow
update_inbound_boundary now id path offset turn rows =
    update (has_turn_id id)
      (λ row. record row {
        transcript_path = coalesce path row.transcript_path;
        transcript_offset = coalesce offset row.transcript_offset;
        provider_turn_id = coalesce turn row.provider_turn_id;
        updated_at = now;
      })
      rows

-- `replace_inbound_transcript_boundary`
unfoldable pub replace_inbound_transcript_boundary :
    ℕ → String → String → Option ℕ → List TurnRow → List TurnRow
replace_inbound_transcript_boundary now id path offset rows =
    update (has_turn_id id)
      (λ row. record row {
        transcript_path = some path;
        transcript_offset = offset;
        updated_at = now;
      })
      rows

-- ORDER BY delivered_at DESC, updated_at DESC: whether the second row stands before the first
abbrev pub newer : TurnRow → TurnRow → Bool
newer a b =
    ltb a.delivered_at b.delivered_at
    || (a.delivered_at == b.delivered_at && ltb a.updated_at b.updated_at)

-- LIMIT 1 of the rows in that order
unfoldable pub newest : List TurnRow → Option TurnRow
newest [] = none
newest (row ∷ rows) = elim (newest rows) [
  | none ↦ some row
  | some best ↦ if newer row best then some best else some row
]

unfoldable pub turn_of : TurnRow → InboundTurn
turn_of row = record {
  inbound_id = row.inbound_id;
  session_id = row.session_id;
  source = row.source;
  provider = row.provider;
  delivered_at = row.delivered_at;
  transcript_path = row.transcript_path;
  transcript_offset = row.transcript_offset;
  provider_turn_id = row.provider_turn_id;
  text_hash = row.text_hash;
}

-- `get_latest_active_turn`
unfoldable pub get_latest_active_turn : String → List TurnRow → Option InboundTurn
unfolding newest turn_of
get_latest_active_turn session rows = Option.map turn_of (newest (select (active_in session) rows))

-- The primary key of assistant_outputs.
pub record OutputKey : Type 0 where
  pub session_id : String
  pub inbound_id : String
  pub provider : String
  pub assistant_message_id : String

-- A row of assistant_outputs.
pub record OutputRow : Type 0 where
  pub key : OutputKey
  pub provider_turn_id : Option String
  pub completed_at : ℕ
  pub text_hash : String
  pub text_preview : String
  pub relay_claimed_at : Option ℕ
  pub relayed_at : Option ℕ
  pub telegram_thread_id : Option ℕ

abbrev pub same_output_key : OutputKey → OutputKey → Bool
same_output_key a b =
    str_eq a.session_id b.session_id
    && str_eq a.inbound_id b.inbound_id
    && str_eq a.provider b.provider
    && str_eq a.assistant_message_id b.assistant_message_id

-- the WHERE on the four columns of the key
abbrev pub same_output : OutputKey → OutputRow → Bool
same_output key row = same_output_key row.key key

-- The arguments of `claim_assistant_output`, with the hash of the text and `now`.
pub record Claim : Type 0 where
  pub key : OutputKey
  pub text : String
  pub text_hash : String
  pub completed_at : ℕ
  pub provider_turn_id : Option String
  pub claim_timeout_seconds : ℕ
  pub now : ℕ

-- a claim of the row that is there still stands: `claimed_dt > stale_before`
abbrev pub stands : Claim → OutputRow → Bool
stands claim row = elim row.relay_claimed_at [
  | none ↦ false
  | some t ↦ ltb claim.now (t + 1000000 * claim.claim_timeout_seconds)
]

unfoldable pub claim_row : Claim → OutputRow → OutputRow
unfolding first_chars
claim_row claim row = record row {
  relay_claimed_at = some claim.now;
  completed_at = claim.completed_at;
  text_hash = claim.text_hash;
  text_preview = first_chars 400 claim.text;
  provider_turn_id = coalesce claim.provider_turn_id row.provider_turn_id;
}

unfoldable pub new_output : Claim → OutputRow
unfolding first_chars
new_output claim = record {
  key = claim.key;
  provider_turn_id = claim.provider_turn_id;
  completed_at = claim.completed_at;
  text_hash = claim.text_hash;
  text_preview = first_chars 400 claim.text;
  relay_claimed_at = some claim.now;
  relayed_at = none;
  telegram_thread_id = none;
}

-- `claim_assistant_output`
unfoldable pub claim_assistant_output : Claim → List OutputRow → List OutputRow × Bool
unfolding claim_row new_output
claim_assistant_output claim rows = elim (fetch_one (same_output claim.key) rows) [
  | none ↦ (rows ++ new_output claim ∷ [], true)
  | some row ↦
      if is_some row.relayed_at
      then (rows, false)
      else if stands claim row
      then (rows, false)
      else (update (same_output claim.key) (claim_row claim) rows, true)
]

-- `mark_assistant_output_relayed`
unfoldable pub mark_assistant_output_relayed :
    OutputKey → ℕ → Option ℕ → List OutputRow → List OutputRow
mark_assistant_output_relayed key now telegram rows =
    update (same_output key)
      (λ row. record row { relayed_at = some now; telegram_thread_id = telegram }) rows

-- `release_assistant_output_claim`
unfoldable pub release_assistant_output_claim : OutputKey → List OutputRow → List OutputRow
release_assistant_output_claim key rows =
    update (λ row. same_output key row && not (is_some row.relayed_at))
      (λ row. record row { relay_claimed_at = none }) rows
