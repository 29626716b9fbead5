-- ===== src/ResponseRelay/Tests.antt =====
-- The ledger of responses at concrete turns and outputs.
use claude_sessions.Prelude.{false, none, some, List, [], ◌≡◌, refl, arith, ℕ}
use claude_sessions.Sql.{count, fetch_one, update, upsert}
use claude_sessions.ResponseRelay.{
  TurnRow, InboundTurn, Claim, OutputKey, OutputRow, record_inbound_turn, get_latest_active_turn,
  claim_assistant_output, mark_assistant_output_relayed, release_assistant_output_claim,
}
use claude_sessions.ResponseRelay.Turns as Turns
use claude_sessions.ResponseRelay.Turns.{IsSettled, get_latest-record_inbound_turn, Reach-IsSettled}
use claude_sessions.ResponseRelay.Claims as Claims
use claude_sessions.ResponseRelay.Claims.{claim_excludes, relayed_once}

abbrev first_turn : InboundTurn
first_turn = record {
  inbound_id = "in-1";
  session_id = "s";
  source = "telegram";
  provider = some "claude";
  delivered_at = 50;
  transcript_path = some "/t.jsonl";
  transcript_offset = some 7;
  provider_turn_id = none;
  text_hash = none;
}

-- delivered, by its clock, before the first
abbrev second_turn : InboundTurn
second_turn = record first_turn { inbound_id = "in-2"; delivered_at = 40; transcript_offset = none }

abbrev one_turn : List TurnRow
one_turn = record_inbound_turn 51 first_turn []

empty-IsSettled : IsSettled []
unfolding count
empty-IsSettled = record { key = tt; single = λ session. omega arith }

one_turn-IsSettled : IsSettled one_turn
one_turn-IsSettled =
    Reach-IsSettled (Turns.next Turns.here (Turns.records 51 first_turn)) empty-IsSettled

get_latest-record_inbound_turn_example :
    get_latest_active_turn "s" (record_inbound_turn 60 second_turn one_turn) ≡ some second_turn
unfolding fetch_one record_inbound_turn upsert update
get_latest-record_inbound_turn_example =
    get_latest-record_inbound_turn 60 second_turn one_turn (one_turn-IsSettled.key)

Reach-IsSettled_example : IsSettled (record_inbound_turn 60 second_turn one_turn)
Reach-IsSettled_example =
    Reach-IsSettled (Turns.next Turns.here (Turns.records 60 second_turn)) one_turn-IsSettled

abbrev output_key : OutputKey
output_key = record {
  session_id = "s";
  inbound_id = "in-1";
  provider = "claude";
  assistant_message_id = "m-1";
}

abbrev claim_at : ℕ → Claim
claim_at t = record {
  key = output_key;
  text = "done";
  text_hash = "h";
  completed_at = 5;
  provider_turn_id = none;
  claim_timeout_seconds = 120;
  now = t;
}

abbrev claimed : List OutputRow
claimed = (claim_assistant_output (claim_at 100) []).0

-- another hook claims the same output meanwhile
claim_excludes_example :
    claim_assistant_output (claim_at 300) (claim_assistant_output (claim_at 200) claimed).0
    ≡ ((claim_assistant_output (claim_at 200) claimed).0, false)
unfolding claim_assistant_output fetch_one
claim_excludes_example =
    claim_excludes (claim_at 100) [] (claim_assistant_output (claim_at 200) claimed).0
      (claim_at 300) refl (Claims.next Claims.here (Claims.claims (claim_at 200) (ground arith)))
      refl (ground arith)

abbrev relayed : List OutputRow
relayed = mark_assistant_output_relayed output_key 150 none claimed

relayed_once_example :
    claim_assistant_output (claim_at 500000000) (release_assistant_output_claim output_key relayed)
    ≡ (release_assistant_output_claim output_key relayed, false)
unfolding claim_assistant_output fetch_one
relayed_once_example =
    relayed_once output_key 150 none claimed (release_assistant_output_claim output_key relayed)
      (claim_at 500000000) refl (Claims.next Claims.here (Claims.releases output_key)) refl
