-- ===== src/ResponseRelay/TranscriptTests.antt =====
-- A transcript of an input and its answer.
use claude_sessions.Prelude.{
  String, length, ℕ, true, false, none, some, List, [], ◌∷◌, ◌++◌, ◌≡◌, refl, Option, ◌==◌,
  if◌then◌else◌, Text, strip, lstrip, rstrip,
}
use claude_sessions.ResponseRelay.{InboundTurn}
use claude_sessions.ResponseRelay.Lines.{Bytes, split_lines, without_end}
use claude_sessions.ResponseRelay.Transcript.{
  Reader, Entry, text_content, find_claude_inbound_turn_boundary_offset, collect_from,
  collect_claude_assistant_outputs_after_turn, boundary_from, is_input, entry_of, is_blank,
  output_of, extract_visible_message_text, assistant_message_id,
}
use claude_sessions.ResponseRelay.Boundary.{IsLast, collects_behind_input}

abbrev entry : String → Entry
entry type = record {
  type = type;
  message = none;
  content = some (text_content (104 ∷ 105 ∷ []));
  uuid = some type;
  message_id = none;
  id = none;
  timestamp = none;
}

-- u is a user's line, a the assistant's
abbrev read_line : Bytes → Option Entry
read_line [] = none
read_line (b ∷ bytes) =
    if b == 117 then some (entry "user") else if b == 97 then some (entry "assistant") else none

abbrev reader : Reader
reader = record { loads = read_line; hash_text = λ text. "h"; parse_datetime = λ text. none }

abbrev turn : InboundTurn
turn = record {
  inbound_id = "in-1";
  session_id = "s";
  source = "telegram";
  provider = some "claude";
  delivered_at = 50;
  transcript_path = some "/t.jsonl";
  transcript_offset = none;
  provider_turn_id = none;
  text_hash = some "h";
}

abbrev bytes : Bytes
bytes = 97 ∷ 10 ∷ 117 ∷ 10 ∷ 97 ∷ 10 ∷ []

boundary : find_claude_inbound_turn_boundary_offset reader (some bytes) turn ≡ some 4
unfolding find_claude_inbound_turn_boundary_offset boundary_from split_lines is_input entry_of
    is_blank extract_visible_message_text strip lstrip rstrip claude_sessions.Prelude.is_space
boundary = refl

-- one of the two answers stands behind the input
outputs :
    length (
      collect_claude_assistant_outputs_after_turn reader 60
        (some bytes)
        (record turn { transcript_offset = some 4 }))
    ≡ 1
unfolding collect_claude_assistant_outputs_after_turn collect_from output_of without_end split_lines
    entry_of is_blank extract_visible_message_text assistant_message_id strip lstrip rstrip
    claude_sessions.Prelude.is_space
outputs = refl

collects_behind_input_example :
    (before : List Bytes) × ((line : Bytes) × ((after : List Bytes) × (IsLast reader "h"
            (split_lines bytes)
            before
            line
            after
            4
          × (collect_claude_assistant_outputs_after_turn reader 60
                (some bytes)
                (record turn { transcript_offset = some 4 })
              ≡ collect_from reader 60 none 4 1 after))))
collects_behind_input_example = collects_behind_input reader 60 "h" turn bytes 4 refl boundary
