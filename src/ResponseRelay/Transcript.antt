-- ===== src/ResponseRelay/Transcript.antt =====
-- The transcript of a session, as src/response_relay.py reads it: the end of the line of an input, and
-- the assistant's messages behind it.
use claude_sessions.Prelude.{
  ℕ, ◌+◌, String, Bool, true, false, not, ◌&&◌, ◌||◌, ◌==◌, Option, none, some, List, [], ◌∷◌, ◌++◌,
  length, drop, str_eq, ltb, if◌then◌else◌, Text, strip,
}
use claude_sessions.ResponseRelay.{InboundTurn}
use claude_sessions.ResponseRelay.Lines.{Bytes, split_lines, without_end}
use claude_sessions.EventStore.{first_chars}
use mathlib.Core.Option

-- An item of a content: a text, a dictionary with its type and its text if that is one, or another value.
pub data Item : Type 0 where
  a_text : Text → Item
  a_dict : String → Option Text → Item
  another : Item

pub data Content : Type 0 where
  text_content : Text → Content
  list_content : List Item → Content
  other_content : Content

-- The value of "message", if that is a dictionary; an id that counts as false is none.
pub record MessageBody : Type 0 where
  pub content : Option Content
  pub id : Option String

-- A line that is a dictionary, with what is read of it.
pub record Entry : Type 0 where
  pub type : String
  pub message : Option MessageBody
  pub content : Option Content
  pub uuid : Option String
  pub message_id : Option String
  pub id : Option String
  pub timestamp : Option String

-- What is a parameter: the JSON of a line, around which white space does not count, none if it is malformed or no
-- dictionary; SHA-256; the time of an ISO text, in microseconds.
pub record Reader : Type 0 where
  pub loads : Bytes → Option Entry
  pub hash_text : Text → String
  pub parse_datetime : String → Option ℕ

pub data AssistantMessageId : Type 0 where
  named : String → AssistantMessageId
  -- f"transcript:{line_start_offset}:{hash}", with the first characters of the hash
  placed : ℕ → String → AssistantMessageId

-- `ClaudeAssistantOutput`
pub record ClaudeAssistantOutput : Type 0 where
  pub assistant_message_id : AssistantMessageId
  pub text : Text
  pub completed_at : ℕ
  pub line_start_offset : ℕ
  pub line_number : ℕ

abbrev pub item_texts : List Item → List Text
item_texts [] = []
item_texts (a_text text ∷ items) = text ∷ item_texts items
item_texts (a_dict type none ∷ items) = item_texts items
item_texts (a_dict type (some text) ∷ items) =
    let rest = item_texts items in if str_eq type "text" then text ∷ rest else rest
item_texts (another ∷ items) = item_texts items

-- "\n".join(texts)
abbrev pub join_texts : List Text → Text
join_texts [] = []
join_texts (text ∷ []) = text
join_texts (text ∷ next ∷ texts) = text ++ 10 ∷ join_texts (next ∷ texts)

abbrev pub content_text : Content → Text
content_text (text_content text) = strip text
content_text (list_content items) = strip (join_texts (item_texts items))
content_text other_content = strip []

abbrev pub message_content : Option MessageBody → Option Content → Content
message_content none none = list_content []
message_content none (some content) = content
message_content (some m) outer = elim m.content [
  | some content ↦ content
  | none ↦ elim outer [ none ↦ list_content [] | some content ↦ content ]
]

-- `_extract_visible_message_text`
unfoldable pub extract_visible_message_text : Entry → Text
extract_visible_message_text entry = content_text (message_content entry.message entry.content)

abbrev pub or_else : Option String → Option String → Option String
or_else none b = b
or_else (some a) b = some a

abbrev pub id_of_message : Option MessageBody → Option String
id_of_message none = none
id_of_message (some m) = m.id

-- `_assistant_message_id`
unfoldable pub assistant_message_id : Reader → Entry → ℕ → Text → AssistantMessageId
assistant_message_id reader entry offset text =
    elim (or_else entry.uuid
      (or_else entry.message_id (or_else entry.id (id_of_message entry.message)))) [
        | some id ↦ named id
        | none ↦ placed offset (first_chars 16 (reader.hash_text text))
      ]

abbrev pub is_blank_byte : ℕ → Bool
is_blank_byte b = (b == 32) || (ltb 8 b && ltb b 14)

-- `not raw_line.strip()`
unfoldable pub is_blank : Bytes → Bool
is_blank [] = true
is_blank (b ∷ bytes) = let rest = is_blank bytes in is_blank_byte b && rest

abbrev pub has_text : Text → Bool
has_text [] = false
has_text (_ ∷ _) = true

-- the entry of a line, of this type
unfoldable pub entry_of : Reader → String → Bytes → Option Entry
unfolding is_blank
entry_of reader type line = if is_blank line then none else elim (reader.loads line) [
  | none ↦ none
  | some entry ↦ if str_eq entry.type type then some entry else none
]

-- whether a line is the input with this hash
unfoldable pub is_input : Reader → String → Bytes → Bool
unfolding entry_of extract_visible_message_text
is_input reader hash line = elim (entry_of reader "user" line) [
  | none ↦ false
  | some entry ↦
      let text = extract_visible_message_text entry in
      has_text text && str_eq (reader.hash_text text) hash
]

-- the loop of `find_claude_inbound_turn_boundary_offset`
unfoldable pub boundary_from : Reader → String → ℕ → Option ℕ → List Bytes → Option ℕ
unfolding is_input
boundary_from reader hash offset matched [] = matched
boundary_from reader hash offset matched (line ∷ lines) =
    let offset' = offset + length line in
    boundary_from reader hash offset' (if is_input reader hash line then some offset' else matched)
      lines

-- `find_claude_inbound_turn_boundary_offset`; none is a file that cannot be read
unfoldable pub find_claude_inbound_turn_boundary_offset :
    Reader → Option Bytes → InboundTurn → Option ℕ
unfolding boundary_from split_lines
find_claude_inbound_turn_boundary_offset reader file turn = elim turn.text_hash [
  | none ↦ none
  | some hash ↦ elim file [
    | none ↦ none
    | some bytes ↦
        if str_eq hash "" then none else boundary_from reader hash 0 none (split_lines bytes)
  ]
]

abbrev pub completion_of : Reader → Entry → Option ℕ
completion_of reader entry = elim entry.timestamp [
  | none ↦ none
  | some text ↦ if str_eq text "" then none else reader.parse_datetime text
]

-- without an offset, what is not dated at or behind the delivery is passed over
abbrev pub is_dated : Option ℕ → ℕ → Bool
is_dated none delivered_at = false
is_dated (some at) delivered_at = not (ltb at delivered_at)

-- the output of a line, if it is one
unfoldable pub output_of : Reader → ℕ → Option ℕ → ℕ → ℕ → Bytes → Option ClaudeAssistantOutput
unfolding entry_of extract_visible_message_text assistant_message_id
output_of reader now required offset number line = elim (entry_of reader "assistant" line) [
  | none ↦ none
  | some entry ↦
      let at = completion_of reader entry in
      let text = extract_visible_message_text entry in
      let output : ClaudeAssistantOutput = record {
        assistant_message_id = assistant_message_id reader entry offset text;
        text = text;
        completed_at = Option.get_or at now;
        line_start_offset = offset;
        line_number = number;
      } in
      if elim required [ none ↦ false | some delivered_at ↦ not (is_dated at delivered_at) ]
      then none
      else if has_text text
      then some output
      else none
]

abbrev pub behind :
    Option ClaudeAssistantOutput → List ClaudeAssistantOutput → List ClaudeAssistantOutput
behind none outputs = outputs
behind (some output) outputs = output ∷ outputs

-- the loop of `collect_claude_assistant_outputs_after_turn`
unfoldable pub collect_from :
    Reader → ℕ → Option ℕ → ℕ → ℕ → List Bytes → List ClaudeAssistantOutput
unfolding output_of without_end
collect_from reader now required offset number [] = []
collect_from reader now required offset number (line ∷ lines) =
    let raw = without_end line in
    behind (output_of reader now required offset number raw)
      (collect_from reader now required (offset + length raw + 1) (number + 1) lines)

-- `collect_claude_assistant_outputs_after_turn`
unfoldable pub collect_claude_assistant_outputs_after_turn :
    Reader → ℕ → Option Bytes → InboundTurn → List ClaudeAssistantOutput
unfolding collect_from split_lines
collect_claude_assistant_outputs_after_turn reader now file turn = elim file [
  | none ↦ []
  | some bytes ↦ elim turn.transcript_offset [
    | none ↦ collect_from reader now (some turn.delivered_at) 0 1 (split_lines bytes)
    | some start ↦
        if ltb (length bytes) start
        then []
        else collect_from reader now none start 1 (split_lines (drop start bytes))
  ]
]
