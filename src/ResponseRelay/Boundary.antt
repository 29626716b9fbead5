-- ===== src/ResponseRelay/Boundary.antt =====
-- The outputs that are collected for an input are those of the lines behind it.
use claude_sessions.Prelude.{
  drop, length-append, Bool-cases, if◌then◌else◌, ℕ, ◌+◌, String, Bool, true, false, Option, none,
  some, List, [], ◌∷◌, ◌++◌, length, ◌≡◌, refl, ap, sym, ◌∙◌, inl, inr, ◌⊎◌, str_eq, ltb, All,
  arith,
}
use mathlib.Core.Option
use claude_sessions.ResponseRelay.{InboundTurn}
use claude_sessions.ResponseRelay.Lines.{
  Bytes, split_lines, join_lines, join-split_lines, split_lines-behind,
}
use claude_sessions.ResponseRelay.Transcript.{
  Reader, is_input, boundary_from, find_claude_inbound_turn_boundary_offset, collect_from,
  collect_claude_assistant_outputs_after_turn,
}

module _ (reader : Reader) (hash : String) where
  -- Among these lines, `line` is the last input of this hash; it ends `start` bytes behind the first one's begin.
  pub record IsLast (lines before : List Bytes) (line : Bytes) (after : List Bytes) (start : ℕ)
      : Type 0 where
    pub parts : lines ≡ before ++ line ∷ after
    pub matches : is_input reader hash line ≡ true
    pub others : All (λ other. is_input reader hash other ≡ false) after
    pub place : start ≡ length (join_lines before) + length line

  HasLast : List Bytes → ℕ → ℕ → Type 0
  HasLast lines offset start =
      (before : List Bytes) × ((line : Bytes) × ((after : List Bytes) × ((size : ℕ) × (IsLast lines
                before line after size
              × (start ≡ offset + size)))))

  behind_line :
      (line : Bytes) (lines : List Bytes) (offset start : ℕ)
      → HasLast lines (offset + length line) start
      → HasLast (line ∷ lines) offset start
  unfolding HasLast join_lines
  behind_line line lines offset start (before, (last, (after, (size, (is, e))))) = (
    line ∷ before,
    (
      last,
      (
        after,
        (
          length line + size,
          (
            record {
              parts = ap (◌∷◌ line) is.parts;
              matches = is.matches;
              others = is.others;
              place = omega (arith, is.place, length-append line (join_lines before));
            },
            omega (arith, e),
          ),
        ),
      ),
    ),
  )

  boundary_from-last :
      (lines : List Bytes) (offset : ℕ) (matched : Option ℕ) (start : ℕ)
      → boundary_from reader hash offset matched lines ≡ some start
      → ((matched ≡ some start) × All (λ other. is_input reader hash other ≡ false) lines)
        ⊎ HasLast lines offset start
  unfolding boundary_from HasLast join_lines
  boundary_from-last [] offset matched start e = inl (e, tt)
  boundary_from-last (line ∷ lines) offset matched start e =
      let next = offset + length line in
      let go : Bool → Option ℕ =
        λ b. boundary_from reader hash next (if b then some next else matched) lines in
      elim (Bool-cases (is_input reader hash line)) [
        | inl on ↦ elim (boundary_from-last lines next (some next) start (sym (ap go on) ∙ e)) [
          | inl (here, others) ↦ inr (
            [],
            (
              line,
              (
                lines,
                (
                  length line,
                  (
                    record { parts = refl; matches = on; others = others; place = omega arith },
                    sym (ap (λ o. Option.get_or o 0) here),
                  ),
                ),
              ),
            ),
          )
          | inr later ↦ inr (behind_line line lines offset start later)
        ]
        | inr off ↦ elim (boundary_from-last lines next matched start (sym (ap go off) ∙ e)) [
          | inl (before, others) ↦ inl (before, (off, others))
          | inr later ↦ inr (behind_line line lines offset start later)
        ]
      ]

length-join_lines :
    (a b : List Bytes)
    → length (join_lines (a ++ b)) ≡ length (join_lines a) + length (join_lines b)
unfolding join_lines
length-join_lines [] b = omega arith
length-join_lines (line ∷ a) b = omega (
  arith,
  length-append line (join_lines (a ++ b)),
  length-append line (join_lines a),
  length-join_lines a b,
)

append_one :
    (before : List Bytes) (line : Bytes) (after : List Bytes)
    → (before ++ line ∷ []) ++ after ≡ before ++ line ∷ after
append_one [] line after = refl
append_one (first ∷ before) line after = ap (◌∷◌ first) (append_one before line after)

found_boundary :
    (reader : Reader) (hash : String) (turn : InboundTurn) (bytes : Bytes) (start : ℕ)
    → turn.text_hash ≡ some hash
    → find_claude_inbound_turn_boundary_offset reader (some bytes) turn ≡ some start
    → boundary_from reader hash 0 none (split_lines bytes) ≡ some start
unfolding find_claude_inbound_turn_boundary_offset
found_boundary reader hash turn bytes start its found =
    let tested : (if str_eq hash ""
          then none
          else boundary_from reader hash 0 none (split_lines bytes))
        ≡ some start =
      rw its at found in
    elim (Bool-cases (str_eq hash "")) [
      | inl empty ↦ absurd (ground (arith, tested, empty))
      | inr named ↦ rw named at tested
    ]

module _ {reader : Reader} {hash : String} (bytes : Bytes) {before : List Bytes} {line : Bytes}
    {after : List Bytes} {start : ℕ}
    (is : IsLast reader hash (split_lines bytes) before line after start) where
  place-joined : length (join_lines (before ++ line ∷ [])) ≡ start
  unfolding join_lines
  place-joined =
      omega (arith, length-join_lines before (line ∷ []), length-append line [], is.place)

  lines_behind : split_lines (drop start bytes) ≡ after
  lines_behind =
      ap (λ n. split_lines (drop n bytes)) (sym place-joined)
      ∙ split_lines-behind (before ++ line ∷ []) after bytes
          (is.parts ∙ sym (append_one before line after))

  within_bytes : ltb (length bytes) start ≡ false
  within_bytes =
      let whole : length (join_lines ((before ++ line ∷ []) ++ after)) ≡ length bytes =
        ap (λ lines. length (join_lines lines)) (append_one before line after ∙ sym is.parts)
        ∙ ap length (join-split_lines bytes) in
      ground (arith, whole, length-join_lines (before ++ line ∷ []) after, place-joined)

-- When the boundary of an input with a hash is found in a transcript, the lines of the transcript
-- split at the last user line of that hash, the boundary is where that line ends, and what is
-- collected for the input with the boundary as its offset is collected from exactly the lines behind
-- it.
pub collects_behind_input :
    (reader : Reader) (now : ℕ) (hash : String) (turn : InboundTurn) (bytes : Bytes) (start : ℕ)
    → turn.text_hash ≡ some hash
    → find_claude_inbound_turn_boundary_offset reader (some bytes) turn ≡ some start
    → (before : List Bytes) × ((line : Bytes) × ((after : List Bytes) × (IsLast reader hash
              (split_lines bytes)
              before
              line
              after
              start
            × (collect_claude_assistant_outputs_after_turn reader now
                  (some bytes)
                  (record turn { transcript_offset = some start })
                ≡ collect_from reader now none start 1 after))))
unfolding collect_claude_assistant_outputs_after_turn HasLast
collects_behind_input reader now hash turn bytes start its found =
    elim (boundary_from-last reader hash (split_lines bytes) 0 none start
      (found_boundary reader hash turn bytes start its found)) [
        | inl (nothing, others) ↦ absurd (ground (arith, nothing))
        | inr (before, (line, (after, (size, (is, e))))) ↦
            let last : IsLast reader hash (split_lines bytes) before line after start = record {
              parts = is.parts;
              matches = is.matches;
              others = is.others;
              place = omega (arith, e, is.place);
            } in
            (
              before,
              (
                line,
                (
                  after,
                  (
                    last,
                    rw (within_bytes bytes last)
                        (ap (collect_from reader now none start 1) (lines_behind bytes last)),
                  ),
                ),
              ),
            )
      ]
