-- ===== src/ResponseRelay/Lines.antt =====
-- `bytes.splitlines`: a line ends behind \n, \r or \r\n.
use claude_sessions.Prelude.{
  zero, length-append, suc, ℕ, ◌+◌, ◌≡◌, refl, ap, sym, ◌∙◌, Bool, false, not, ◌&&◌, ◌||◌, ◌==◌,
  List, [], ◌∷◌, ◌++◌, length, drop, arith, if◌then◌else◌, Bool-cases, inl, inr,
}

abbrev pub Bytes : Type 0
Bytes = List ℕ

abbrev starts_newline : Bytes → Bool
starts_newline [] = false
starts_newline (b ∷ _) = b == 10

-- whether a line ends behind the byte b, where `rest` follows
abbrev ends_line : ℕ → Bytes → Bool
ends_line b rest = (b == 10) || ((b == 13) && not (starts_newline rest))

abbrev into_first : ℕ → List Bytes → List Bytes
into_first b [] = (b ∷ []) ∷ []
into_first b (line ∷ lines) = (b ∷ line) ∷ lines

-- `splitlines(keepends=True)`
unfoldable pub split_lines : Bytes → List Bytes
split_lines [] = []
split_lines (b ∷ bytes) =
    let rest = split_lines bytes in if ends_line b bytes then (b ∷ []) ∷ rest else into_first b rest

-- a line without its end, as `splitlines()` gives it
unfoldable pub without_end : Bytes → Bytes
without_end [] = []
without_end (b ∷ bytes) =
    let rest = without_end bytes in if (b == 10) || (b == 13) then [] else b ∷ rest

unfoldable pub join_lines : List Bytes → Bytes
join_lines [] = []
join_lines (line ∷ lines) = line ++ join_lines lines

into_first-join :
    (b : ℕ) (lines : List Bytes) → join_lines (into_first b lines) ≡ b ∷ join_lines lines
unfolding join_lines
into_first-join b [] = refl
into_first-join b (line ∷ lines) = refl

pub join-split_lines : (bytes : Bytes) → join_lines (split_lines bytes) ≡ bytes
unfolding split_lines join_lines
join-split_lines [] = refl
join-split_lines (b ∷ bytes) = elim (Bool-cases (ends_line b bytes)) [
  | inl ends ↦ rw ends (ap (◌∷◌ b) (join-split_lines bytes))
  | inr goes ↦ rw goes (into_first-join b (split_lines bytes) ∙ ap (◌∷◌ b) (join-split_lines bytes))
]

abbrev first_of : List Bytes → Bytes
first_of [] = []
first_of (line ∷ _) = line

abbrev rest_of : List Bytes → List Bytes
rest_of [] = []
rest_of (_ ∷ lines) = lines

into_first-rest :
    (b : ℕ) (bytes : Bytes) (lines : List Bytes)
    → split_lines bytes ≡ lines
    → split_lines (drop (length (first_of lines)) bytes) ≡ rest_of lines
    → split_lines (drop (length (first_of (into_first b lines))) (b ∷ bytes))
      ≡ rest_of (into_first b lines)
into_first-rest b bytes [] e h = e
into_first-rest b bytes (line ∷ lines) e h = h

-- Behind its first line, a text has the lines that it has.
split_lines-rest :
    (bytes : Bytes)
    → split_lines (drop (length (first_of (split_lines bytes))) bytes) ≡ rest_of (split_lines bytes)
unfolding split_lines
split_lines-rest [] = refl
split_lines-rest (b ∷ bytes) = elim (Bool-cases (ends_line b bytes)) [
  | inl ends ↦ rw ends refl
  | inr goes ↦ rw goes (into_first-rest b bytes (split_lines bytes) refl (split_lines-rest bytes))
]

drop-nil : (n : ℕ) → drop {A = ℕ} n [] ≡ []
drop-nil zero = refl
drop-nil (suc n) = refl

drop-drop : (m n : ℕ) (bytes : Bytes) → drop m (drop n bytes) ≡ drop (n + m) bytes
drop-drop m zero bytes = let same : m ≡ 0 + m = omega arith in ap (λ k. drop k bytes) same
drop-drop m (suc n) [] = drop-nil m ∙ sym (drop-nil (suc n + m))
drop-drop m (suc n) (b ∷ bytes) =
    let same : suc (n + m) ≡ suc n + m = omega arith in
    drop-drop m n bytes ∙ ap (λ k. drop k (b ∷ bytes)) same

-- Behind its first lines, a text has the other lines that it has.
pub split_lines-behind :
    (before after : List Bytes) (bytes : Bytes)
    → split_lines bytes ≡ before ++ after
    → split_lines (drop (length (join_lines before)) bytes) ≡ after
unfolding join_lines
split_lines-behind [] after bytes e = e
split_lines-behind (line ∷ before) after bytes e =
    let behind : split_lines (drop (length line) bytes) ≡ before ++ after =
      ap (λ n. split_lines (drop n bytes)) (sym (ap (λ lines. length (first_of lines)) e))
      ∙ (split_lines-rest bytes ∙ ap rest_of e) in
    ap split_lines (
      ap (λ n. drop n bytes) (length-append line (join_lines before))
      ∙ sym (drop-drop (length (join_lines before)) (length line) bytes))
    ∙ split_lines-behind before after (drop (length line) bytes) behind
