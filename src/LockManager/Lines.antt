-- ===== src/LockManager/Lines.antt =====
-- What reading makes of one line that was written.
use claude_sessions.Prelude.{
  ℕ, Bool, true, false, not, ◌&&◌, some, [], ◌∷◌, ◌++◌, ◌≡◌, refl, arith, ◌==◌, All, Text, is_space,
  lstrip, rstrip, strip, read_newlines, read_lines, split_once, in_line,
}
use mathlib.Core.List.{append_assoc}

-- A text that one line can hold, and that no reading strips at its end.
pub record IsLine (v : Text) : Type 0 where
  pub unbroken : All (λ c. in_line c ≡ true) v
  pub trimmed : rstrip v ≡ v

-- The name of an entry: no character that reading takes away or splits at.
abbrev pub in_key : ℕ → Bool
in_key c = in_line c && not (is_space c) && not (c == b'=')

abbrev pub IsKey : Text → Type 0
IsKey k = All (λ c. in_key c ≡ true) k

read_newlines-unbroken :
    (v rest : Text)
    → All (λ c. in_line c ≡ true) v
    → read_newlines false (v ++ rest) ≡ v ++ read_newlines false rest
unfolding read_newlines
read_newlines-unbroken [] rest h = refl
read_newlines-unbroken (c ∷ v) rest h = ground (arith, read_newlines-unbroken v rest h.1)

read_lines-line :
    (v rest : Text)
    → All (λ c. in_line c ≡ true) v
    → read_lines (v ++ (b'\n' ∷ rest)) ≡ (v ++ b'\n' ∷ []) ∷ read_lines rest
unfolding read_lines
read_lines-line [] rest h = refl
read_lines-line (c ∷ v) rest h = ground (arith, read_lines-line v rest h.1)

rstrip-newline : (v : Text) → rstrip (v ++ b'\n' ∷ []) ≡ rstrip v
unfolding rstrip is_space
rstrip-newline [] = refl
rstrip-newline (c ∷ v) = rw (rstrip-newline v) refl

rstrip-key : (k v : Text) → IsKey k → rstrip (k ++ (b'=' ∷ v)) ≡ k ++ (b'=' ∷ rstrip v)
unfolding rstrip is_space
rstrip-key [] v h = ground arith
rstrip-key (c ∷ []) v h = rw (rstrip-key [] v tt) refl
rstrip-key (c ∷ d ∷ k) v h = rw (rstrip-key (d ∷ k) v h.1) refl

split_once-key : (k v : Text) → IsKey k → split_once b'=' (k ++ (b'=' ∷ v)) ≡ some (k, v)
unfolding split_once
split_once-key [] v h = refl
split_once-key (c ∷ k) v h = ground (arith, split_once-key k v h.1)

lstrip-key : (k v : Text) → IsKey k → lstrip (k ++ (b'=' ∷ v)) ≡ k ++ (b'=' ∷ v)
unfolding lstrip is_space
lstrip-key [] v h = refl
lstrip-key (c ∷ k) v h = ground arith

-- What the loop reads from a line that was written.
pub split_once-entry :
    (k v : Text)
    → IsKey k
    → IsLine v
    → split_once b'=' (strip (k ++ (b'=' ∷ (v ++ b'\n' ∷ [])))) ≡ some (k, v)
unfolding strip
split_once-entry k v key h =
    rw (lstrip-key k (v ++ b'\n' ∷ []) key) (
      rw (rstrip-key k (v ++ b'\n' ∷ []) key, rstrip-newline v, h.trimmed) (split_once-key k v key))

unbroken_line : (k v : Text) → IsKey k → IsLine v → All (λ c. in_line c ≡ true) (k ++ (b'=' ∷ v))
unbroken_line [] v key h = (refl, h.unbroken)
unbroken_line (c ∷ k) v key h = (ground arith, unbroken_line k v key.1 h)

-- The line that an entry's name and value make, read from the front of a file.
pub read_lines-entry :
    (k v rest : Text)
    → IsKey k
    → IsLine v
    → read_lines (read_newlines false (k ++ (b'=' ∷ (v ++ (b'\n' ∷ rest)))))
      ≡ (k ++ (b'=' ∷ (v ++ b'\n' ∷ []))) ∷ read_lines (read_newlines false rest)
unfolding read_newlines
read_lines-entry k v rest key h =
    let whole : Text = k ++ (b'=' ∷ v) in
    let joined : whole ++ (b'\n' ∷ rest) ≡ k ++ (b'=' ∷ (v ++ (b'\n' ∷ rest))) =
      append_assoc k (b'=' ∷ v) (b'\n' ∷ rest) in
    let ended : whole ++ b'\n' ∷ [] ≡ k ++ (b'=' ∷ (v ++ b'\n' ∷ [])) =
      append_assoc k (b'=' ∷ v) (b'\n' ∷ []) in
    rw (← joined, ← ended)
      (rw (read_newlines-unbroken whole (b'\n' ∷ rest) (unbroken_line k v key h))
        (read_lines-line whole (read_newlines false rest) (unbroken_line k v key h)))
