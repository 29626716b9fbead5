-- ===== src/LockManager/Tests.antt =====
-- The lock of a repository at concrete sessions.
use claude_sessions.Prelude.{
  ℕ, zero, suc, Bool, true, Option, none, some, [], ◌∷◌, ◌≡◌, refl, arith, ◌==◌, All, if◌then◌else◌,
  ◌>>=◌, Text, codes, rstrip, is_space, in_line,
}
use claude_sessions.LockManager.{
  LockInfo, Iso, Files, written, read_lock_file, lock_text, try_acquire, release_lock, write_lock,
}
use claude_sessions.LockManager.Lines.{IsLine}
use claude_sessions.LockManager.RoundTrip.{IsIso, read_lock_file-lock_text}
use claude_sessions.LockManager.Exclusion.{IsExcluded, try_acquire_excludes, try_acquire_held}

-- times written in strokes
ones : ℕ → Text
ones zero = []
ones (suc n) = b'1' ∷ ones n

read_ones : Text → Option ℕ
read_ones [] = some 0
read_ones (c ∷ s) = if c == b'1' then (read_ones s >>= λ n. some (suc n)) else none

abbrev strokes : Iso
strokes = record { isoformat = ones; fromisoformat = read_ones }

read_ones-ones : (n : ℕ) → read_ones (ones n) ≡ some n
unfolding read_ones ones
read_ones-ones zero = refl
read_ones-ones (suc n) = ground (arith, read_ones-ones n)

rstrip-ones : (n : ℕ) → rstrip (ones n) ≡ ones n
unfolding rstrip ones is_space
rstrip-ones zero = refl
rstrip-ones (suc n) = ground (arith, rstrip-ones n)

unbroken_ones : (n : ℕ) → All (λ c. in_line c ≡ true) (ones n)
unfolding ones
unbroken_ones zero = tt
unbroken_ones (suc n) = (refl, unbroken_ones n)

strokes-IsIso : IsIso strokes
strokes-IsIso = record {
  inverse = read_ones-ones;
  line = λ n. record { unbroken = unbroken_ones n; trimmed = rstrip-ones n };
}

abbrev session_a : Text
session_a = codes "a=1"

abbrev session_b : Text
session_b = codes "b"

a-IsLine : IsLine session_a
unfolding rstrip is_space
a-IsLine = record { unbroken = ground arith; trimmed = refl }

main-IsLine : IsLine (codes "main")
unfolding rstrip is_space
main-IsLine = record { unbroken = ground arith; trimmed = refl }

abbrev lock_a : LockInfo
lock_a = record { session_id = session_a; task = codes "main"; branch = codes "main"; started = 3 }

read_lock_file-lock_text_example :
    read_lock_file strokes (some (lock_text strokes lock_a)) ≡ some lock_a
read_lock_file-lock_text_example =
    read_lock_file-lock_text strokes strokes-IsIso lock_a
      (record { session = a-IsLine; task = main-IsLine; branch = main-IsLine })

-- no repository is locked
abbrev no_files : Files
no_files root = none

abbrev files_a : Files
files_a = (try_acquire strokes written 2 3 (codes "main") "/repo" session_a no_files).0

acquired_a :
    (try_acquire strokes written 2 3 (codes "main") "/repo" session_a no_files).1.acquired ≡ true
unfolding try_acquire write_lock read_lock_file
acquired_a = refl

try_acquire_excludes_example : IsExcluded strokes "/repo" session_a session_b files_a 1800000000
try_acquire_excludes_example =
    try_acquire_excludes strokes strokes-IsIso written 2 3 (codes "main") "/repo" session_a no_files
      a-IsLine main-IsLine acquired_a session_b 1800000000 (ground arith) (ground arith)
      (omega arith)

abbrev free_again : Files × Bool
free_again = release_lock strokes true (some "/repo") (some session_a) files_a

try_acquire_held_example :
    ((try_acquire strokes written 9 9 (codes "dev") "/repo" session_a files_a).1.acquired ≡ true)
    × (free_again.1 ≡ true)
    × (free_again.0 "/repo" ≡ none)
    × ((try_acquire strokes written 9 9 (codes "dev") "/repo" session_b free_again.0).1.acquired
        ≡ true)
try_acquire_held_example =
    try_acquire_held strokes strokes-IsIso written 2 3 (codes "main") "/repo" session_a no_files
      a-IsLine main-IsLine (ground arith) acquired_a 9 9 (codes "dev") session_b
