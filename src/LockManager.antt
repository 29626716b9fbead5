-- ===== src/LockManager.antt =====
-- src/lock_manager.py: the lock file of a repository, by which agents that work in it keep out of one
-- another's way. The repositories' files are a function of the repository's root. What git and the
-- clock say is an argument, and so is what a write leaves that fails.
pub mod Lines
pub mod RoundTrip
pub mod Exclusion
mod Tests
use claude_sessions.Prelude.{
  ℕ, ◌+◌, ◌*◌, String, Bool, true, false, not, ◌&&◌, ◌||◌, Option, none, some, List, [], ◌∷◌, ◌++◌,
  str_eq, ltb, ◌==◌, if◌then◌else◌, ◌>>=◌, is_some, Text, codes, text_eq, strip, read_newlines,
  read_lines, split_once,
}

-- `STALE_THRESHOLD_MINUTES`; times are in microseconds.
abbrev pub stale_threshold_minutes : ℕ
stale_threshold_minutes = 30

pub record LockInfo : Type 0 where
  pub session_id : Text
  pub task : Text
  pub branch : Text
  pub started : ℕ

-- `LockInfo.is_stale`
unfoldable pub is_stale : ℕ → LockInfo → Bool
is_stale now lock = ltb (lock.started + 60000000 * stale_threshold_minutes) now

pub record LockResult : Type 0 where
  pub acquired : Bool
  pub locked_by_other : Bool
  pub owner_session_id : Option Text

-- `datetime.isoformat` and `datetime.fromisoformat`, which raises on other texts.
pub record Iso : Type 0 where
  pub isoformat : ℕ → Text
  pub fromisoformat : Text → Option ℕ

-- The lock file of each repository root.
abbrev pub Files : Type 0
Files = String → Option Text

abbrev pub put_file : String → Option Text → Files → Files
put_file root text files other = if str_eq root other then text else files other

-- How a write ends: an exception may leave the file empty or in part.
pub data Write : Type 0 where
  written : Write
  failed : Option Text → Write

-- `lock_data[key] = value`, with the later of two values first
abbrev pub Entries : Type 0
Entries = List (Text × Text)

unfoldable pub lookup_entry : Text → Entries → Option Text
lookup_entry key [] = none
lookup_entry key ((k, v) ∷ entries) = if text_eq k key then some v else lookup_entry key entries

-- The loop of `_read_lock_file` over the lines.
unfoldable pub read_entries : List Text → Entries → Entries
read_entries [] entries = entries
read_entries (line ∷ lines) entries =
    read_entries lines
      (elim (split_once b'=' (strip line)) [ none ↦ entries | some entry ↦ entry ∷ entries ])

-- The line `key=value` in front of the rest of the file.
abbrev pub entry_line : String → Text → Text → Text
entry_line key value rest = codes key ++ (b'=' ∷ (value ++ (b'\n' ∷ rest)))

module _ (iso : Iso) where
  -- All four keys, and a time that parses.
  unfoldable pub lock_of_entries : Entries → Option LockInfo
  lock_of_entries entries = do
    session_id ← lookup_entry (codes "session") entries
    task ← lookup_entry (codes "task") entries
    branch ← lookup_entry (codes "branch") entries
    time ← lookup_entry (codes "started") entries
    started ← iso.fromisoformat time
    some (record { session_id = session_id; task = task; branch = branch; started = started })

  -- `_read_lock_file`
  unfoldable pub read_lock_file : Option Text → Option LockInfo
  unfolding lock_of_entries read_entries
  read_lock_file none = none
  read_lock_file (some text) =
      lock_of_entries (read_entries (read_lines (read_newlines false text)) [])

  -- The four lines that are written.
  unfoldable pub lock_text : LockInfo → Text
  lock_text lock = entry_line "session" lock.session_id (
      entry_line "task" lock.task
        (entry_line "branch" lock.branch (entry_line "started" (iso.isoformat lock.started) [])))

  unfoldable pub write_lock : Write → String → LockInfo → Files → Files × Bool
  unfolding lock_text
  write_lock written root lock files = (put_file root (some (lock_text lock)) files, true)
  write_lock (failed left) root lock files = (put_file root left files, false)

  -- `try_acquire`: `started` is the second reading of the clock.
  unfoldable pub try_acquire : Write → ℕ → ℕ → Text → String → Text → Files → Files × LockResult
  unfolding read_lock_file write_lock is_stale
  try_acquire outcome now started branch root session files =
      let lock : LockInfo = record {
        session_id = session;
        task = codes "auto-acquired";
        branch = branch;
        started = started;
      } in
      let (files', ok) = write_lock outcome root lock files in
      let acquired : Files × LockResult =
        (files', record { acquired = ok; locked_by_other = false; owner_session_id = none }) in
      elim (read_lock_file (files root)) [
        | none ↦ acquired
        | some existing ↦
            if not (text_eq existing.session_id session) && not (is_stale now existing)
            then (
              files,
              record {
                acquired = false;
                locked_by_other = true;
                owner_session_id = some existing.session_id;
              },
            )
            else acquired
      ]

  -- `check_lock` and `is_locked` of a manager; outside a repository it has no lock file.
  unfoldable pub check_lock : Option String → Files → Option LockInfo
  unfolding read_lock_file
  check_lock none files = none
  check_lock (some root) files = read_lock_file (files root)

  unfoldable pub is_locked : ℕ → Option String → Files → Bool
  unfolding check_lock is_stale
  is_locked now root files = elim (check_lock root files) [
    | none ↦ false
    | some lock ↦ not (is_stale now lock)
  ]

  -- `acquire_lock` of a manager. A directory that cannot be made raises before the file is opened.
  unfoldable pub acquire_lock :
      Write → ℕ → ℕ → Text → Option String → Text → Text → Files → Files × Bool
  unfolding is_locked write_lock
  acquire_lock outcome now started branch none session task files = (files, false)
  acquire_lock outcome now started branch (some root) session task files =
      if is_locked now (some root) files
      then (files, false)
      else write_lock outcome root
          (record { session_id = session; task = task; branch = branch; started = started }) files

  -- `release_lock`: the check of the owner, for a lock file that is there
  unfoldable pub may_release : Option Text → Text → Bool
  unfolding read_lock_file
  may_release none text = true
  may_release (some []) text = true
  may_release (some (c ∷ id)) text = elim (read_lock_file (some text)) [
    | none ↦ true
    | some existing ↦ text_eq existing.session_id (c ∷ id)
  ]

  -- `release_lock` of the lock file of `repo_root`, or of the manager's; the flag is whether the file
  -- can be removed.
  unfoldable pub release_lock : Bool → Option String → Option Text → Files → Files × Bool
  unfolding may_release
  release_lock removable none session files = (files, true)
  release_lock removable (some root) session files = elim (files root) [
    | none ↦ (files, true)
    | some text ↦
        if not (may_release session text)
        then (files, false)
        else if removable
        then (put_file root none files, true)
        else (files, false)
  ]
