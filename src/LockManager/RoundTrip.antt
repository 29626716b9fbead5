-- ===== src/LockManager/RoundTrip.antt =====
-- A lock that was written is read back.
use claude_sessions.Prelude.{
  ℕ, String, false, some, [], ◌∷◌, ◌≡◌, refl, ◌∙◌, arith, Text, codes, text_eq, is_space,
  read_lines, read_newlines,
}
use claude_sessions.LockManager.{
  LockInfo, Iso, Entries, lookup_entry, read_entries, lock_of_entries, read_lock_file, entry_line,
  lock_text,
}
use claude_sessions.LockManager.Lines.{IsLine, IsKey, read_lines-entry, split_once-entry}

-- What the standard library documents: a time is written on one line and read back.
pub record IsIso (iso : Iso) : Type 0 where
  pub inverse : (t : ℕ) → iso.fromisoformat (iso.isoformat t) ≡ some t
  pub line : (t : ℕ) → IsLine (iso.isoformat t)

-- The texts of a lock stand on one line each, and end in no blank.
pub record IsPlain (lock : LockInfo) : Type 0 where
  pub session : IsLine lock.session_id
  pub task : IsLine lock.task
  pub branch : IsLine lock.branch

read_entry :
    (key : String) (v rest : Text) (entries : Entries)
    → IsKey (codes key)
    → IsLine v
    → read_entries (read_lines (read_newlines false (entry_line key v rest))) entries
      ≡ read_entries (read_lines (read_newlines false rest)) ((codes key, v) ∷ entries)
unfolding read_entries
read_entry key v rest entries named h =
    rw (read_lines-entry (codes key) v rest named h)
      (rw (split_once-entry (codes key) v named h, read_entries) refl)

module _ (iso : Iso) (laws : IsIso iso) where
  -- The file that a lock is written to gives the lock back, with any session, task and branch that
  -- stand on one line and end in no blank, equality signs included.
  pub read_lock_file-lock_text :
      (lock : LockInfo) → IsPlain lock → read_lock_file iso (some (lock_text iso lock)) ≡ some lock
  unfolding read_lock_file lock_text lock_of_entries is_space read_entries read_lines read_newlines
      lookup_entry text_eq
  read_lock_file-lock_text lock h =
      let time = iso.isoformat lock.started in
      let branch_on = entry_line "started" time [] in
      let task_on = entry_line "branch" lock.branch branch_on in
      let read_all =
        read_entry "session" lock.session_id (entry_line "task" lock.task task_on) [] (ground arith)
          h.session
        ∙ read_entry "task" lock.task task_on _ (ground arith) h.task
        ∙ read_entry "branch" lock.branch branch_on _ (ground arith) h.branch
        ∙ read_entry "started" time [] _ (ground arith) (laws.line lock.started) in
      rw read_all (rw (laws.inverse lock.started) refl)
