-- ===== src/LockManager/Exclusion.antt =====
-- Two sessions at one repository: what the lock of one lets the other do.
use claude_sessions.Prelude.{
  ℕ, ◌+◌, ◌*◌, ◌≤◌, String, Bool, true, false, none, some, [], ◌∷◌, ◌≡◌, ◌≢◌, refl, arith,
  str_eq_refl, Text, codes, text_eq, text_eq_iff, text_eq_refl, is_space, rstrip, ◌∙◌, Option-cases,
  inl, inr,
}
use claude_sessions.LockManager.{
  LockInfo, Iso, Files, put_file, Write, written, failed, is_stale, stale_threshold_minutes,
  read_lock_file, lock_text, write_lock, try_acquire, is_locked, check_lock, acquire_lock,
  may_release, release_lock,
}
use claude_sessions.LockManager.Lines.{IsLine}
use claude_sessions.LockManager.RoundTrip.{IsIso, read_lock_file-lock_text}

-- The lock that `try_acquire` writes.
abbrev pub auto_lock : ℕ → Text → Text → LockInfo
auto_lock started branch session = record {
  session_id = session;
  task = codes "auto-acquired";
  branch = branch;
  started = started;
}

auto_task : IsLine (codes "auto-acquired")
unfolding rstrip is_space
auto_task = record { unbroken = ground arith; trimmed = refl }

-- What a session that does not hold the lock meets while the lock is fresh.
pub record IsExcluded (iso : Iso) (root : String) (holder other : Text) (files : Files) (now : ℕ)
    : Type 0 where
  pub try_refused :
      (outcome : Write) (started : ℕ) (branch : Text)
      → try_acquire iso outcome now started branch root other files ≡ (
        files,
        record { acquired = false; locked_by_other = true; owner_session_id = some holder },
      )
  pub acquire_refused :
      (outcome : Write) (started : ℕ) (branch task : Text)
      → acquire_lock iso outcome now started branch (some root) other task files ≡ (files, false)
  pub release_refused :
      (removable : Bool)
      → release_lock iso removable (some root) (some other) files ≡ (files, false)

module _ (iso : Iso) (laws : IsIso iso) where
  acquired_file :
      (outcome : Write) (now started : ℕ) (branch : Text) (root : String) (session : Text)
      (files : Files)
      → (try_acquire iso outcome now started branch root session files).1.acquired ≡ true
      → (try_acquire iso outcome now started branch root session files).0 root
        ≡ some (lock_text iso (auto_lock started branch session))
  unfolding try_acquire write_lock
  acquired_file written now started branch root session files h = ground (arith, str_eq_refl root)
  acquired_file (failed left) now started branch root session files h = absurd (ground arith)

  acquired_lock :
      (outcome : Write) (now started : ℕ) (branch : Text) (root : String) (session : Text)
      (files : Files)
      → IsLine session
      → IsLine branch
      → (try_acquire iso outcome now started branch root session files).1.acquired ≡ true
      → read_lock_file iso ((try_acquire iso outcome now started branch root session files).0 root)
        ≡ some (auto_lock started branch session)
  acquired_lock outcome now started branch root session files name on h =
      rw (acquired_file outcome now started branch root session files h) (
        read_lock_file-lock_text iso laws (auto_lock started branch session)
          (record { session = name; task = auto_task; branch = on }))

  -- A lock that is held is released by its holder, and by no other session.
  may_release_held :
      (lock : LockInfo) (id text : Text)
      → read_lock_file iso (some text) ≡ some lock
      → id ≢ []
      → may_release iso (some id) text ≡ text_eq lock.session_id id
  unfolding may_release
  may_release_held lock [] text held named = absurd (named refl)
  may_release_held lock (c ∷ id) text held named = rw (held, may_release) refl

  release_other :
      (root : String) (lock : LockInfo) (other : Text) (files : Files)
      → read_lock_file iso (files root) ≡ some lock
      → other ≢ []
      → text_eq lock.session_id other ≡ false
      → (removable : Bool)
      → release_lock iso removable (some root) (some other) files ≡ (files, false)
  unfolding release_lock read_lock_file
  release_other root lock other files held named apart removable =
      elim (Option-cases (files root)) [
        | inl e ↦
            let absent : read_lock_file iso none ≡ some lock = rw e at held in absurd (ground arith)
        | inr (text, e) ↦
            let refused : may_release iso (some other) text ≡ false =
              may_release_held lock other text (rw e at held) named ∙ apart in
            rw (e, refused, release_lock) refl
      ]

  excluded :
      (root : String) (lock : LockInfo) (other : Text) (files : Files) (now : ℕ)
      → read_lock_file iso (files root) ≡ some lock
      → lock.session_id ≢ other
      → other ≢ []
      → now ≤ lock.started + 60000000 * stale_threshold_minutes
      → IsExcluded iso root lock.session_id other files now
  unfolding try_acquire acquire_lock is_locked check_lock is_stale
  excluded root lock other files now held apart named fresh =
      let live : is_stale now lock ≡ false = ground arith in
      let differs : text_eq lock.session_id other ≡ false =
        ground (arith, text_eq_iff lock.session_id other) in
      record {
        try_refused = λ outcome started branch. rw (held, live, differs, try_acquire) refl;
        acquire_refused = λ outcome started branch task.
            rw (held, live, acquire_lock, is_locked, check_lock) refl;
        release_refused = release_other root lock other files held named differs;
      }

  -- While a lock that was acquired is fresh, for thirty minutes, no other session gets it: trying to
  -- acquire it names the holder, and neither that nor acquiring it by a manager nor releasing it
  -- changes a file, whatever the file system does.
  pub try_acquire_excludes :
      (outcome : Write) (now started : ℕ) (branch : Text) (root : String) (session : Text)
      (files : Files)
      → IsLine session
      → IsLine branch
      → (try_acquire iso outcome now started branch root session files).1.acquired ≡ true
      → (other : Text) (later : ℕ) → session ≢ other
      → other ≢ []
      → later ≤ started + 60000000 * stale_threshold_minutes
      → IsExcluded iso root session other
          (try_acquire iso outcome now started branch root session files).0
          later
  try_acquire_excludes outcome now started branch root session files name on h other later apart
        named fresh =
      excluded root (auto_lock started branch session) other _ later
        (acquired_lock outcome now started branch root session files name on h) apart named fresh

  renewed :
      (now started : ℕ) (branch : Text) (root : String) (lock : LockInfo) (files : Files)
      → read_lock_file iso (files root) ≡ some lock
      → (try_acquire iso written now started branch root lock.session_id files).1.acquired ≡ true
  unfolding try_acquire write_lock
  renewed now started branch root lock files held =
      rw (held, try_acquire) (rw (text_eq_refl lock.session_id) refl)

  vacant :
      (now started : ℕ) (branch : Text) (root : String) (session : Text) (files : Files)
      → files root ≡ none
      → (try_acquire iso written now started branch root session files).1.acquired ≡ true
  unfolding try_acquire write_lock read_lock_file
  vacant now started branch root session files e = rw (e, try_acquire) refl

  released :
      (root : String) (session text : Text) (files : Files)
      → files root ≡ some text
      → may_release iso (some session) text ≡ true
      → release_lock iso true (some root) (some session) files ≡ (put_file root none files, true)
  unfolding release_lock
  released root session text files e mine = rw (e, mine, release_lock) refl

  -- The holder of a lock that was acquired may acquire it again at any time, and may release it: the
  -- file is gone, and any session can acquire the lock.
  pub try_acquire_held :
      (outcome : Write) (now started : ℕ) (branch : Text) (root : String) (session : Text)
      (files : Files)
      → IsLine session
      → IsLine branch
      → session ≢ []
      → (try_acquire iso outcome now started branch root session files).1.acquired ≡ true
      → (later started' : ℕ) (branch' other : Text)
      → let held = (try_acquire iso outcome now started branch root session files).0 in
        let free = release_lock iso true (some root) (some session) held in
        ((try_acquire iso written later started' branch' root session held).1.acquired ≡ true)
        × (free.1 ≡ true)
        × (free.0 root ≡ none)
        × ((try_acquire iso written later started' branch' root other free.0).1.acquired ≡ true)
  try_acquire_held outcome now started branch root session files name on named h later started'
        branch' other =
      let held : Files = (try_acquire iso outcome now started branch root session files).0 in
      let text : Text = lock_text iso (auto_lock started branch session) in
      let file = acquired_file outcome now started branch root session files h in
      let lock : read_lock_file iso (some text) ≡ some (auto_lock started branch session) =
        read_lock_file-lock_text iso laws (auto_lock started branch session)
          (record { session = name; task = auto_task; branch = on }) in
      let mine : may_release iso (some session) text ≡ true =
        may_release_held (auto_lock started branch session) session text lock named
        ∙ text_eq_refl session in
      let gone = released root session text held file mine in
      (
        renewed later started' branch' root (auto_lock started branch session) held (rw file lock),
        rw gone refl,
        rw gone (rw (str_eq_refl root) refl),
        vacant later started' branch' root other _ (rw gone (rw (str_eq_refl root) refl)),
      )
