-- ===== src/QueueRunner/Lifecycle.antt =====
-- The life of a job, and what it means that an operation is a sequence of changes of single jobs,
-- each written to the database as it is made.
use claude_sessions.Prelude.{
  ℕ, ◌+◌, ◌≤◌, String, ◌≡◌, refl, Bool, true, false, Option, some, str_eq, str_eq_iff, arith,
  if◌then◌else◌, ◌∙◌,
}
use claude_sessions.Sql.{
  fetch_one, count, one_if, upsert, IsUnique, fetch_one-upsert, upsert-IsUnique, count-upsert,
  fetch_one-replace, replace,
}
use claude_sessions.QueueRunner.Types.{
  JobState, pending, HoldingReason, ExitCode, Job, Runner, is_terminal, is_running,
}
use claude_sessions.QueueRunner.Gates.{job_id, job_of, has_id, stored}
use claude_sessions.QueueRunner.{launched, finished, told}
use mathlib.Core.Option

-- The changes that leave a job waiting, or end it.
pub data Quiet : Job → Job → Type 0 where
  held :
      (job : Job) (reason : Option HoldingReason)
      → job.state ≡ pending
      → Quiet job (record job { holding_reason = reason })
  announced :
      (job : Job) (now : ℕ)
      → job.state ≡ pending
      → Quiet job (record job { queued_notified_at = some now })
  ended :
      (job : Job) (now : ℕ) (state : JobState) (code : Option ExitCode) (notify : Bool)
      → is_terminal job.state ≡ false
      → is_terminal state ≡ true
      → Quiet job (told now notify (finished now state code job))

pub data Change : Job → Job → Type 0 where
  quiet : {job job' : Job} → Quiet job job' → Change job job'
  launch : (job : Job) (now pid : ℕ) → job.state ≡ pending → Change job (launched now pid job)

-- One job is written, in memory and in the database, and nothing else of either.
pub record Writes (job : Job) (r s : Runner) : Type 0 where
  pub in_memory : s.jobs ≡ upsert job_id job r.jobs
  pub in_db : s.db ≡ replace job_id (stored job) r.db

pub data Steps (C : Job → Job → Type 0) (r : Runner) : Runner → Type 0 where
  same : {s : Runner} → s.jobs ≡ r.jobs → s.db ≡ r.db → Steps C r s
  next :
      {s t : Runner} {job job' : Job}
      → Steps C r s
      → job_of job.id s ≡ some job
      → C job job'
      → Writes job' s t
      → Steps C r t

abbrev pub HasKey : Runner → Type 0
HasKey r = IsUnique job_id r.jobs

-- The table holds exactly what the memory holds: the same row, or none, under every identifier.
abbrev pub IsSaved : Runner → Type 0
IsSaved r =
    (id : String) → fetch_one (has_id id) r.db ≡ Option.map stored (fetch_one (has_id id) r.jobs)

pub Quiet-id : {job job' : Job} → Quiet job job' → job'.id ≡ job.id
unfolding finished told
Quiet-id (held job reason h) = refl
Quiet-id (announced job now h) = refl
Quiet-id (ended job now state code notify h e) = ground arith

pub Change-id : {job job' : Job} → Change job job' → job'.id ≡ job.id
unfolding launched
Change-id (quiet q) = Quiet-id q
Change-id (launch job now pid h) = refl

-- What a write makes of the job of an identifier.
pub job_of-Writes :
    {job : Job} {r s : Runner} (id : String)
    → Writes job r s
    → job_of id s ≡ (if str_eq job.id id then some job else job_of id r)
job_of-Writes {job} {r} id w = rw (w.in_memory) (fetch_one-upsert job_id job id r.jobs)

pub Writes-IsSaved : {job : Job} {r s : Runner} → Writes job r s → IsSaved r → IsSaved s
unfolding stored
Writes-IsSaved {job} {r} {s} w h id =
    let in_table : fetch_one (has_id id) s.db
        ≡ (if str_eq job.id id then some (stored job) else fetch_one (has_id id) r.db) =
      rw (w.in_db) (fetch_one-replace job_id (stored job) id r.db) in
    ground (arith, in_table, job_of-Writes id w, h id)

pub Writes-HasKey : {job : Job} {r s : Runner} → Writes job r s → HasKey r → HasKey s
Writes-HasKey {job} {r} w h = rw (w.in_memory) (upsert-IsUnique job_id job r.jobs h)

module _ {C : Job → Job → Type 0} where
  pub Steps-IsSaved : {r s : Runner} → Steps C r s → IsSaved r → IsSaved s
  Steps-IsSaved (same e f) h id = rw (e, f) (h id)
  Steps-IsSaved (next run found change w) h id = Writes-IsSaved w (Steps-IsSaved run h) id

  pub Steps-HasKey : {r s : Runner} → Steps C r s → HasKey r → HasKey s
  Steps-HasKey (same e f) h = rw e h
  Steps-HasKey (next run found change w) h = Writes-HasKey w (Steps-HasKey run h)

  pub Steps-end : {r s t : Runner} → Steps C r s → t.jobs ≡ s.jobs → t.db ≡ s.db → Steps C r t
  Steps-end (same e f) e' f' = same (e' ∙ e) (f' ∙ f)
  Steps-end (next run found change w) e' f' =
      next run found change (record { in_memory = e' ∙ w.in_memory; in_db = f' ∙ w.in_db })

  pub Steps-trans : {r s t : Runner} → Steps C r s → Steps C s t → Steps C r t
  Steps-trans run (same e f) = Steps-end run e f
  Steps-trans run (next more found change w) = next (Steps-trans run more) found change w

pub Steps-Quiet : {r s : Runner} → Steps Quiet r s → Steps Change r s
Steps-Quiet (same e f) = same e f
Steps-Quiet (next run found change w) = next (Steps-Quiet run) found (quiet change) w

Change-live : {job job' : Job} → Change job job' → is_terminal job.state ≡ false
Change-live (quiet (held job reason h)) = rw h
Change-live (quiet (announced job now h)) = rw h
Change-live (quiet (ended job now state code notify h e)) = h
Change-live (launch job now pid h) = rw h

-- A job that has ended stays as it is: its state, its exit code, its times and its notices.
pub Steps-terminal :
    {r s : Runner} (id : String) (job : Job)
    → Steps Change r s
    → is_terminal job.state ≡ true
    → job_of id r ≡ some job
    → job_of id s ≡ some job
Steps-terminal id job (same e f) over h = rw e h
Steps-terminal {r} id job (next {s = s} {job = old} {job' = new} run found change w) over h =
    let kept : job_of id s ≡ some job = Steps-terminal id job run over h in
    ground (arith, job_of-Writes id w, Change-id change, Change-live change, str_eq_iff new.id id)

pub count-Writes :
    (p : Job → Bool) {job old : Job} {r s : Runner}
    → job_of job.id r ≡ some old
    → Writes job r s
    → count p s.jobs + one_if (p old) ≡ count p r.jobs + one_if (p job)
count-Writes p {job} {old} {r} found w =
    rw (w.in_memory) (rw found at (count-upsert job_id p job r.jobs))

pub Quiet-idle : {job job' : Job} → Quiet job job' → is_running job'.state ≡ false
unfolding finished told
Quiet-idle (held job reason h) = rw h
Quiet-idle (announced job now h) = rw h
Quiet-idle (ended job now state code notify h e) = ground arith

-- A count that no quiet change raises is raised by no sequence of them.
module _ (p : Job → Bool)
    (drops : (job job' : Job) → Quiet job job' → one_if (p job') ≤ one_if (p job)) where
  pub Steps-count : {r s : Runner} → Steps Quiet r s → count p s.jobs ≤ count p r.jobs
  Steps-count (same e f) = rw e (omega arith)
  Steps-count {r} (next {s = s} {t = t} {job = old} {job' = new} run found change w) =
      let same_id : new.id ≡ old.id = Quiet-id change in
      let kept : job_of new.id s ≡ some old = rw same_id found in
      omega (arith, Steps-count run, drops old new change, count-Writes p kept w)
