-- ===== src/QueueRunner/Restart.antt =====
-- The start of the runner over the jobs that an earlier server left.
use claude_sessions.Prelude.{
  ℕ, ◌+◌, String, ◌≡◌, refl, Bool, true, false, not, ◌||◌, Option, none, some, List, [], ◌∷◌, All,
  arith, str_eq, str_eq_iff, is_some, Bool-cases, inl, inr,
}
use claude_sessions.Sql.{fetch_one, IsUnique}
use claude_sessions.QueueRunner.Types.{
  JobState, timed_out, failed, ExitCode, Job, Config, Runner, Reading, is_pending, is_running,
}
use claude_sessions.QueueRunner.Gates.{job_id, job_of}
use claude_sessions.QueueRunner.{finish_job, terminate_job, told, finished}
use claude_sessions.QueueRunner.Lifecycle.{
  Quiet, held, Steps, same, HasKey, Steps-trans, Steps-end, Writes, job_of-Writes,
}
use claude_sessions.QueueRunner.Traces.{
  IsHeldIn, All-jobs, save-Writes, one_change, finish_job-Writes, told-id,
}
use claude_sessions.QueueRunner.Calls.{
  Sighting, verdict, recover_running_job, resume, start_each, start,
}
use claude_sessions.QueueRunner.CallTraces.{recover_running_job-Steps, schedule_same}

-- Only the job of this identifier may be another.
abbrev KeepsOthers : String → Runner → Runner → Type 0
KeepsOthers id r s = (other : String) → str_eq id other ≡ false → job_of other s ≡ job_of other r

Writes-KeepsOthers : {job : Job} {r s : Runner} → Writes job r s → KeepsOthers job.id r s
Writes-KeepsOthers w other apart = ground (arith, job_of-Writes other w)

pub finished-id :
    (now : ℕ) (state : JobState) (code : Option ExitCode) (notify : Bool) (job : Job)
    → job.id ≡ (told now notify (finished now state code job)).id
unfolding finished
finished-id now state code notify job = told-id now notify (finished now state code job)

module _ (c : Config) (m : Reading) where
  finish_job-KeepsOthers :
      (state : JobState) (code : Option ExitCode) (notify : Bool) (job : Job) (r : Runner)
      → KeepsOthers job.id r (finish_job c m.now state code notify job r)
  finish_job-KeepsOthers state code notify job r other apart =
      let w = finish_job-Writes c m.now state code notify job r in
      let same_id : job.id ≡ (told m.now notify (finished m.now state code job)).id =
        finished-id m.now state code notify job in
      ground (arith, job_of-Writes other w)

  recover_running_job-KeepsOthers :
      (seen : Sighting) (job : Job) (r : Runner)
      → KeepsOthers job.id r (recover_running_job c m seen job r)
  unfolding recover_running_job terminate_job
  recover_running_job-KeepsOthers seen job r other apart =
      let first = not (is_some job.completion_notified_at) in
      ground (
        arith,
        finish_job-KeepsOthers (verdict m.exit_code) m.exit_code first job r other apart,
        finish_job-KeepsOthers timed_out m.exit_code true job r other apart,
        finish_job-KeepsOthers failed none first job r other apart,
      )

-- The jobs behind the one that a step may change are held as before.
All-others :
    (r s : Runner) (id : String) (rest : List Job)
    → KeepsOthers id r s
    → fetch_one (λ j. str_eq (job_id j) id) rest ≡ none
    → All (IsHeldIn r) rest
    → All (IsHeldIn s) rest
unfolding fetch_one
All-others r s id [] keeps apart h = tt
All-others r s id (j ∷ rest) keeps apart h = (
  ground (arith, keeps j.id, str_eq_iff id j.id, str_eq_iff j.id id),
  All-others r s id rest keeps (ground arith) h.1,
)

module _ (c : Config) where
  resume-Steps :
      (m : Reading) (seen : Sighting) (job : Job) (r : Runner)
      → job_of job.id r ≡ some job
      → Steps Quiet r (resume c m seen job r) × KeepsOthers job.id r (resume c m seen job r)
  unfolding resume
  resume-Steps m seen job r found = elim (Bool-cases (is_running job.state)) [
    | inl active ↦ rw active (
      recover_running_job-Steps c m seen job r found active,
      recover_running_job-KeepsOthers c m seen job r,
    )
    | inr idle ↦ elim (Bool-cases (is_pending job.state)) [
      | inl waits ↦
          let w = save-Writes (record job { holding_reason = none }) r in
          rw (idle, waits)
            (
              one_change found (held job none (ground arith)) w,
              λ other apart. Writes-KeepsOthers w other apart,
            )
      | inr over ↦ rw (idle, over) (same refl refl, λ other apart. refl)
    ]
  ]

  start_each-Steps :
      (env : ℕ → Reading) (seen : String → Sighting) (i : ℕ) (jobs : List Job) (r : Runner)
      → IsUnique job_id jobs
      → All (IsHeldIn r) jobs
      → Steps Quiet r (start_each c env seen i jobs r)
  unfolding start_each
  start_each-Steps env seen i [] r u h = same refl refl
  start_each-Steps env seen i (job ∷ jobs) r u h =
      let (run, keeps) = resume-Steps (env i) (seen job.id) job r h.0 in
      Steps-trans run (
        start_each-Steps env seen (i + 1) jobs (resume c (env i) (seen job.id) job r) u.1
          (All-others r (resume c (env i) (seen job.id) job r) job.id jobs keeps u.0 h.1))

  pub start-Steps :
      (env : ℕ → Reading) (seen : String → Sighting) (r : Runner)
      → HasKey r
      → Steps Quiet r (start c env seen r)
  unfolding start
  start-Steps env seen r u = elim (Bool-cases (not c.enabled || r.is_started)) [
    | inl off ↦ rw off (same refl refl)
    | inr on ↦
        let begun : Runner = record r { is_started = true } in
        let last : Runner = start_each c env seen 0 r.jobs begun in
        let loop : Steps Quiet begun last =
          start_each-Steps env seen 0 r.jobs begun u (All-jobs r u) in
        let from_r : Steps Quiet r last = Steps-trans (same {s = begun} refl refl) loop in
        rw on (Steps-end from_r (schedule_same last).0 (schedule_same last).1)
  ]
