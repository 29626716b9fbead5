-- ===== src/QueueRunner/Outcomes.antt =====
-- What a cancellation, the end of a process and a displacement make of the jobs.
use claude_sessions.Prelude.{
  ◌==◌, ℕ, ◌<◌, String, ◌≡◌, true, false, Option, none, some, All, arith, str_eq, str_eq_iff,
  str_eq_refl, is_some, Bool-cases, Option-cases, inl, inr, if◌then◌else◌, ◌≤◌,
}
use claude_sessions.Sql.{fetch_one_sound, exists, select}
use claude_sessions.QueueRunner.Types.{
  killed, JobState, perf, background, cancelled, displaced, timed_out, ExitCode, is_terminal,
  is_pending, is_running, Job, Config, Runner, Reading,
}
use claude_sessions.QueueRunner.Gates.{
  job_of, has_id, runs_as, running_count, running_count_of, oldest_pending, memory_gate_passes,
  perf_cooldown_active, perf_blocked_by_tests_after_perf,
}
use claude_sessions.QueueRunner.{
  failed, succeeded, exited, finish_job, terminate_job, told, finished, may_displace,
  oldest_background, maybe_displace_for_perf,
}
use claude_sessions.QueueRunner.Lifecycle.{HasKey, job_of-Writes}
use claude_sessions.QueueRunner.Traces.{finish_job-Writes, oldest_background_found}
use claude_sessions.QueueRunner.Calls.{cancel_job, verdict, end_wait, wait_for_job, forget}
use claude_sessions.QueueRunner.CallTraces.{schedule_same}
use claude_sessions.QueueRunner.Choice.{min_by-least}
use claude_sessions.QueueRunner.Restart.{finished-id}
use mathlib.Core.Option

-- The job has ended in this state with this code at this time, without a holding reason.
pub record IsEnded (now : ℕ) (state : JobState) (code : Option ExitCode) (job : Job) : Type 0 where
  pub in_state : job.state ≡ state
  pub with_code : job.exit_code ≡ code
  pub at_time : job.finished_at ≡ some now
  pub unheld : job.holding_reason ≡ none
  pub is_told : is_some job.completion_notified_at ≡ true

-- The job of an identifier has ended so, and all other jobs are as they were.
pub record Ends (now : ℕ) (state : JobState) (code : Option ExitCode) (id : String) (r s : Runner)
    : Type 0 where
  pub last : Job
  pub is_last : job_of id s ≡ some last
  pub is_ended : IsEnded now state code last
  pub others : (other : String) → str_eq id other ≡ false → job_of other s ≡ job_of other r

-- `job.started_at or job.queued_at`
abbrev since : Job → ℕ
since job = Option.get_or job.started_at job.queued_at

module _ (c : Config) where
  finished-IsEnded :
      (now : ℕ) (state : JobState) (code : Option ExitCode) (job : Job)
      → IsEnded now state code (told now true (finished now state code job))
  unfolding told finished
  finished-IsEnded now state code job = record {
    in_state = ground arith;
    with_code = ground arith;
    at_time = ground arith;
    unheld = ground arith;
    is_told = ground arith;
  }

  finish_job-Ends :
      (now : ℕ) (state : JobState) (code : Option ExitCode) (id : String) (job : Job) (r : Runner)
      → job_of id r ≡ some job
      → Ends now state code id r (finish_job c now state code true job r)
  finish_job-Ends now state code id job r found =
      let w = finish_job-Writes c now state code true job r in
      let same_id : job.id ≡ (told now true (finished now state code job)).id =
        finished-id now state code true job in
      let is_id : job.id ≡ id =
        (str_eq_iff job.id id).0 (fetch_one_sound (has_id id) r.jobs job found) in
      record {
        last = told now true (finished now state code job);
        is_last = ground (arith, job_of-Writes id w, str_eq_refl id);
        is_ended = finished-IsEnded now state code job;
        others = λ other apart. ground (arith, job_of-Writes other w);
      }

  -- Cancelling a job that has not ended ends it as cancelled at this time, and marks its completion
  -- as told; a pending job gets no exit code, a running one the code that its process left. All other
  -- jobs are as they were.
  pub cancel_job-Ends :
      (m : Reading) (id : String) (job : Job) (r : Runner)
      → job_of id r ≡ some job
      → is_terminal job.state ≡ false
      → Ends m.now cancelled
          (if is_pending job.state then none else m.exit_code)
          id
          r
          (cancel_job c m id r)
  unfolding cancel_job terminate_job
  cancel_job-Ends m id job r found live = elim (Bool-cases (is_pending job.state)) [
    | inl waits ↦
        rw (found, live, waits, cancel_job) (finish_job-Ends m.now cancelled none id job r found)
    | inr active ↦
        rw (found, live, active, cancel_job)
          (finish_job-Ends m.now cancelled m.exit_code id job r found)
  ]

  Ends-same :
      (now : ℕ) (state : JobState) (code : Option ExitCode) (id : String) (r s t : Runner)
      → t.jobs ≡ s.jobs
      → Ends now state code id r s
      → Ends now state code id r t
  Ends-same now state code id r s t e h = record {
    last = h.last;
    is_last = rw e (h.is_last);
    is_ended = h.is_ended;
    others = λ other apart. rw e (h.others other apart);
  }

  verdict-exited : (n : ℕ) → verdict (some (exited n)) ≡ (if n == 0 then succeeded else failed)
  unfolding verdict
  verdict-exited n = ground arith

  -- When the process of a running job that this server started ends, the job succeeds if the process
  -- exited with code 0, fails if it exited with another code or was killed, and keeps the code; when
  -- the job's time is over first, it ends as timed out, with the code that the terminated process
  -- left. All other jobs are as they were.
  pub wait_for_job-Ends :
      (m : Reading) (ended : Option ExitCode) (id : String) (job : Job) (r : Runner)
      → job_of id r ≡ some job
      → exists (λ k. str_eq k id) r.processes ≡ true
      → is_running job.state ≡ true
      → Ends m.now
          (elim ended [
            | none ↦ timed_out
            | some code ↦ elim code [
              | exited n ↦ if n == 0 then succeeded else failed
              | killed signal ↦ failed
            ]
          ])
          (elim ended [ none ↦ m.exit_code | some code ↦ some code ])
          id
          r
          (wait_for_job c m ended id r)
  unfolding wait_for_job end_wait terminate_job forget
  wait_for_job-Ends m none id job r found own active =
      rw (found, own, active, end_wait)
        (Ends-same m.now timed_out m.exit_code id r _ _ (schedule_same _).0
          (finish_job-Ends m.now timed_out m.exit_code id job r found))
  wait_for_job-Ends m (some (exited n)) id job r found own active =
      rw (found, own, active, end_wait, verdict-exited n)
        (Ends-same m.now (if n == 0 then succeeded else failed) (some (exited n)) id r _ _
          (schedule_same _).0
          (finish_job-Ends m.now (if n == 0 then succeeded else failed) (some (exited n)) id job r
            found))
  wait_for_job-Ends m (some (killed signal)) id job r found own active =
      rw (found, own, active, end_wait, verdict)
        (Ends-same m.now failed (some (killed signal)) id r _ _ (schedule_same _).0
          (finish_job-Ends m.now failed (some (killed signal)) id job r found))

  -- A displacement of one job: why, which one, and what it leaves.
  pub record Displaces (m : Reading) (r s : Runner) : Type 0 where
    pub job : Job
    pub oldest : All (λ other. since job ≤ since other) (select (runs_as background) r.jobs)
    pub in_background : runs_as background job ≡ true
    pub perf_waits : is_some (oldest_pending perf r) ≡ true
    pub is_full : c.max_running_jobs ≤ running_count r
    pub perf_below : running_count_of perf r < c.max_concurrent perf
    pub has_memory : memory_gate_passes c m ≡ true
    pub is_cool : perf_cooldown_active c m.now r ≡ false
    pub awaits_no_tests : perf_blocked_by_tests_after_perf r ≡ false
    pub ends : Ends m.now displaced m.exit_code job.id r s

  -- With distinct identifiers, a displacement ends exactly one job, a background job that runs and
  -- was started no later than any other that runs, and only when a performance job waits, all
  -- places are taken, and nothing but a place keeps it from running.
  pub displacement_needed :
      (m : Reading) (r : Runner)
      → HasKey r
      → (maybe_displace_for_perf c m r).1 ≡ true
      → Displaces m r (maybe_displace_for_perf c m r).0
  unfolding maybe_displace_for_perf may_displace terminate_job oldest_background
  displacement_needed m r u h = elim (Bool-cases (may_displace c m r)) [
    | inr off ↦ absurd (ground arith)
    | inl on ↦ elim (Option-cases (oldest_background r)) [
      | inl none_runs ↦ absurd (ground arith)
      | inr (job, e) ↦
          let (found, _, active) = oldest_background_found r job u e in
          record {
            job = job;
            oldest = min_by-least since (select (runs_as background) r.jobs) job (ground arith);
            in_background = active;
            perf_waits = ground arith;
            is_full = ground arith;
            perf_below = ground arith;
            has_memory = ground arith;
            is_cool = ground arith;
            awaits_no_tests = ground arith;
            ends = rw (on, e) (finish_job-Ends m.now displaced m.exit_code job.id job r found);
          }
    ]
  ]
