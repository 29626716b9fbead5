-- ===== src/QueueRunner/Runs.antt =====
-- Runs of the queue runner: any calls, in any order, each under the lock.
use claude_sessions.Prelude.{ℕ, String, ◌≡◌, true, Option, none, some, arith, str_eq_iff}
use claude_sessions.QueueRunner.Types.{
  pending, ExitCode, is_terminal, is_running, Job, Config, Runner, Reading,
}
use claude_sessions.QueueRunner.Gates.{job_of, save}
use claude_sessions.QueueRunner.Lifecycle.{
  Change, Steps, Steps-Quiet, Steps-HasKey, Steps-IsSaved, Steps-terminal, job_of-Writes,
}
use claude_sessions.QueueRunner.Traces.{save-Writes}
use claude_sessions.QueueRunner.Launch.{IsWithinLimits}
use claude_sessions.QueueRunner.Calls.{
  cancel_job, wait_for_job, Sighting, recover_running_job, poll_recovered_job, scheduler_round,
  start, create_job,
}
use claude_sessions.QueueRunner.CallTraces.{
  cancel_job-Steps, wait_for_job-Steps, recover_running_job-Steps, poll_recovered_job-Steps,
}
use claude_sessions.QueueRunner.Restart.{start-Steps}
use claude_sessions.QueueRunner.Soundness.{
  IsSound, Quiet-IsSound, save_new, create_job-Steps, create_job-limits, scheduler_round-Steps,
  scheduler_round-limits,
}

-- One call, at any reading of the world. A job is recovered while it runs; a new job has a fresh
-- identifier and is pending.
pub data Call (c : Config) : Runner → Runner → Type 0 where
  cancels : (m : Reading) (id : String) (r : Runner) → Call c r (cancel_job c m id r)
  ends :
      (m : Reading) (ended : Option ExitCode) (id : String) (r : Runner)
      → Call c r (wait_for_job c m ended id r)
  recovers :
      (m : Reading) (seen : Sighting) (job : Job) (r : Runner)
      → job_of job.id r ≡ some job
      → is_running job.state ≡ true
      → Call c r (recover_running_job c m seen job r)
  polls :
      (m : Reading) (seen : Sighting) (id : String) (r : Runner)
      → Call c r (poll_recovered_job c m seen id r)
  schedules : (env : ℕ → Reading) (fuel : ℕ) (r : Runner) → Call c r (scheduler_round c env fuel r)
  starts :
      (env : ℕ → Reading) (seen : String → Sighting) (r : Runner) → Call c r (start c env seen r)
  creates :
      (env : ℕ → Reading) (fuel later : ℕ) (job : Job) (r : Runner)
      → job_of job.id r ≡ none
      → job.state ≡ pending
      → Call c r (create_job c env fuel later job r)

pub data Reach (c : Config) (r : Runner) : Runner → Type 0 where
  here : Reach c r r
  step : {s t : Runner} → Reach c r s → Call c s t → Reach c r t

module _ (c : Config) where
  IsSound-after : {r s : Runner} → Steps Change r s → IsWithinLimits c s → IsSound c r → IsSound c s
  IsSound-after run l h = record {
    key = Steps-HasKey run h.key;
    saved = Steps-IsSaved run h.saved;
    limits = l;
  }

  Call-IsSound : {r s : Runner} → Call c r s → IsSound c r → IsSound c s
  Call-IsSound (cancels m id r) h = Quiet-IsSound c (cancel_job-Steps c m id r) h
  Call-IsSound (ends m ended id r) h = Quiet-IsSound c (wait_for_job-Steps c m ended id r) h
  Call-IsSound (recovers m seen job r e active) h =
      Quiet-IsSound c (recover_running_job-Steps c m seen job r e active) h
  Call-IsSound (polls m seen id r) h = Quiet-IsSound c (poll_recovered_job-Steps c m seen id r) h
  Call-IsSound (schedules env fuel r) h =
      IsSound-after (scheduler_round-Steps c env fuel r h.key)
        (scheduler_round-limits c env fuel r h.key h.limits) h
  Call-IsSound (starts env seen r) h = Quiet-IsSound c (start-Steps c env seen r h.key) h
  Call-IsSound (creates env fuel later job r new waits) h =
      let born = save_new c job r new waits h in
      IsSound-after (create_job-Steps c env fuel later job r born.key)
        (create_job-limits c env fuel later job r born.key born.limits) born

  -- From a runner of which this holds, along every run of calls: the identifiers of the jobs are
  -- distinct, the table holds exactly what the memory holds, and no more jobs run, in total and of
  -- each type, than the configuration allows.
  pub Reach-IsSound : {r s : Runner} → Reach c r s → IsSound c r → IsSound c s
  Reach-IsSound here h = h
  Reach-IsSound (step run call) h = Call-IsSound call (Reach-IsSound run h)

  Call-terminal :
      {r s : Runner} (id : String) (job : Job)
      → Call c r s
      → IsSound c r
      → is_terminal job.state ≡ true
      → job_of id r ≡ some job
      → job_of id s ≡ some job
  Call-terminal id job (cancels m k r) h =
      Steps-terminal id job (Steps-Quiet (cancel_job-Steps c m k r))
  Call-terminal id job (ends m ended k r) h =
      Steps-terminal id job (Steps-Quiet (wait_for_job-Steps c m ended k r))
  Call-terminal id job (recovers m seen old r e active) h =
      Steps-terminal id job (Steps-Quiet (recover_running_job-Steps c m seen old r e active))
  Call-terminal id job (polls m seen k r) h =
      Steps-terminal id job (Steps-Quiet (poll_recovered_job-Steps c m seen k r))
  Call-terminal id job (schedules env fuel r) h =
      Steps-terminal id job (scheduler_round-Steps c env fuel r h.key)
  Call-terminal id job (starts env seen r) h =
      Steps-terminal id job (Steps-Quiet (start-Steps c env seen r h.key))
  Call-terminal id job (creates env fuel later new r fresh waits) h = λ over found.
      let born = save_new c new r fresh waits h in
      let kept : job_of id (save new r) ≡ some job =
        ground (arith, job_of-Writes id (save-Writes new r), str_eq_iff new.id id) in
      Steps-terminal id job (create_job-Steps c env fuel later new r born.key) over kept

  -- From a runner with distinct identifiers, a saved table and its limits kept, a job that has
  -- ended stays as it is along every run of calls, all its fields: its state, its exit code, its
  -- times and the marks of its notices, whatever polls, timers and cancellations come late.
  pub Reach-terminal :
      {r s : Runner} (id : String) (job : Job)
      → Reach c r s
      → IsSound c r
      → is_terminal job.state ≡ true
      → job_of id r ≡ some job
      → job_of id s ≡ some job
  Reach-terminal id job here h over found = found
  Reach-terminal id job (step run call) h over found =
      Call-terminal id job call (Reach-IsSound run h) over (Reach-terminal id job run h over found)
