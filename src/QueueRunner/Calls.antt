-- ===== src/QueueRunner/Calls.antt =====
-- The calls that come to the runner of src/queue_runner.py: a job is created or cancelled, a process
-- ends or its time is up, a server that starts again finds jobs that ran.
use claude_sessions.Prelude.{
  ℕ, ◌+◌, ◌*◌, String, Bool, true, false, not, ◌&&◌, ◌||◌, Option, none, some, List, [], ◌∷◌, ◌++◌,
  str_eq, leb, is_some, if◌then◌else◌,
}
use claude_sessions.Sql.{delete, exists}
use claude_sessions.QueueRunner.Types.{
  succeeded, failed, timed_out, cancelled, JobState, ExitCode, exited, is_terminal, is_pending,
  is_running, Job, Config, Runner, Reading, done, raised, out_of_fuel, queued,
}
use claude_sessions.QueueRunner.Gates.{job_of, save}
use claude_sessions.QueueRunner.{finish_job, terminate_job, admit_jobs, send, target}
use mathlib.Core.Option

-- `_schedule`
unfoldable pub schedule : Runner → Runner
schedule r = if r.is_started then record r { scheduled = true } else r

-- "succeeded" if exit_code == 0 else "failed"
unfoldable pub verdict : Option ExitCode → JobState
verdict (some (exited n)) = if leb n 0 then succeeded else failed
verdict _ = failed

-- `cancel_job`
unfoldable pub cancel_job : Config → Reading → String → Runner → Runner
cancel_job c m id r = elim (job_of id r) [
  | none ↦ r
  | some job ↦
      if is_terminal job.state
      then r
      else if is_pending job.state
      then finish_job c m.now cancelled none true job r
      else terminate_job c m cancelled job r
]

-- The keys of a process that is over are taken out, and the scheduler is called.
unfoldable pub forget : String → Runner → Runner
unfolding schedule
forget id r = schedule (record r {
  processes = delete (λ k. str_eq k id) r.processes;
  waits = delete (λ k. str_eq k id) r.waits;
})

-- The body of `_wait_for_job` when the process has ended with a code, or has not within the job's
-- time. The process is one that this server made.
unfoldable pub end_wait : Config → Reading → Option ExitCode → String → Runner → Runner
unfolding verdict
end_wait c m ended id r = elim (job_of id r) [
  | none ↦ r
  | some job ↦
      if not (exists (λ k. str_eq k id) r.processes)
      then r
      else if not (is_running job.state)
      then r
      else elim ended [
        | some code ↦ finish_job c m.now (verdict (some code)) (some code) true job r
        | none ↦ terminate_job c m timed_out job r
      ]
]

-- `_wait_for_job`, with its `finally`
unfoldable pub wait_for_job : Config → Reading → Option ExitCode → String → Runner → Runner
unfolding forget end_wait
wait_for_job c m ended id r = forget id (end_wait c m ended id r)

-- `_job_timed_out`
unfoldable pub job_timed_out : ℕ → Job → Bool
job_timed_out now job = elim job.started_at [
  | none ↦ false
  | some t ↦ leb (t + 1000000 * job.timeout_seconds) now
]

-- What a poll of a job of an earlier server sees: whether its exit code was written, and whether its
-- process is there.
pub record Sighting : Type 0 where
  pub has_exit_code : Bool
  pub pid_exists : Bool

-- `_recover_running_job_locked`
unfoldable pub recover_running_job : Config → Reading → Sighting → Job → Runner → Runner
unfolding verdict job_timed_out
recover_running_job c m seen job r =
    let first = not (is_some job.completion_notified_at) in
    if seen.has_exit_code
    then finish_job c m.now (verdict m.exit_code) m.exit_code first job r
    else if job_timed_out m.now job
    then terminate_job c m timed_out job r
    else if is_some job.pid && seen.pid_exists
    then record r { waits = r.waits ++ job.id ∷ [] }
    else finish_job c m.now failed none first job r

-- The `finally` of `_poll_recovered_job`.
unfoldable pub leave : String → Runner → Runner
unfolding schedule
leave id r = schedule (record r { waits = delete (λ k. str_eq k id) r.waits })

-- One round of the loop of `_poll_recovered_job`.
unfoldable pub poll_recovered_job : Config → Reading → Sighting → String → Runner → Runner
unfolding verdict job_timed_out leave
poll_recovered_job c m seen id r = elim (job_of id r) [
  | none ↦ leave id r
  | some job ↦
      let first = not (is_some job.completion_notified_at) in
      if not (is_running job.state)
      then leave id r
      else if seen.has_exit_code
      then leave id (finish_job c m.now (verdict m.exit_code) m.exit_code first job r)
      else if job_timed_out m.now job
      then leave id (terminate_job c m timed_out job r)
      else if is_some job.pid && not seen.pid_exists
      then leave id (finish_job c m.now failed none first job r)
      else r
]

-- One round of `_scheduler_loop`, with fuel for the admission: `scheduled` is off once nothing is
-- pending, or when an exception ends the task.
unfoldable pub scheduler_round : Config → (ℕ → Reading) → ℕ → Runner → Runner
scheduler_round c env fuel r = elim (admit_jobs c env fuel r) [
  | done changed s ↦ record s { scheduled = exists (λ job. is_pending job.state) s.jobs }
  | raised s ↦ record s { scheduled = false }
  | out_of_fuel s ↦ s
]

-- The end of `create_job` under the lock, for a job that admission may have left pending.
unfoldable pub announce_queued : Config → ℕ → String → Runner → Runner
unfolding schedule send target
announce_queued c now id r = elim (job_of id r) [
  | none ↦ r
  | some job ↦
      if is_pending job.state
      then schedule (
          if is_some job.queued_notified_at
          then r
          else save (record job { queued_notified_at = some now })
              (send (Option.map (λ to. queued to job) (target c job)) r))
      else r
]

-- `create_job` from the lock on: the job is new and its checks have passed. `later` is the time once
-- admission is over.
unfoldable pub create_job : Config → (ℕ → Reading) → ℕ → ℕ → Job → Runner → Runner
create_job c env fuel later job r = elim (admit_jobs c env fuel (save job r)) [
  | done changed s ↦ announce_queued c later job.id s
  | raised s ↦ s
  | out_of_fuel s ↦ s
]

-- What `start` does with one job.
unfoldable pub resume : Config → Reading → Sighting → Job → Runner → Runner
resume c m seen job r =
    if is_running job.state
    then recover_running_job c m seen job r
    else if is_pending job.state
    then save (record job { holding_reason = none }) r
    else r

-- The loop of `start` over the jobs: job i reads what `env i` holds.
unfoldable pub start_each :
    Config → (ℕ → Reading) → (String → Sighting) → ℕ → List Job → Runner → Runner
unfolding resume
start_each c env seen i [] r = r
start_each c env seen i (job ∷ jobs) r =
    start_each c env seen (i + 1) jobs (resume c (env i) (seen job.id) job r)

-- `start`
unfoldable pub start : Config → (ℕ → Reading) → (String → Sighting) → Runner → Runner
unfolding schedule start_each
start c env seen r =
    if not c.enabled || r.is_started
    then r
    else schedule (start_each c env seen 0 r.jobs (record r { is_started = true }))
