-- ===== src/QueueRunner/Tests.antt =====
-- Runs of the queue runner at concrete jobs, and its theorems at them.
use claude_sessions.Prelude.{
  ℕ, ◌≤◌, ◌<◌, String, str_eq, ◌≡◌, refl, true, false, Option, none, some, List, [], ◌∷◌, map,
  arith,
}
use claude_sessions.Sql.{exists, select, count, fetch_one, upsert}
use claude_sessions.QueueRunner.Types.{
  JobType, perf, tests, background, JobState, pending, running, cancelled, displaced, exited, Job,
  Config, Runner, Reading,
}
use claude_sessions.QueueRunner.Gates.{
  min_by, max_by, perf_cooldown_active, perf_blocked_by_tests_after_perf, memory_gate_passes,
  oldest_pending, job_of, stored, save, set_job, persist_job, running_count, running_count_of,
}
use claude_sessions.QueueRunner.{
  failed, launched, told, finished, send, target, finish_job, terminate_job, start_job, launch_job,
  hold, same_reason, mark_each, mark_pending_holding, blocked, next_of, next_admissible_job,
  maybe_displace_for_perf, may_displace, oldest_background, release, search_round, admit_round,
  admit_from, admit_jobs,
}
use claude_sessions.QueueRunner.Launch.{IsWithinLimits}
use claude_sessions.QueueRunner.Limits.{
  admitted, ran_out, admit_jobs_ends, admit_jobs-IsWithinLimits,
}
use claude_sessions.QueueRunner.Lifecycle.{HasKey, IsSaved}
use claude_sessions.QueueRunner.Priority.{Chosen, next_admissible_job-Chosen}
use claude_sessions.QueueRunner.Soundness.{IsSound}
use claude_sessions.QueueRunner.Runs.{
  cancels, ends, schedules, Reach, here, step, Reach-IsSound, Reach-terminal,
}
use claude_sessions.QueueRunner.Outcomes.{
  Ends, Displaces, cancel_job-Ends, wait_for_job-Ends, displacement_needed,
}
use claude_sessions.QueueRunner.Calls.{cancel_job, wait_for_job, scheduler_round}

abbrev one_at_a_time : Config
one_at_a_time = record {
  enabled = true;
  max_running_jobs = 1;
  max_concurrent = λ t. 1;
  default_timeout_seconds = λ t. 3600;
  perf_cooldown_seconds = 60;
  min_free_bytes = 0;
  has_message_queue = true;
}

abbrev a_job : String → JobType → JobState → ℕ → Option ℕ → Job
a_job id t state at started = record {
  id = id;
  type = t;
  label = "job";
  requester_session_id = none;
  notify_session_id = some "s1";
  cwd = "/";
  argv = some ("true" ∷ []);
  script_path = none;
  env = [];
  timeout_seconds = 3600;
  state = state;
  holding_reason = none;
  queued_at = at;
  started_at = started;
  finished_at = none;
  pid = none;
  process_group_id = none;
  exit_code = none;
  log_path = "log";
  exit_code_path = "code";
  wrapper_path = "run";
  queued_notified_at = none;
  started_notified_at = none;
  completion_notified_at = none;
}

-- a background job runs, two performance jobs and a cancelled one are there
abbrev some_jobs : List Job
some_jobs =
    a_job "b" background running 1 (some 2)
    ∷ a_job "p2" perf pending 4 none
    ∷ a_job "p1" perf pending 3 none
    ∷ a_job "x" tests cancelled 1 none
    ∷ []

abbrev busy : Runner
busy = record {
  jobs = some_jobs;
  db = some_jobs;
  notices = [];
  processes = "b" ∷ [];
  waits = "b" ∷ [];
  is_started = true;
  scheduled = false;
}

abbrev world : ℕ → Reading
world i = record { now = 1000; free_memory_bytes = none; spawned_pid = some 77; exit_code = none }

busy-HasKey : HasKey busy
unfolding fetch_one
busy-HasKey = (refl, (refl, (refl, (refl, tt))))

busy-IsSaved : IsSaved busy
unfolding fetch_one stored
busy-IsSaved id = ground arith

busy-IsWithinLimits : IsWithinLimits one_at_a_time busy
unfolding count
busy-IsWithinLimits = record { total = omega arith; of_type = λ t. one_each t }
  where
    one_each : (t : JobType) → running_count_of t busy ≤ 1
    one_each perf = omega arith
    one_each tests = omega arith
    one_each background = omega arith

busy-IsSound : IsSound one_at_a_time busy
busy-IsSound = record { key = busy-HasKey; saved = busy-IsSaved; limits = busy-IsWithinLimits }

-- what a search of the world finds in the states of the jobs
abbrev states : Runner → List JobState
states r = map (λ (job : Job). job.state) r.jobs

-- The background job makes room for the older of the two performance jobs.
displaces :
    states (admitted (admit_jobs one_at_a_time world 10 busy))
    ≡ displaced ∷ pending ∷ running ∷ cancelled ∷ []
unfolding admit_jobs admit_round maybe_displace_for_perf may_displace oldest_pending select count
    memory_gate_passes perf_cooldown_active fetch_one perf_blocked_by_tests_after_perf
    oldest_background terminate_job finish_job save upsert search_round next_admissible_job next_of
    blocked hold release start_job launch_job launched finished told send target set_job persist_job
    mark_pending_holding mark_each min_by max_by admit_from stored same_reason
displaces = refl

admit_jobs_ends_example : ran_out (admit_jobs one_at_a_time world 6 busy) ≡ false
admit_jobs_ends_example =
    admit_jobs_ends one_at_a_time world 6 busy busy-HasKey (unfold count in omega arith)

admit_jobs-IsWithinLimits_example :
    IsWithinLimits one_at_a_time (admitted (admit_jobs one_at_a_time world 6 busy))
admit_jobs-IsWithinLimits_example =
    admit_jobs-IsWithinLimits one_at_a_time world 6 busy busy-HasKey busy-IsWithinLimits

-- the job that was cancelled before
abbrev job_x : Job
job_x = a_job "x" tests cancelled 1 none

busy-job_x : job_of "x" busy ≡ some job_x
unfolding fetch_one
busy-job_x = refl

-- The process of the background job ends well, "p2" is cancelled, and the scheduler starts "p1".
abbrev later : Runner
later = wait_for_job one_at_a_time (world 0) (some (exited 0)) "b" busy

abbrev last : Runner
last = scheduler_round one_at_a_time world 6 (cancel_job one_at_a_time (world 0) "p2" later)

busy_to_last : Reach one_at_a_time busy last
busy_to_last =
    step
      (step (step here (ends (world 0) (some (exited 0)) "b" busy)) (cancels (world 0) "p2" later))
      (schedules world 6 (cancel_job one_at_a_time (world 0) "p2" later))

Reach-IsSound_example : IsSound one_at_a_time last
Reach-IsSound_example = Reach-IsSound one_at_a_time busy_to_last busy-IsSound

Reach-terminal_example : job_of "x" last ≡ some job_x
Reach-terminal_example =
    Reach-terminal one_at_a_time "x" job_x busy_to_last busy-IsSound refl busy-job_x

-- "x" waits too, and nothing runs.
abbrev waiting : Runner
waiting = record busy {
  jobs =
      a_job "p2" perf pending 4 none
      ∷ a_job "p1" perf pending 3 none
      ∷ a_job "t" tests pending 1 none
      ∷ [];
}

waiting-HasKey : HasKey waiting
unfolding fetch_one
waiting-HasKey = (refl, (refl, (refl, tt)))

waiting_room : running_count waiting < 1
unfolding count
waiting_room = omega arith

memory_free : memory_gate_passes one_at_a_time (world 0) ≡ true
unfolding memory_gate_passes
memory_free = refl

next_admissible_job-Chosen_example :
    Chosen one_at_a_time
      (world 0)
      waiting
      (perf ∷ tests ∷ background ∷ [])
      (next_admissible_job one_at_a_time (world 0) waiting).1
next_admissible_job-Chosen_example =
    next_admissible_job-Chosen one_at_a_time (world 0) waiting waiting-HasKey waiting_room
      memory_free

oldest_pending_p1 : oldest_pending perf waiting ≡ some (a_job "p1" perf pending 3 none)
unfolding oldest_pending min_by select
oldest_pending_p1 = refl

-- the background job of `busy`
abbrev job_b : Job
job_b = a_job "b" background running 1 (some 2)

busy-job_b : job_of "b" busy ≡ some job_b
unfolding fetch_one
busy-job_b = refl

own_process : exists (λ k. str_eq k "b") busy.processes ≡ true
unfolding fetch_one
own_process = refl

cancel_job-Ends_example :
    Ends 1000 cancelled none "b" busy (cancel_job one_at_a_time (world 0) "b" busy)
cancel_job-Ends_example = cancel_job-Ends one_at_a_time (world 0) "b" job_b busy busy-job_b refl

wait_for_job-Ends_example :
    Ends 1000 failed
      (some (exited 1))
      "b"
      busy
      (wait_for_job one_at_a_time (world 0) (some (exited 1)) "b" busy)
wait_for_job-Ends_example =
    wait_for_job-Ends one_at_a_time (world 0) (some (exited 1)) "b" job_b busy busy-job_b
      own_process refl

busy_displaces : (maybe_displace_for_perf one_at_a_time (world 0) busy).1 ≡ true
unfolding maybe_displace_for_perf may_displace oldest_pending select count memory_gate_passes
    perf_cooldown_active fetch_one perf_blocked_by_tests_after_perf oldest_background min_by max_by
busy_displaces = refl

displacement_needed_example :
    Displaces one_at_a_time (world 0) busy (maybe_displace_for_perf one_at_a_time (world 0) busy).0
displacement_needed_example =
    displacement_needed one_at_a_time (world 0) busy busy-HasKey busy_displaces
