-- ===== src/QueueRunner/Types.antt =====
-- The data of src/queue_runner.py: jobs, the runner's memory and database, its configuration, and
-- what an operation reads from outside (the clock, the free memory, processes, exit codes).
use claude_sessions.Prelude.{ℕ, String, Bool, true, false, Option, List}

pub data JobType : Type 0 where
  perf tests background : JobType

pub data JobState : Type 0 where
  pending running succeeded failed timed_out cancelled displaced : JobState

pub data HoldingReason : Type 0 where
  concurrency_cap memory_pressure perf_cooldown awaiting_tests : HoldingReason

-- A process's exit code: negative for the number of a signal, `killed n` for -(n + 1).
pub data ExitCode : Type 0 where
  exited : ℕ → ExitCode
  killed : ℕ → ExitCode

abbrev pub is_terminal : JobState → Bool
is_terminal pending = false
is_terminal running = false
is_terminal _ = true

abbrev pub is_pending : JobState → Bool
is_pending pending = true
is_pending _ = false

abbrev pub is_running : JobState → Bool
is_running running = true
is_running _ = false

abbrev pub same_type : JobType → JobType → Bool
same_type perf perf = true
same_type tests tests = true
same_type background background = true
same_type _ _ = false

-- `QueueJob`; times are in microseconds.
pub record Job : Type 0 where
  pub id : String
  pub type : JobType
  pub label : String
  pub requester_session_id : Option String
  pub notify_session_id : Option String
  pub cwd : String
  pub argv : Option (List String)
  pub script_path : Option String
  pub env : List (String × String)
  pub timeout_seconds : ℕ
  pub state : JobState
  pub holding_reason : Option HoldingReason
  pub queued_at : ℕ
  pub started_at : Option ℕ
  pub finished_at : Option ℕ
  pub pid : Option ℕ
  pub process_group_id : Option ℕ
  pub exit_code : Option ExitCode
  pub log_path : String
  pub exit_code_path : String
  pub wrapper_path : String
  pub queued_notified_at : Option ℕ
  pub started_notified_at : Option ℕ
  pub completion_notified_at : Option ℕ

-- The messages that the runner sends to the message queue: the target, and the job as it then was.
pub data Notice : Type 0 where
  queued : String → Job → Notice
  started : String → Job → Notice
  completed : String → Job → Notice

-- `has_message_queue` is whether the session manager has a message queue.
pub record Config : Type 0 where
  pub enabled : Bool
  pub max_running_jobs : ℕ
  pub max_concurrent : JobType → ℕ
  pub default_timeout_seconds : JobType → ℕ
  pub perf_cooldown_seconds : ℕ
  pub min_free_bytes : ℕ
  pub has_message_queue : Bool

-- `jobs` is the dictionary `_jobs` in its order, `db` the table `queue_jobs`, `processes` and
-- `waits` the keys of `_processes` and of `_completion_tasks`, `scheduled` whether the scheduler's
-- task runs.
pub record Runner : Type 0 where
  pub jobs : List Job
  pub db : List Job
  pub notices : List Notice
  pub processes : List String
  pub waits : List String
  pub is_started : Bool
  pub scheduled : Bool

-- What one operation reads from outside. A spawn that fails raises.
pub record Reading : Type 0 where
  pub now : ℕ
  pub free_memory_bytes : Option ℕ
  pub spawned_pid : Option ℕ
  pub exit_code : Option ExitCode

pub data Admission : Type 0 where
  done : Bool → Runner → Admission
  raised : Runner → Admission
  out_of_fuel : Runner → Admission
