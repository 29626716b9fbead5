-- ===== src/QueueRunner.antt =====
-- src/queue_runner.py: the admission of local jobs under shared limits. A method is a function of the
-- configuration, of what it reads from outside, and of the runner. Each runs under `_lock`, so no
-- other method comes between its steps.
pub mod Types
pub mod Gates
pub mod Lifecycle
pub mod Choice
pub mod Traces
pub mod Search
pub mod Priority
pub mod Launch
pub mod Rounds
pub mod Limits
pub mod Calls
pub mod CallTraces
pub mod Restart
pub mod Soundness
pub mod Runs
pub mod Outcomes
mod Tests
use claude_sessions.Prelude.{
  ℕ, zero, suc, ◌+◌, ◌*◌, String, Bool, true, false, not, ◌&&◌, ◌||◌, Option, none, some, List, [],
  ◌∷◌, ◌++◌, str_eq, ltb, leb, ◌==◌, is_some, if◌then◌else◌,
}
use claude_sessions.Sql.{select, exists, delete}
use Types.{
  JobType, perf, tests, background, JobState, pending, running, succeeded, failed, timed_out,
  cancelled, displaced, HoldingReason, concurrency_cap, memory_pressure, perf_cooldown,
  awaiting_tests, ExitCode, exited, is_terminal, is_pending, is_running, same_type, Job, Notice,
  queued, started, completed, Config, Runner, Reading, Admission, done, raised, out_of_fuel,
}
use Gates.{
  has_id, job_of, set_job, persist_job, save, runs, running_count, runs_as, running_count_of,
  min_by, waits_as, oldest_pending, perf_cooldown_active, perf_blocked_by_tests_after_perf,
  memory_gate_passes,
}
use mathlib.Core.Option

-- `if not mq or not job.notify_session_id: return`
pub target : Config → Job → Option String
target c job = elim job.notify_session_id [
  | none ↦ none
  | some id ↦ if c.has_message_queue && not (str_eq id "") then some id else none
]

pub send : Option Notice → Runner → Runner
send none r = r
send (some n) r = record r { notices = r.notices ++ n ∷ [] }

-- `_finish_job_locked`. The fields of the job are set first; its row is written last.
pub finished : ℕ → JobState → Option ExitCode → Job → Job
finished now state code job = record job {
  state = state;
  exit_code = code;
  finished_at = some now;
  holding_reason = none;
}

pub told : ℕ → Bool → Job → Job
told now notify job =
    if notify && not (is_some job.completion_notified_at)
    then record job { completion_notified_at = some now }
    else job

pub finish_job : Config → ℕ → JobState → Option ExitCode → Bool → Job → Runner → Runner
unfolding target send finished told
finish_job c now state code notify job r =
    let job' = finished now state code job in
    let r' =
      if notify && not (is_some job.completion_notified_at)
      then send (Option.map (λ id. completed id job') (target c job)) (set_job job' r)
      else set_job job' r in
    save (told now notify job') r'

-- `_terminate_job_locked`: the signals go to the process group; the state says why.
pub terminate_job : Config → Reading → JobState → Job → Runner → Runner
terminate_job c m state job r = finish_job c m.now state m.exit_code true job r

-- `_start_job_locked`, after the process is there
pub launched : ℕ → ℕ → Job → Job
launched now pid job = record job {
  pid = some pid;
  process_group_id = some pid;
  started_at = some now;
  state = running;
  holding_reason = none;
  started_notified_at =
      if is_some job.queued_notified_at && not (is_some job.started_notified_at)
      then some now
      else job.started_notified_at;
}

pub launch_job : Config → ℕ → ℕ → Job → Runner → Runner
unfolding target send launched
launch_job c now pid job r =
    let job' = launched now pid job in
    let r' =
      if is_some job.queued_notified_at && not (is_some job.started_notified_at)
      then send (Option.map (λ id. started id job') (target c job)) r
      else r in
    save job'
      (record r' { processes = r'.processes ++ job.id ∷ []; waits = r'.waits ++ job.id ∷ [] })

-- A process that cannot be made raises before anything is changed.
pub start_job : Config → Reading → Job → Runner → Option Runner
start_job c m job r = Option.map (λ pid. launch_job c m.now pid job r) m.spawned_pid

-- `job.holding_reason = reason` with the row written
pub hold : HoldingReason → Job → Runner → Runner
hold reason job = save (record job { holding_reason = some reason })

pub same_reason : HoldingReason → Option HoldingReason → Bool
same_reason concurrency_cap (some concurrency_cap) = true
same_reason memory_pressure (some memory_pressure) = true
same_reason perf_cooldown (some perf_cooldown) = true
same_reason awaiting_tests (some awaiting_tests) = true
same_reason _ _ = false

-- the loop of `_mark_pending_holding` over the jobs
pub mark_each : HoldingReason → List Job → Runner → Runner
mark_each reason [] r = r
mark_each reason (job ∷ jobs) r = mark_each reason jobs (
    if is_pending job.state && not (same_reason reason job.holding_reason)
    then hold reason job r
    else r)

pub mark_pending_holding : HoldingReason → Runner → Runner
mark_pending_holding reason r = mark_each reason r.jobs r

-- why the oldest pending job of a type is passed over
pub blocked : Config → Reading → JobType → Runner → Option HoldingReason
blocked c m t r =
    if leb (c.max_concurrent t) (running_count_of t r)
    then some concurrency_cap
    else if same_type t perf && perf_cooldown_active c m.now r
    then some perf_cooldown
    else if same_type t perf && perf_blocked_by_tests_after_perf r
    then some awaiting_tests
    else none

-- the loop of `_next_admissible_job_locked` over the types
pub next_of : Config → Reading → List JobType → Runner → Runner × Option Job
next_of c m [] r = (r, none)
next_of c m (t ∷ types) r = elim (oldest_pending t r) [
  | none ↦ next_of c m types r
  | some job ↦ elim (blocked c m t r) [
    | some reason ↦ next_of c m types (hold reason job r)
    | none ↦ (r, some job)
  ]
]

abbrev pub by_priority : List JobType
by_priority = perf ∷ tests ∷ background ∷ []

-- `_next_admissible_job_locked`
pub next_admissible_job : Config → Reading → Runner → Runner × Option Job
next_admissible_job c m r =
    if leb c.max_running_jobs (running_count r)
    then (mark_pending_holding concurrency_cap r, none)
    else if not (memory_gate_passes c m)
    then (mark_pending_holding memory_pressure r, none)
    else next_of c m by_priority r

-- `_maybe_displace_for_perf_locked`
pub may_displace : Config → Reading → Runner → Bool
may_displace c m r =
    is_some (oldest_pending perf r)
    && leb c.max_running_jobs (running_count r)
    && ltb (running_count_of perf r) (c.max_concurrent perf)
    && memory_gate_passes c m
    && not (perf_cooldown_active c m.now r)
    && not (perf_blocked_by_tests_after_perf r)

pub oldest_background : Runner → Option Job
oldest_background r =
    min_by (λ (job : Job). Option.get_or job.started_at job.queued_at)
      (select (runs_as background) r.jobs)

pub maybe_displace_for_perf : Config → Reading → Runner → Runner × Bool
maybe_displace_for_perf c m r =
    if may_displace c m r
    then elim (oldest_background r) [
      | none ↦ (r, false)
      | some job ↦ (terminate_job c m displaced job r, true)
    ]
    else (r, false)

-- `if candidate.holding_reason: candidate.holding_reason = None` with the row written
pub release : Job → Runner → Runner
release job r =
    if is_some job.holding_reason then save (record job { holding_reason = none }) r else r

-- One round of the loop of `_admit_jobs_locked`. The two halves of a round read one after the other.
pub data Round : Type 0 where
  again : Runner → Round
  stop : Runner → Round
  fault : Runner → Round

pub search_round : Config → Reading → Runner → Round
search_round c m r =
    let (r', candidate) = next_admissible_job c m r in
    elim candidate [
      | none ↦ stop r'
      | some job ↦ elim (start_job c m (record job { holding_reason = none }) (release job r')) [
        | none ↦ fault (release job r')
        | some s ↦ again s
      ]
    ]

pub admit_round : Config → Reading → Reading → Runner → Round
admit_round c m n r =
    let (r', displacing) = maybe_displace_for_perf c m r in
    if displacing then again r' else search_round c n r'

-- `_admit_jobs_locked`: round i reads what `env (2 * i)` and `env (2 * i + 1)` hold.
pub admit_from : Config → (ℕ → Reading) → ℕ → ℕ → Bool → Runner → Admission
admit_from c env zero i changed r = out_of_fuel r
admit_from c env (suc fuel) i changed r = elim (admit_round c (env (2 * i)) (env (2 * i + 1)) r) [
  | again s ↦ admit_from c env fuel (i + 1) true s
  | stop s ↦ done changed s
  | fault s ↦ raised s
]

pub admit_jobs : Config → (ℕ → Reading) → ℕ → Runner → Admission
unfolding admit_from
admit_jobs c env fuel r = admit_from c env fuel 0 false r
