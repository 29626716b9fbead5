-- ===== src/QueueRunner/Launch.antt =====
-- The start of a job: what it changes, that it takes one place, and the work that is left.
use claude_sessions.Prelude.{
  ℕ, ◌+◌, ◌*◌, ◌≤◌, ◌<◌, ◌≡◌, refl, Bool, true, false, not, ◌&&◌, Option, none, some, arith,
  str_eq_refl, is_some, Bool-cases, Option-cases, inl, inr, if◌then◌else◌,
}
use claude_sessions.Sql.{count, one_if}
use claude_sessions.QueueRunner.Types.{
  JobType, perf, tests, background, pending, displaced, Job, Config, Runner, Reading, is_pending,
  same_type, started, Notice,
}
use claude_sessions.QueueRunner.Gates.{job_of, save, runs, runs_as, running_count, running_count_of}
use claude_sessions.QueueRunner.{
  launched, told, finished, send, target, terminate_job, start_job, launch_job, release, Round,
  again, stop, fault,
}
use claude_sessions.QueueRunner.Lifecycle.{
  Quiet, held, announced, ended, Quiet-idle, Writes, Steps, same, job_of-Writes, Steps-count,
  count-Writes,
}
use claude_sessions.QueueRunner.Traces.{
  save-Writes, one_change, send_same, told-id, finish_job-Writes,
}
use mathlib.Core.Option

-- The limits on the jobs that run at once.
pub record IsWithinLimits (c : Config) (r : Runner) : Type 0 where
  pub total : running_count r ≤ c.max_running_jobs
  pub of_type : (t : JobType) → running_count_of t r ≤ c.max_concurrent t

-- A quiet change starts nothing, and makes nothing wait.
pub runs_drops : (job job' : Job) → Quiet job job' → one_if (runs job') ≤ one_if (runs job)
runs_drops job job' q = rw (Quiet-idle q) (omega arith)

pub runs_as_drops :
    (t : JobType) (job job' : Job)
    → Quiet job job'
    → one_if (runs_as t job') ≤ one_if (runs_as t job)
runs_as_drops t job job' q = rw (Quiet-idle q) (omega arith)

abbrev pub waits : Job → Bool
waits job = is_pending job.state

waits_drops : (job job' : Job) → Quiet job job' → one_if (waits job') ≤ one_if (waits job)
unfolding told finished
waits_drops job job' (held _ reason h) = omega arith
waits_drops job job' (announced _ now h) = omega arith
waits_drops job job' (ended _ now state code notify h e) = ground arith

same_type_eq : (a b t : JobType) → same_type a b ≡ true → same_type a t ≡ true → b ≡ t
same_type_eq perf b t h k = ground arith
same_type_eq tests b t h k = ground arith
same_type_eq background b t h k = ground arith

pub Quiet-IsWithinLimits :
    (c : Config) {r s : Runner} → Steps Quiet r s → IsWithinLimits c r → IsWithinLimits c s
Quiet-IsWithinLimits c run h = record {
  total = omega (arith, Steps-count runs runs_drops run, h.total);
  of_type = λ t. omega (arith, Steps-count (runs_as t) (runs_as_drops t) run, h.of_type t);
}

pub release-Steps :
    (job : Job) (r : Runner)
    → job_of job.id r ≡ some job
    → job.state ≡ pending
    → Steps Quiet r (release job r)
unfolding release
release-Steps job r found waits = elim (Bool-cases (is_some job.holding_reason)) [
  | inl e ↦ rw e (one_change found (held job none waits) (save-Writes _ r))
  | inr e ↦ rw e (same refl refl)
]

pub release_found :
    (job : Job) (r : Runner)
    → job_of job.id r ≡ some job
    → job_of job.id (release job r) ≡ some (record job { holding_reason = none })
unfolding release
release_found job r found = elim (Option-cases job.holding_reason) [
  | inl e ↦ ground (arith, found)
  | inr (reason, e) ↦ rw e (
      rw (job_of-Writes job.id (save-Writes (record job { holding_reason = none }) r))
        (rw (str_eq_refl job.id)))
]

if_send_same :
    (b : Bool) (n : Option Notice) (r : Runner)
    → ((if b then send n r else r).jobs ≡ r.jobs) × ((if b then send n r else r).db ≡ r.db)
if_send_same true n r = send_same n r
if_send_same false n r = (refl, refl)

module _ (c : Config) (m : Reading) where
  launch_job-Writes :
      (now pid : ℕ) (job : Job) (r : Runner)
      → Writes (launched now pid job) r (launch_job c now pid job r)
  unfolding launch_job save
  launch_job-Writes now pid job r =
      let b = is_some job.queued_notified_at && not (is_some job.started_notified_at) in
      let n = Option.map (λ id. started id (launched now pid job)) (target c job) in
      record { in_memory = rw (if_send_same b n r).0; in_db = rw (if_send_same b n r).1 }

  pub start_job-Writes :
      (job : Job) (r s : Runner)
      → start_job c m job r ≡ some s
      → (pid : ℕ) × Writes (launched m.now pid job) r s
  unfolding start_job
  start_job-Writes job r s h = elim (Option-cases m.spawned_pid) [
    | inl e ↦ absurd (ground arith)
    | inr (pid, e) ↦
        let same_state : launch_job c m.now pid job r ≡ s = ground arith in
        (pid, rw (← same_state) (launch_job-Writes m.now pid job r))
  ]

-- A launch within the limits stays within them.
pub launch-IsWithinLimits :
    (c : Config) (pid now : ℕ) (job : Job) (t : JobType) (r s : Runner)
    → job_of job.id r ≡ some job
    → job.state ≡ pending
    → same_type job.type t ≡ true
    → IsWithinLimits c r
    → running_count r < c.max_running_jobs
    → running_count_of t r < c.max_concurrent t
    → Writes (launched now pid job) r s
    → IsWithinLimits c s
unfolding launched
launch-IsWithinLimits c pid now job t r s found waits of_t h room room_of_type w = record {
  total = ground (arith, count-Writes runs found w);
  of_type = λ u. elim (Bool-cases (same_type job.type u)) [
    | inl e ↦
        rw (same_type_eq job.type u t e of_t) (ground (arith, count-Writes (runs_as t) found w))
    | inr e ↦ ground (arith, count-Writes (runs_as u) found w, h.of_type u)
  ];
}

-- The runner after a round.
abbrev pub after : Round → Runner
after (again r) = r
after (stop r) = r
after (fault r) = r

-- What falls with each round that is followed by another.
abbrev pub work : Runner → ℕ
work r = 2 * count waits r.jobs + running_count_of background r

pub Quiet-work : {r s : Runner} → Steps Quiet r s → work s ≤ work r
Quiet-work run = omega (
  arith,
  Steps-count waits waits_drops run,
  Steps-count (runs_as background) (runs_as_drops background) run,
)

abbrev pub goes_on : Round → Bool
goes_on (again r) = true
goes_on (stop r) = false
goes_on (fault r) = false

pub launched-work :
    (pid now : ℕ) (job : Job) (r s : Runner)
    → job_of job.id r ≡ some job
    → job.state ≡ pending
    → Writes (launched now pid job) r s
    → work s < work r
unfolding launched
launched-work pid now job r s found pend w =
    ground (arith, count-Writes waits found w, count-Writes (runs_as background) found w)

pub terminated-work :
    (c : Config) (m : Reading) (job : Job) (r : Runner)
    → job_of job.id r ≡ some job
    → runs_as background job ≡ true
    → work (terminate_job c m displaced job r) < work r
unfolding terminate_job
terminated-work c m job r found active =
    let over = told m.now true (finished m.now displaced m.exit_code job) in
    let w = finish_job-Writes c m.now displaced m.exit_code true job r in
    let found' : job_of over.id r ≡ some job =
      rw (← told-id m.now true (finished m.now displaced m.exit_code job))
        (unfold finished in found) in
    unfold told finished in
    ground (arith, count-Writes waits found' w, count-Writes (runs_as background) found' w)

-- A round is a sequence of changes, within the limits, and there is less to do after it if another
-- round follows.
