-- ===== src/QueueRunner/Traces.antt =====
-- Each operation of the queue runner is a sequence of changes of single jobs, each written to the
-- database as it is made.
use claude_sessions.Prelude.{
  ℕ, ◌≡◌, refl, Bool, true, false, not, ◌&&◌, Option, none, some, List, [], ◌∷◌, All, All-of-Among,
  arith, str_eq, str_eq_iff, is_some, Bool-cases, Option-cases, inl, inr, if◌then◌else◌,
}
use claude_sessions.Sql.{fetch_one, upsert, IsUnique, upsert-upsert, Among-fetch_one}
use claude_sessions.QueueRunner.Types.{
  JobType, background, JobState, pending, running, displaced, HoldingReason, concurrency_cap,
  memory_pressure, ExitCode, Job, Config, Runner, Reading, is_terminal, is_pending, Notice,
  completed,
}
use claude_sessions.QueueRunner.Gates.{
  job_id, job_of, save, set_job, oldest_pending, waits_as, runs_as,
}
use claude_sessions.QueueRunner.{
  finished, told, send, target, finish_job, terminate_job, hold, same_reason, mark_each,
  mark_pending_holding, blocked, next_of, next_admissible_job, maybe_displace_for_perf,
  may_displace, oldest_background, by_priority,
}
use claude_sessions.QueueRunner.Lifecycle.{
  Quiet, held, ended, Writes, Steps, same, next, HasKey, Steps-trans, job_of-Writes, Steps-HasKey,
}
use claude_sessions.QueueRunner.Choice.{found_by_select}
use mathlib.Core.Option

pub save-Writes : (job : Job) (r : Runner) → Writes job r (save job r)
unfolding save
save-Writes job r = record { in_memory = refl; in_db = refl }

pub send_same :
    (n : Option Notice) (r : Runner) → ((send n r).jobs ≡ r.jobs) × ((send n r).db ≡ r.db)
unfolding send
send_same none r = (refl, refl)
send_same (some n) r = (refl, refl)

pub one_change :
    {C : Job → Job → Type 0} {job job' : Job} {r s : Runner}
    → job_of job.id r ≡ some job
    → C job job'
    → Writes job' r s
    → Steps C r s
one_change found change w = next (same refl refl) found change w

set_and_send :
    (b : Bool) (n : Option Notice) (job : Job) (r : Runner)
    → ((if b then send n (set_job job r) else set_job job r).jobs ≡ upsert job_id job r.jobs)
      × ((if b then send n (set_job job r) else set_job job r).db ≡ r.db)
unfolding set_job
set_and_send true n job r = send_same n _
set_and_send false n job r = (refl, refl)

pub told-id : (now : ℕ) (notify : Bool) (job : Job) → job.id ≡ (told now notify job).id
unfolding told
told-id now notify job = ground arith

module _ (c : Config) where
  pub finish_job-Writes :
      (now : ℕ) (state : JobState) (code : Option ExitCode) (notify : Bool) (job : Job) (r : Runner)
      → Writes
          (told now notify (finished now state code job))
          r
          (finish_job c now state code notify job r)
  unfolding finish_job save
  finish_job-Writes now state code notify job r = record {
    in_memory =
        rw (set_and_send tell note job' r).0
          (upsert-upsert job_id job' (told now notify job') r.jobs (told-id now notify job'));
    in_db = rw (set_and_send tell note job' r).1;
  }
    where
      job' : Job
      job' = finished now state code job

      tell : Bool
      tell = notify && not (is_some job.completion_notified_at)

      note : Option Notice
      note = Option.map (λ id. completed id job') (target c job)

  pub finish_job-Steps :
      (now : ℕ) (state : JobState) (code : Option ExitCode) (notify : Bool) (job : Job) (r : Runner)
      → job_of job.id r ≡ some job
      → is_terminal job.state ≡ false
      → is_terminal state ≡ true
      → Steps Quiet r (finish_job c now state code notify job r)
  finish_job-Steps now state code notify job r found live over =
      one_change found (ended job now state code notify live over)
        (finish_job-Writes now state code notify job r)

pub hold-Writes :
    (reason : HoldingReason) (job : Job) (r : Runner)
    → Writes (record job { holding_reason = some reason }) r (hold reason job r)
unfolding hold
hold-Writes reason job r = save-Writes _ r

pub hold-Steps :
    (reason : HoldingReason) (job : Job) (r : Runner)
    → job_of job.id r ≡ some job
    → job.state ≡ pending
    → Steps Quiet r (hold reason job r)
unfolding hold
hold-Steps reason job r found waits =
    one_change found (held job (some reason) waits) (save-Writes _ r)

abbrev pub IsHeldIn : Runner → Job → Type 0
IsHeldIn r job = job_of job.id r ≡ some job

-- A write of another job leaves these jobs as they are.
pub All-kept :
    {new : Job} {r s : Runner} (rest : List Job)
    → Writes new r s
    → fetch_one (λ j. str_eq (job_id j) new.id) rest ≡ none
    → All (IsHeldIn r) rest
    → All (IsHeldIn s) rest
unfolding fetch_one
All-kept [] w apart h = tt
All-kept {new} (j ∷ rest) w apart h = (
  ground (arith, job_of-Writes j.id w, str_eq_iff new.id j.id, str_eq_iff j.id new.id),
  All-kept rest w (ground arith) h.1,
)

mark_each-Steps :
    (reason : HoldingReason) (jobs : List Job) (r : Runner)
    → IsUnique job_id jobs
    → All (IsHeldIn r) jobs
    → Steps Quiet r (mark_each reason jobs r)
unfolding mark_each
mark_each-Steps reason [] r u h = same refl refl
mark_each-Steps reason (job ∷ jobs) r u h =
    elim (Bool-cases (is_pending job.state && not (same_reason reason job.holding_reason))) [
      | inl e ↦ rw e (
          Steps-trans (hold-Steps reason job r h.0 (ground arith)) (
            mark_each-Steps reason jobs (hold reason job r) u.1
              (All-kept jobs (hold-Writes reason job r) u.0 h.1)))
      | inr e ↦ rw e (mark_each-Steps reason jobs r u.1 h.1)
    ]

pub All-jobs : (r : Runner) → HasKey r → All (IsHeldIn r) r.jobs
All-jobs r u = All-of-Among (IsHeldIn r) r.jobs (λ job m. Among-fetch_one job_id job r.jobs u m)

pub mark_pending_holding-Steps :
    (reason : HoldingReason) (r : Runner) → HasKey r → Steps Quiet r (mark_pending_holding reason r)
unfolding mark_pending_holding
mark_pending_holding-Steps reason r u = mark_each-Steps reason r.jobs r u (All-jobs r u)

pub oldest_pending_found :
    (t : JobType) (r : Runner) (job : Job)
    → HasKey r
    → oldest_pending t r ≡ some job
    → (job_of job.id r ≡ some job) × (job.state ≡ pending)
unfolding oldest_pending
oldest_pending_found t r job u h =
    let (found, waits) = found_by_select (λ (job : Job). job.queued_at) (waits_as t) r job u h in
    (found, ground arith)

pub oldest_background_found :
    (r : Runner) (job : Job)
    → HasKey r
    → oldest_background r ≡ some job
    → (job_of job.id r ≡ some job) × (job.state ≡ running) × (runs_as background job ≡ true)
unfolding oldest_background
oldest_background_found r job u h =
    let (found, active) = found_by_select _ (runs_as background) r job u h in
    (found, ground arith, active)

module _ (c : Config) (m : Reading) where
  pub next_of-Steps :
      (types : List JobType) (r : Runner) → HasKey r → Steps Quiet r (next_of c m types r).0
  unfolding next_of
  next_of-Steps [] r u = same refl refl
  next_of-Steps (t ∷ types) r u = elim (Option-cases (oldest_pending t r)) [
    | inl e ↦ rw (e, next_of) (next_of-Steps types r u)
    | inr (job, e) ↦ elim (Option-cases (blocked c m t r)) [
      | inl free ↦ rw (e, free, next_of) (same refl refl)
      | inr (reason, why) ↦
          let (found, waits) = oldest_pending_found t r job u e in
          let step = hold-Steps reason job r found waits in
          rw (e, why, next_of)
            (Steps-trans step (next_of-Steps types (hold reason job r) (Steps-HasKey step u)))
    ]
  ]

  pub next_admissible_job-Steps :
      (r : Runner) → HasKey r → Steps Quiet r (next_admissible_job c m r).0
  unfolding next_admissible_job
  next_admissible_job-Steps r u = ground (
    arith,
    mark_pending_holding-Steps concurrency_cap r u,
    mark_pending_holding-Steps memory_pressure r u,
    next_of-Steps by_priority r u,
  )

  pub displace-Steps :
      (job : Job) (r : Runner)
      → job_of job.id r ≡ some job
      → job.state ≡ running
      → Steps Quiet r (terminate_job c m displaced job r)
  unfolding terminate_job
  displace-Steps job r found active =
      finish_job-Steps c m.now displaced m.exit_code true job r found (rw active) refl

  pub maybe_displace_for_perf-Steps :
      (r : Runner) → HasKey r → Steps Quiet r (maybe_displace_for_perf c m r).0
  unfolding maybe_displace_for_perf
  maybe_displace_for_perf-Steps r u = elim (Bool-cases (may_displace c m r)) [
    | inr e ↦ rw e (same refl refl)
    | inl e ↦ elim (Option-cases (oldest_background r)) [
      | inl none_runs ↦ rw (e, none_runs) (same refl refl)
      | inr (job, runs) ↦
          let (found, active, _) = oldest_background_found r job u runs in
          rw (e, runs) (displace-Steps job r found active)
    ]
  ]

  -- What the search for a candidate gives is a pending job of the runner that it leaves.
  pub next_of_found :
      (types : List JobType) (r : Runner) (job : Job)
      → HasKey r
      → (next_of c m types r).1 ≡ some job
      → (t : JobType) × (oldest_pending t (next_of c m types r).0 ≡ some job)
        × (blocked c m t (next_of c m types r).0 ≡ none)
  unfolding next_of
  next_of_found [] r job u h = absurd (ground arith)
  next_of_found (t ∷ types) r job u h = elim (Option-cases (oldest_pending t r)) [
    | inl e ↦ rw (e, next_of) (next_of_found types r job u (ground arith))
    | inr (old, e) ↦ elim (Option-cases (blocked c m t r)) [
      | inl free ↦ rw (e, free, next_of) (t, ground arith, free)
      | inr (reason, why) ↦
          let (found, waits) = oldest_pending_found t r old u e in
          let step = hold-Steps reason old r found waits in
          rw (e, why, next_of)
            (next_of_found types (hold reason old r) job (Steps-HasKey step u) (ground arith))
    ]
  ]
