-- ===== src/QueueRunner/Soundness.antt =====
-- What every state of the queue runner keeps, and the calls that admit jobs.
use claude_sessions.Prelude.{
  ℕ, String, ◌≡◌, refl, Bool, false, none, some, arith, Bool-cases, Option-cases, inl, inr,
}
use claude_sessions.Sql.{count, count-upsert, exists}
use claude_sessions.QueueRunner.Types.{
  pending, is_pending, Job, Config, Runner, Reading, Admission, done, raised, out_of_fuel, queued,
}
use claude_sessions.QueueRunner.Gates.{
  job_id, job_of, save, runs, runs_as, running_count, running_count_of,
}
use claude_sessions.QueueRunner.{admit_jobs, send, target}
use claude_sessions.QueueRunner.Lifecycle.{
  Quiet, announced, Change, Writes, Steps, same, HasKey, IsSaved, Steps-trans, Steps-Quiet,
  Steps-end, Steps-HasKey, Steps-IsSaved, Writes-HasKey, Writes-IsSaved,
}
use claude_sessions.QueueRunner.Traces.{save-Writes, send_same, one_change}
use claude_sessions.QueueRunner.Launch.{IsWithinLimits, Quiet-IsWithinLimits}
use claude_sessions.QueueRunner.Limits.{admitted, admit_jobs-IsWithinLimits, admit_jobs-Steps}
use claude_sessions.QueueRunner.Calls.{scheduler_round, announce_queued, create_job, schedule}
use claude_sessions.QueueRunner.CallTraces.{job_of_self, schedule_same}
use mathlib.Core.Option

-- The identifiers are distinct, the table holds what the memory holds, and the limits are kept.
pub record IsSound (c : Config) (r : Runner) : Type 0 where
  pub key : HasKey r
  pub saved : IsSaved r
  pub limits : IsWithinLimits c r

module _ (c : Config) where
  pub Quiet-IsSound : {r s : Runner} → Steps Quiet r s → IsSound c r → IsSound c s
  Quiet-IsSound run h = record {
    key = Steps-HasKey run h.key;
    saved = Steps-IsSaved run h.saved;
    limits = Quiet-IsWithinLimits c run h.limits;
  }

  announce_queued-Steps :
      (now : ℕ) (id : String) (r : Runner) → Steps Quiet r (announce_queued c now id r)
  unfolding announce_queued
  announce_queued-Steps now id r = elim (Option-cases (job_of id r)) [
    | inl e ↦ rw (e, announce_queued) (same refl refl)
    | inr (job, e) ↦ elim (Bool-cases (is_pending job.state)) [
      | inr idle ↦ rw (e, idle, announce_queued) (same refl refl)
      | inl waits ↦
          let new : Job = record job { queued_notified_at = some now } in
          let note = Option.map (λ to. queued to job) (target c job) in
          let quiet_start : Steps Quiet r (schedule r) =
            Steps-end (same {s = r} refl refl) (schedule_same r).0 (schedule_same r).1 in
          let write : Writes new r (save new (send note r)) = record {
            in_memory = rw ((save-Writes new (send note r)).in_memory, (send_same note r).0) refl;
            in_db = rw ((save-Writes new (send note r)).in_db, (send_same note r).1) refl;
          } in
          let told : Steps Quiet r (save new (send note r)) =
            one_change (job_of_self id r job e) (announced job now (ground arith)) write in
          let end : Steps Quiet r (schedule (save new (send note r))) =
            Steps-end told (schedule_same (save new (send note r))).0
              (schedule_same (save new (send note r))).1 in
          ground (arith, quiet_start, end)
    ]
  ]

  -- A new pending job takes no place.
  pub save_new :
      (job : Job) (r : Runner)
      → job_of job.id r ≡ none
      → job.state ≡ pending
      → IsSound c r
      → IsSound c (save job r)
  save_new job r new waits h = record {
    key = Writes-HasKey w h.key;
    saved = Writes-IsSaved w h.saved;
    limits = record {
      total =
          let same_total : running_count (save job r) ≡ running_count r =
            no_more runs (ground arith) in
          omega (arith, h.limits.total);
      of_type = λ t.
          let same_count : running_count_of t (save job r) ≡ running_count_of t r =
            no_more (runs_as t) (ground arith) in
          omega (arith, h.limits.of_type t);
    };
  }
    where
      w : Writes job r (save job r)
      w = save-Writes job r

      no_more : (p : Job → Bool) → p job ≡ false → count p (save job r).jobs ≡ count p r.jobs
      no_more p off =
          let counted = count-upsert job_id p job r.jobs in rw (w.in_memory) (ground arith)

  pub create_job-Steps :
      (env : ℕ → Reading) (fuel later : ℕ) (job : Job) (r : Runner)
      → HasKey (save job r)
      → Steps Change (save job r) (create_job c env fuel later job r)
  unfolding create_job
  create_job-Steps env fuel later job r u =
      announced_after (admit_jobs c env fuel (save job r))
        (admit_jobs-Steps c env fuel (save job r) u)
    where
      announced_after :
          (x : Admission)
          → Steps Change (save job r) (admitted x)
          → Steps Change (save job r) (elim x [
            | done changed s ↦ announce_queued c later job.id s
            | raised s ↦ s
            | out_of_fuel s ↦ s
          ])
      announced_after (done changed s) run =
          Steps-trans run (Steps-Quiet (announce_queued-Steps later job.id s))
      announced_after (raised s) run = run
      announced_after (out_of_fuel s) run = run

  pub create_job-limits :
      (env : ℕ → Reading) (fuel later : ℕ) (job : Job) (r : Runner)
      → HasKey (save job r)
      → IsWithinLimits c (save job r)
      → IsWithinLimits c (create_job c env fuel later job r)
  unfolding create_job
  create_job-limits env fuel later job r u l =
      limits_after (admit_jobs c env fuel (save job r))
        (admit_jobs-IsWithinLimits c env fuel (save job r) u l)
    where
      limits_after :
          (x : Admission)
          → IsWithinLimits c (admitted x)
          → IsWithinLimits c (elim x [
            | done changed s ↦ announce_queued c later job.id s
            | raised s ↦ s
            | out_of_fuel s ↦ s
          ])
      limits_after (done changed s) h =
          Quiet-IsWithinLimits c (announce_queued-Steps later job.id s) h
      limits_after (raised s) h = h
      limits_after (out_of_fuel s) h = h

  scheduler_round_same :
      (env : ℕ → Reading) (fuel : ℕ) (r : Runner)
      → ((scheduler_round c env fuel r).jobs ≡ (admitted (admit_jobs c env fuel r)).jobs)
        × ((scheduler_round c env fuel r).db ≡ (admitted (admit_jobs c env fuel r)).db)
  unfolding scheduler_round
  scheduler_round_same env fuel r = of_admission (admit_jobs c env fuel r)
    where
      end_round : Admission → Runner
      end_round x = elim x [
        | done changed s ↦ record s { scheduled = exists (λ job. is_pending job.state) s.jobs }
        | raised s ↦ record s { scheduled = false }
        | out_of_fuel s ↦ s
      ]

      of_admission :
          (x : Admission)
          → ((end_round x).jobs ≡ (admitted x).jobs) × ((end_round x).db ≡ (admitted x).db)
      of_admission (done changed s) = (refl, refl)
      of_admission (raised s) = (refl, refl)
      of_admission (out_of_fuel s) = (refl, refl)

  pub scheduler_round-Steps :
      (env : ℕ → Reading) (fuel : ℕ) (r : Runner)
      → HasKey r
      → Steps Change r (scheduler_round c env fuel r)
  scheduler_round-Steps env fuel r u =
      let (jobs_same, db_same) = scheduler_round_same env fuel r in
      Steps-end (admit_jobs-Steps c env fuel r u) jobs_same db_same

  pub scheduler_round-limits :
      (env : ℕ → Reading) (fuel : ℕ) (r : Runner)
      → HasKey r
      → IsWithinLimits c r
      → IsWithinLimits c (scheduler_round c env fuel r)
  scheduler_round-limits env fuel r u l =
      let (jobs_same, db_same) = scheduler_round_same env fuel r in
      Quiet-IsWithinLimits c
        (Steps-end (same {s = admitted (admit_jobs c env fuel r)} refl refl) jobs_same db_same)
        (admit_jobs-IsWithinLimits c env fuel r u l)
