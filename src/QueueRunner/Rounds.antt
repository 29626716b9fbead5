-- ===== src/QueueRunner/Rounds.antt =====
-- One round of admission: what it changes, and that it stays within the limits.
use claude_sessions.Prelude.{
  ◌<◌, ◌≡◌, refl, true, false, none, some, arith, Bool-cases, Option-cases, inl, inr,
}
use claude_sessions.QueueRunner.Types.{JobType, pending, Job, Config, Runner, Reading, same_type}
use claude_sessions.QueueRunner.Gates.{
  job_of, runs, runs_as, running_count, running_count_of, oldest_pending, memory_gate_passes,
  waits_as,
}
use claude_sessions.QueueRunner.{
  start_job, blocked, next_of, next_admissible_job, maybe_displace_for_perf, may_displace,
  oldest_background, release, Round, again, stop, fault, admit_round, search_round, by_priority,
}
use claude_sessions.QueueRunner.Lifecycle.{
  Quiet, Change, launch, Steps, next, HasKey, Steps-trans, Steps-Quiet, Steps-HasKey, Steps-count,
}
use claude_sessions.QueueRunner.Traces.{
  oldest_background_found, next_admissible_job-Steps, maybe_displace_for_perf-Steps, next_of_found,
}
use claude_sessions.QueueRunner.Choice.{found_by_select}
use claude_sessions.QueueRunner.Launch.{
  IsWithinLimits, runs_drops, runs_as_drops, Quiet-IsWithinLimits, release-Steps, release_found,
  start_job-Writes, launch-IsWithinLimits, after, work, Quiet-work, goes_on, launched-work,
  terminated-work,
}

pub record IsRound (c : Config) (r : Runner) (x : Round) : Type 0 where
  pub steps : Steps Change r (after x)
  pub limits : IsWithinLimits c r → IsWithinLimits c (after x)
  pub progress : goes_on x ≡ true → work (after x) < work r

module _ (c : Config) (m : Reading) where
  -- A candidate is given only if there is room for one more job.
  next_admissible_job_open :
      (r : Runner) (job : Job)
      → (next_admissible_job c m r).1 ≡ some job
      → (running_count r < c.max_running_jobs)
        × (memory_gate_passes c m ≡ true)
        × (next_admissible_job c m r ≡ next_of c m by_priority r)
  unfolding next_admissible_job
  next_admissible_job_open r job h = ground arith

  -- The candidate is a pending job, and there is room for one more of its type.
  candidate_found :
      (t : JobType) (r : Runner) (job : Job)
      → HasKey r
      → oldest_pending t r ≡ some job
      → blocked c m t r ≡ none
      → (job_of job.id r ≡ some job)
        × (job.state ≡ pending)
        × (same_type job.type t ≡ true)
        × (running_count_of t r < c.max_concurrent t)
  unfolding oldest_pending blocked
  candidate_found t r job u h free =
      let (found, passes) = found_by_select (λ (j : Job). j.queued_at) (waits_as t) r job u h in
      (found, ground arith, ground arith, ground arith)

  displace-work :
      (r : Runner)
      → HasKey r
      → (maybe_displace_for_perf c m r).1 ≡ true
      → work (maybe_displace_for_perf c m r).0 < work r
  unfolding maybe_displace_for_perf
  displace-work r u h = elim (Bool-cases (may_displace c m r)) [
    | inr e ↦ absurd (ground arith)
    | inl e ↦ elim (Option-cases (oldest_background r)) [
      | inl e' ↦ absurd (ground arith)
      | inr (job, e') ↦
          let (found, active, passes) = oldest_background_found r job u e' in
          rw (e, e') (terminated-work c m job r found passes)
    ]
  ]

  displace-IsRound :
      (r : Runner)
      → HasKey r
      → (maybe_displace_for_perf c m r).1 ≡ true
      → IsRound c r (again (maybe_displace_for_perf c m r).0)
  displace-IsRound r u h = record {
    steps = Steps-Quiet (maybe_displace_for_perf-Steps c m r u);
    limits = λ w. Quiet-IsWithinLimits c (maybe_displace_for_perf-Steps c m r u) w;
    progress = λ _. displace-work r u h;
  }

  launch-IsRound :
      (t : JobType) (job : Job) (r q s : Runner)
      → HasKey q
      → Steps Quiet r q
      → oldest_pending t q ≡ some job
      → blocked c m t q ≡ none
      → running_count r < c.max_running_jobs
      → start_job c m (record job { holding_reason = none }) (release job q) ≡ some s
      → IsRound c r (again s)
  launch-IsRound t job r q s u run h free room e =
      let (found, pend, of_t, room_t) = candidate_found t q job u h free in
      let freed = release-Steps job q found pend in
      let before = Steps-trans run freed in
      let found' = release_found job q found in
      let (pid, w) =
        start_job-Writes c m (record job { holding_reason = none }) (release job q) s e in
      record {
        steps =
            next (Steps-Quiet before) found'
              (launch (record job { holding_reason = none }) m.now pid pend) w;
        limits = λ l.
            launch-IsWithinLimits c pid m.now (record job { holding_reason = none }) t
              (release job q) s found' pend of_t (Quiet-IsWithinLimits c before l)
              (omega (arith, Steps-count runs runs_drops before))
              (omega (arith, Steps-count (runs_as t) (runs_as_drops t) freed)) w;
        progress = λ _. omega (
          arith,
          Quiet-work before,
          launched-work pid m.now (record job { holding_reason = none }) (release job q) s found'
              pend w,
        );
      }

  stop-IsRound :
      (r q : Runner)
      → Steps Quiet r q
      → (x : Round) → goes_on x ≡ false
      → after x ≡ q
      → IsRound c r x
  stop-IsRound r q run x ends e = record {
    steps = rw e (Steps-Quiet run);
    limits = λ l. rw e (Quiet-IsWithinLimits c run l);
    progress = λ on. absurd (ground arith);
  }

  candidate-IsRound :
      (t : JobType) (job : Job) (r q : Runner)
      → HasKey q
      → Steps Quiet r q
      → oldest_pending t q ≡ some job
      → blocked c m t q ≡ none
      → running_count r < c.max_running_jobs
      → IsRound c r (elim (start_job c m (record job { holding_reason = none }) (release job q)) [
        | none ↦ fault (release job q)
        | some s ↦ again s
      ])
  candidate-IsRound t job r q u run h free room =
      elim (Option-cases (start_job c m (record job { holding_reason = none }) (release job q))) [
        | inl e ↦
            let (found, pend, _, _) = candidate_found t q job u h free in
            rw e (
              stop-IsRound r (release job q) (Steps-trans run (release-Steps job q found pend))
                (fault (release job q)) refl refl)
        | inr (s, e) ↦ rw e (launch-IsRound t job r q s u run h free room e)
      ]

  search_round-IsRound : (r : Runner) → HasKey r → IsRound c r (search_round c m r)
  unfolding search_round
  search_round-IsRound r u =
      let run = next_admissible_job-Steps c m r u in
      elim (Option-cases (next_admissible_job c m r).1) [
        | inl e ↦
            rw (e, search_round)
              (stop-IsRound r (next_admissible_job c m r).0 run (stop (next_admissible_job c m r).0)
                refl refl)
        | inr (job, e) ↦
            let (room, _, opened) = next_admissible_job_open r job e in
            let (t, h, free) = next_of_found c m by_priority r job u (rw opened at e) in
            rw (e, search_round)
              (candidate-IsRound t job r (next_admissible_job c m r).0 (Steps-HasKey run u) run
                (rw opened h) (rw opened free) room)
      ]

undisplaced :
    (c : Config) (m : Reading) (r : Runner)
    → (maybe_displace_for_perf c m r).1 ≡ false
    → (maybe_displace_for_perf c m r).0 ≡ r
unfolding maybe_displace_for_perf
undisplaced c m r h = ground arith

-- Every round is one, from a runner whose jobs have distinct identifiers.
pub admit_round-IsRound :
    (c : Config) (m n : Reading) (r : Runner) → HasKey r → IsRound c r (admit_round c m n r)
unfolding admit_round
admit_round-IsRound c m n r u = elim (Bool-cases (maybe_displace_for_perf c m r).1) [
  | inl e ↦ rw e (displace-IsRound c m r u e)
  | inr e ↦ rw e (rw (undisplaced c m r e) (search_round-IsRound c n r u))
]
