-- ===== src/QueueRunner/CallTraces.antt =====
-- Each call that ends a job is a sequence of changes of single jobs, written as they are made.
use claude_sessions.Prelude.{
  String, ◌≡◌, refl, ◌∙◌, [], ◌∷◌, ◌++◌, Bool, true, false, not, Option, none, some, arith,
  str_eq_iff, is_some, Bool-cases, Option-cases, inl, inr,
}
use claude_sessions.Sql.{fetch_one_sound}
use claude_sessions.QueueRunner.Types.{
  JobState, cancelled, timed_out, failed, ExitCode, is_terminal, is_pending, is_running, Job,
  Config, Runner, Reading,
}
use claude_sessions.QueueRunner.Gates.{job_of, has_id, runs}
use claude_sessions.QueueRunner.{finish_job, terminate_job}
use claude_sessions.QueueRunner.Lifecycle.{Quiet, Steps, same, Steps-end}
use claude_sessions.QueueRunner.Traces.{finish_job-Steps}
use claude_sessions.QueueRunner.Calls.{
  end_wait, verdict, cancel_job, forget, wait_for_job, Sighting, recover_running_job,
  poll_recovered_job, schedule, leave,
}

pub job_of_self :
    (id : String) (r : Runner) (job : Job) → job_of id r ≡ some job → job_of job.id r ≡ some job
job_of_self id r job h =
    let is_id : job.id ≡ id = (str_eq_iff job.id id).0 (fetch_one_sound (has_id id) r.jobs job h) in
    let same_job : job_of job.id r ≡ job_of id r = rw is_id refl in same_job ∙ h

verdict-is_terminal : (code : Option ExitCode) → is_terminal (verdict code) ≡ true
unfolding verdict
verdict-is_terminal code = ground arith

is_running_live : (s : JobState) → is_running s ≡ true → is_terminal s ≡ false
is_running_live s h = ground arith

pub schedule_same : (r : Runner) → ((schedule r).jobs ≡ r.jobs) × ((schedule r).db ≡ r.db)
unfolding schedule
schedule_same r = ground arith

forget-Steps : (id : String) (r s : Runner) → Steps Quiet r s → Steps Quiet r (forget id s)
unfolding forget
forget-Steps id r s run = Steps-end run (schedule_same _).0 (schedule_same _).1

leave-Steps : (id : String) (r s : Runner) → Steps Quiet r s → Steps Quiet r (leave id s)
unfolding leave
leave-Steps id r s run = Steps-end run (schedule_same _).0 (schedule_same _).1

unchanged : (r : Runner) → Steps Quiet r r
unchanged r = same refl refl

module _ (c : Config) (m : Reading) where
  pub cancel_job-Steps : (id : String) (r : Runner) → Steps Quiet r (cancel_job c m id r)
  unfolding cancel_job terminate_job
  cancel_job-Steps id r = elim (Option-cases (job_of id r)) [
    | inl e ↦ rw (e, cancel_job) (same refl refl)
    | inr (job, e) ↦ elim (Bool-cases (is_terminal job.state)) [
      | inl over ↦ rw (e, over, cancel_job) (same refl refl)
      | inr live ↦ elim (Bool-cases (is_pending job.state)) [
        | inl waits ↦
            rw (e, live, waits, cancel_job)
              (finish_job-Steps c m.now cancelled none true job r (job_of_self id r job e) live
                refl)
        | inr active ↦
            rw (e, live, active, cancel_job)
              (finish_job-Steps c m.now cancelled m.exit_code true job r (job_of_self id r job e)
                live refl)
      ]
    ]
  ]

  ended_by :
      (id : String) (r : Runner) (job : Job) (state : JobState) (code : Option ExitCode)
      (notify : Bool)
      → job_of id r ≡ some job
      → is_running job.state ≡ true
      → is_terminal state ≡ true
      → Steps Quiet r (finish_job c m.now state code notify job r)
  ended_by id r job state code notify e runs over =
      finish_job-Steps c m.now state code notify job r (job_of_self id r job e)
        (is_running_live job.state runs) over

  end_wait-Steps :
      (ended : Option ExitCode) (id : String) (r : Runner) → Steps Quiet r (end_wait c m ended id r)
  unfolding end_wait terminate_job
  end_wait-Steps ended id r = elim (Option-cases (job_of id r)) [
    | inl e ↦ rw (e, end_wait) (unchanged r)
    | inr (job, e) ↦ elim (Bool-cases (is_running job.state)) [
      | inl active ↦ ground (
        arith,
        unchanged r,
        ended_by id r job (verdict ended) ended true e active (verdict-is_terminal ended),
        ended_by id r job timed_out m.exit_code true e active refl,
      )
      | inr idle ↦ ground (arith, unchanged r)
    ]
  ]

  pub wait_for_job-Steps :
      (ended : Option ExitCode) (id : String) (r : Runner)
      → Steps Quiet r (wait_for_job c m ended id r)
  unfolding wait_for_job
  wait_for_job-Steps ended id r =
      forget-Steps id r (end_wait c m ended id r) (end_wait-Steps ended id r)

  pub recover_running_job-Steps :
      (seen : Sighting) (job : Job) (r : Runner)
      → job_of job.id r ≡ some job
      → is_running job.state ≡ true
      → Steps Quiet r (recover_running_job c m seen job r)
  unfolding recover_running_job terminate_job
  recover_running_job-Steps seen job r e active =
      let first = not (is_some job.completion_notified_at) in
      let kept : Steps Quiet r (record r { waits = r.waits ++ job.id ∷ [] }) = same refl refl in
      ground (
        arith,
        kept,
        ended_by job.id r job (verdict m.exit_code) m.exit_code first e active
            (verdict-is_terminal m.exit_code),
        ended_by job.id r job timed_out m.exit_code true e active refl,
        ended_by job.id r job failed none first e active refl,
      )

  pub poll_recovered_job-Steps :
      (seen : Sighting) (id : String) (r : Runner)
      → Steps Quiet r (poll_recovered_job c m seen id r)
  unfolding poll_recovered_job terminate_job
  poll_recovered_job-Steps seen id r = elim (Option-cases (job_of id r)) [
    | inl e ↦ rw (e, poll_recovered_job) (leave-Steps id r r (unchanged r))
    | inr (job, e) ↦ elim (Bool-cases (is_running job.state)) [
      | inr idle ↦ rw (e, idle, poll_recovered_job) (leave-Steps id r r (unchanged r))
      | inl active ↦
          let first = not (is_some job.completion_notified_at) in
          ground (
            arith,
            unchanged r,
            leave-Steps id r _ (
                ended_by id r job (verdict m.exit_code) m.exit_code first e active
                  (verdict-is_terminal m.exit_code)),
            leave-Steps id r _ (ended_by id r job timed_out m.exit_code true e active refl),
            leave-Steps id r _ (ended_by id r job failed none first e active refl),
          )
    ]
  ]
