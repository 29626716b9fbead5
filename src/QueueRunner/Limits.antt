-- ===== src/QueueRunner/Limits.antt =====
-- The whole of an admission: that it ends, and what holds when it does.
use claude_sessions.Prelude.{
  ℕ, zero, suc, ◌+◌, ◌*◌, ◌<◌, ◌≡◌, refl, Bool, true, false, arith, String, some,
}
use claude_sessions.QueueRunner.Types.{
  Job, Config, Runner, Reading, Admission, done, raised, out_of_fuel, is_terminal,
}
use claude_sessions.QueueRunner.Gates.{job_of}
use claude_sessions.QueueRunner.{Round, again, stop, fault, admit_round, admit_from, admit_jobs}
use claude_sessions.QueueRunner.Lifecycle.{
  Change, Steps, same, HasKey, IsSaved, Steps-trans, Steps-HasKey, Steps-IsSaved, Steps-terminal,
}
use claude_sessions.QueueRunner.Launch.{IsWithinLimits, work}
use claude_sessions.QueueRunner.Rounds.{IsRound, admit_round-IsRound}

abbrev pub admitted : Admission → Runner
admitted (done changed r) = r
admitted (raised r) = r
admitted (out_of_fuel r) = r

abbrev pub ran_out : Admission → Bool
ran_out (out_of_fuel r) = true
ran_out _ = false

module _ (c : Config) (env : ℕ → Reading) where
  record IsAdmission (r : Runner) (x : Admission) : Type 0 where
    steps : Steps Change r (admitted x)
    limits : IsWithinLimits c r → IsWithinLimits c (admitted x)

  admit_from-IsAdmission :
      (fuel i : ℕ) (changed : Bool) (r : Runner)
      → HasKey r
      → IsAdmission r (admit_from c env fuel i changed r)
  unfolding admit_from
  admit_from-IsAdmission zero i changed r u = record { steps = same refl refl; limits = λ l. l }
  admit_from-IsAdmission (suc fuel) i changed r u =
      next_round (admit_round c (env (2 * i)) (env (2 * i + 1)) r)
        (admit_round-IsRound c (env (2 * i)) (env (2 * i + 1)) r u)
        (λ s b. admit_from-IsAdmission fuel (i + 1) b s)
    where
      next_round :
          (x : Round)
          → IsRound c r x
          → ((s : Runner) (b : Bool) → HasKey s → IsAdmission s (admit_from c env fuel (i + 1) b s))
          → IsAdmission r (elim x [
            | again s ↦ admit_from c env fuel (i + 1) true s
            | stop s ↦ done changed s
            | fault s ↦ raised s
          ])
      next_round (again s) h rest =
          let more = rest s true (Steps-HasKey h.steps u) in
          record { steps = Steps-trans h.steps more.steps; limits = λ l. more.limits (h.limits l) }
      next_round (stop s) h rest = record { steps = h.steps; limits = h.limits }
      next_round (fault s) h rest = record { steps = h.steps; limits = h.limits }

  admit_from_ends :
      (fuel i : ℕ) (changed : Bool) (r : Runner)
      → HasKey r
      → work r < fuel
      → ran_out (admit_from c env fuel i changed r) ≡ false
  unfolding admit_from
  admit_from_ends zero i changed r u h = absurd (omega arith)
  admit_from_ends (suc fuel) i changed r u h =
      next_round (admit_round c (env (2 * i)) (env (2 * i + 1)) r)
        (admit_round-IsRound c (env (2 * i)) (env (2 * i + 1)) r u)
        (λ s. admit_from_ends fuel (i + 1) true s)
    where
      next_round :
          (x : Round)
          → IsRound c r x
          → ((s : Runner)
              → HasKey s
              → work s < fuel
              → ran_out (admit_from c env fuel (i + 1) true s) ≡ false)
          → ran_out (elim x [
            | again s ↦ admit_from c env fuel (i + 1) true s
            | stop s ↦ done changed s
            | fault s ↦ raised s
          ])
            ≡ false
      next_round (again s) x rest =
          let less = x.progress refl in rest s (Steps-HasKey x.steps u) (omega arith)
      next_round (stop s) x rest = refl
      next_round (fault s) x rest = refl

  -- If the identifiers of the jobs are distinct, the loop of admission ends, whatever the clock,
  -- the memory and the processes do: fuel above twice the number of pending jobs plus the number
  -- of running background jobs does not run out.
  pub admit_jobs_ends :
      (fuel : ℕ) (r : Runner) → HasKey r → work r < fuel → ran_out (admit_jobs c env fuel r) ≡ false
  unfolding admit_jobs
  admit_jobs_ends fuel r u h = admit_from_ends fuel 0 false r u h

  -- Admission does not take a runner with distinct identifiers and within its limits beyond them:
  -- the number of running jobs, and of each type, stays within the configuration, also when a job
  -- is displaced or a process cannot be made.
  pub admit_jobs-IsWithinLimits :
      (fuel : ℕ) (r : Runner)
      → HasKey r
      → IsWithinLimits c r
      → IsWithinLimits c (admitted (admit_jobs c env fuel r))
  unfolding admit_jobs
  admit_jobs-IsWithinLimits fuel r u l = (admit_from-IsAdmission fuel 0 false r u).limits l

  pub admit_jobs-Steps :
      (fuel : ℕ) (r : Runner) → HasKey r → Steps Change r (admitted (admit_jobs c env fuel r))
  unfolding admit_jobs
  admit_jobs-Steps fuel r u = (admit_from-IsAdmission fuel 0 false r u).steps

  -- If the identifiers are distinct and the table holds exactly what the memory holds, it does so
  -- after admission, and a job that had ended is as it was.
  pub admit_jobs_durable :
      (fuel : ℕ) (r : Runner) (id : String) (job : Job)
      → HasKey r
      → IsSaved r
      → job_of id r ≡ some job
      → is_terminal job.state ≡ true
      → IsSaved (admitted (admit_jobs c env fuel r))
        × (job_of id (admitted (admit_jobs c env fuel r)) ≡ some job)
  admit_jobs_durable fuel r id job u saved h over =
      let run = admit_jobs-Steps fuel r u in
      (Steps-IsSaved run saved, Steps-terminal id job run over h)
