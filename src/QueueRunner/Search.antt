-- ===== src/QueueRunner/Search.antt =====
-- How `_next_admissible_job_locked` goes through the types: a reason that it writes on a job of one
-- type is not seen by its search through the next.
use claude_sessions.Prelude.{
  ◌≡◌, refl, true, false, Option, none, some, List, [], ◌∷◌, All, arith, Option-cases, inl, inr,
  ◌∙◌,
}
use claude_sessions.Sql.{select, select-Among, select-upsert}
use claude_sessions.QueueRunner.Types.{
  JobType, perf, HoldingReason, Job, Config, Runner, Reading, same_type, pending,
}
use claude_sessions.QueueRunner.Gates.{
  job_id, job_of, runs_as, running_count_of, waits_as, oldest_pending,
}
use claude_sessions.QueueRunner.{hold, blocked, next_of}
use claude_sessions.QueueRunner.Lifecycle.{Writes, HasKey, Steps-HasKey, count-Writes}
use claude_sessions.QueueRunner.Traces.{hold-Writes, hold-Steps, oldest_pending_found}
use claude_sessions.QueueRunner.Choice.{min_by-Among}

-- A search through the types, told by what the code reads of each of them.
pub data Searched (c : Config) (m : Reading) (r : Runner) : List JobType → Option Job → Type 0 where
  no_types : Searched c m r [] none
  no_job :
      {t : JobType} {types : List JobType} {x : Option Job}
      → oldest_pending t r ≡ none
      → Searched c m r types x
      → Searched c m r (t ∷ types) x
  skipped :
      {t : JobType} {types : List JobType} {x : Option Job} (job : Job) (reason : HoldingReason)
      → oldest_pending t r ≡ some job
      → blocked c m t r ≡ some reason
      → Searched c m r types x
      → Searched c m r (t ∷ types) x
  taken_first :
      {t : JobType} {types : List JobType} (job : Job)
      → oldest_pending t r ≡ some job
      → blocked c m t r ≡ none
      → Searched c m r (t ∷ types) (some job)

-- Each type comes once, and perf first: only its gates read more than the counts.
abbrev pub IsRanked : List JobType → Type 0
IsRanked [] = Unit
IsRanked (t ∷ types) =
    All (λ u. (same_type t u ≡ false) × (same_type u perf ≡ false)) types × IsRanked types

-- A search sees the same of a type in both states.
abbrev pub SeesSame : Config → Reading → Runner → Runner → JobType → Type 0
SeesSame c m r s t = (oldest_pending t s ≡ oldest_pending t r) × (blocked c m t s ≡ blocked c m t r)

module _ (c : Config) (m : Reading) where
  -- A reason written on a job of one type is not seen by the search through the others.
  hold_unseen :
      (reason : HoldingReason) (t u : JobType) (job : Job) (r : Runner)
      → HasKey r
      → oldest_pending t r ≡ some job
      → same_type t u ≡ false
      → same_type u perf ≡ false
      → SeesSame c m r (hold reason job r) u
  unfolding oldest_pending blocked
  hold_unseen reason t u job r key e other not_perf =
      (rw (select_same) refl, rw (counts_same) (rw not_perf refl))
    where
      w : Writes (record job { holding_reason = some reason }) r (hold reason job r)
      w = hold-Writes reason job r

      found : job_of job.id r ≡ some job
      found = (oldest_pending_found t r job key e).0

      state_pending : job.state ≡ pending
      state_pending = (oldest_pending_found t r job key e).1

      job_waits : waits_as t job ≡ true
      job_waits =
          (select-Among (waits_as t) job r.jobs (min_by-Among (λ (j : Job). j.queued_at) _ job e)).1

      select_same : select (waits_as u) (hold reason job r).jobs ≡ select (waits_as u) r.jobs
      select_same = rw (w.in_memory) (
          select-upsert job_id (waits_as u) (record job { holding_reason = some reason }) job r.jobs
            found (ground (arith, job_waits)) (ground (arith, job_waits)))

      counts_same : running_count_of u (hold reason job r) ≡ running_count_of u r
      counts_same = let counted = count-Writes (runs_as u) found w in ground (arith, state_pending)

  pub next_of-Searched :
      (types : List JobType) (r s : Runner)
      → HasKey s
      → IsRanked types
      → All (SeesSame c m r s) types
      → Searched c m r types (next_of c m types s).1
  unfolding next_of
  next_of-Searched [] r s key ranked sees = no_types
  next_of-Searched (t ∷ types) r s key ranked sees = elim (Option-cases (oldest_pending t s)) [
    | inl e ↦
        rw (e, next_of)
          (no_job (ground (arith, sees.0.0)) (next_of-Searched types r s key ranked.1 sees.1))
    | inr (job, e) ↦ elim (Option-cases (blocked c m t s)) [
      | inl free ↦
          rw (e, free, next_of)
            (taken_first job (ground (arith, sees.0.0)) (ground (arith, sees.0.1)))
      | inr (reason, why) ↦
          let (found, waits) = oldest_pending_found t s job key e in
          let later_key = Steps-HasKey (hold-Steps reason job s found waits) key in
          rw (e, why, next_of)
            (skipped job reason (ground (arith, sees.0.0)) (ground (arith, sees.0.1)) (
              next_of-Searched types r (hold reason job s) later_key ranked.1
                (unseen_in reason job e types ranked.0 sees.1)))
    ]
  ]
    where
      unseen_in :
          (reason : HoldingReason) (job : Job)
          → oldest_pending t s ≡ some job
          → (rest : List JobType)
          → All (λ u. (same_type t u ≡ false) × (same_type u perf ≡ false)) rest
          → All (SeesSame c m r s) rest
          → All (SeesSame c m r (hold reason job s)) rest
      unseen_in reason job e [] apart same = tt
      unseen_in reason job e (u ∷ rest) apart same =
          let (waits_same, gates_same) = hold_unseen reason t u job s key e apart.0.0 apart.0.1 in
          (
            (waits_same ∙ same.0.0, gates_same ∙ same.0.1),
            unseen_in reason job e rest apart.1 same.1,
          )
