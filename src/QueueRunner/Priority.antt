-- ===== src/QueueRunner/Priority.antt =====
-- Which job `_next_admissible_job_locked` gives, and which jobs it passes over.
use claude_sessions.Prelude.{
  leb→le, Bool-cases, ◌⊎◌, ℕ, ◌≤◌, ◌<◌, ◌≡◌, refl, true, false, Option, none, some, List, [], ◌∷◌,
  Among, Among-All, arith, leb, inl, inr,
}
use claude_sessions.Sql.{select, Among-select, select-Among}
use claude_sessions.QueueRunner.Types.{
  JobState, is_pending, tests, background, running, succeeded, failed, timed_out, cancelled,
  displaced, JobType, perf, HoldingReason, Job, Config, Runner, Reading, same_type, pending,
}
use claude_sessions.QueueRunner.Gates.{
  min_by, perf_cooldown_active, perf_blocked_by_tests_after_perf, running_count, running_count_of,
  waits_as, oldest_pending, memory_gate_passes,
}
use claude_sessions.QueueRunner.{blocked, by_priority, next_admissible_job}
use claude_sessions.QueueRunner.Lifecycle.{HasKey}
use claude_sessions.QueueRunner.Choice.{min_by-least, min_by-Among}
use claude_sessions.QueueRunner.Search.{
  Searched, no_types, no_job, skipped, taken_first, next_of-Searched, IsRanked,
}

-- A job waits that has this type.
abbrev pub IsWaiting : JobType → Job → Type 0
IsWaiting t job = (job.state ≡ pending) × (job.type ≡ t)

-- A job of the runner that waits, and no job of its type that waits was queued before it.
pub record IsOldest (t : JobType) (r : Runner) (job : Job) : Type 0 where
  pub present : Among job r.jobs
  pub is_waiting : IsWaiting t job
  pub first_queued :
      (other : Job) → Among other r.jobs → IsWaiting t other → job.queued_at ≤ other.queued_at

-- As many jobs of the type run as may, or it is perf and perf has to wait for the machine to cool
-- or for tests.
abbrev pub IsBlocked : Config → Reading → Runner → JobType → Type 0
IsBlocked c m r t =
    (c.max_concurrent t ≤ running_count_of t r)
    ⊎ ((t ≡ perf)
        × ((perf_cooldown_active c m.now r ≡ true) ⊎ (perf_blocked_by_tests_after_perf r ≡ true)))

abbrev pub IsFree : Config → Reading → Runner → JobType → Type 0
IsFree c m r t =
    (running_count_of t r < c.max_concurrent t)
    × ((t ≡ perf)
        → (perf_cooldown_active c m.now r ≡ false) × (perf_blocked_by_tests_after_perf r ≡ false))

-- What a search through the types has to give. A type of which no job waits, or that is blocked, is
-- passed over; the oldest waiting job of the first other type is taken.
pub data Chosen (c : Config) (m : Reading) (r : Runner) : List JobType → Option Job → Type 0 where
  exhausted : Chosen c m r [] none
  none_waits :
      {t : JobType} {types : List JobType} {x : Option Job}
      → ((job : Job) → Among job r.jobs → ¬ (IsWaiting t job))
      → Chosen c m r types x
      → Chosen c m r (t ∷ types) x
  passed_over :
      {t : JobType} {types : List JobType} {x : Option Job} (job : Job)
      → IsOldest t r job
      → IsBlocked c m r t
      → Chosen c m r types x
      → Chosen c m r (t ∷ types) x
  taken :
      {t : JobType} {types : List JobType} (job : Job)
      → IsOldest t r job
      → IsFree c m r t
      → Chosen c m r (t ∷ types) (some job)

-- The oldest pending job of a type is a job of that type that waits, and no job of that type that
-- waits was queued before it.
oldest_pending-least :
    (t : JobType) (r : Runner) (job other : Job)
    → oldest_pending t r ≡ some job
    → Among other r.jobs
    → waits_as t other ≡ true
    → Among job r.jobs × (waits_as t job ≡ true) × (job.queued_at ≤ other.queued_at)
unfolding oldest_pending
oldest_pending-least t r job other h there waits =
    let queued_by : Job → ℕ = λ (j : Job). j.queued_at in
    let (job_there, job_waits) =
      select-Among (waits_as t) job r.jobs (min_by-Among queued_by _ job h) in
    (
      job_there,
      job_waits,
      Among-All (λ (j : Job). job.queued_at ≤ j.queued_at) (select (waits_as t) r.jobs) other
          (min_by-least queued_by (select (waits_as t) r.jobs) job h)
          (Among-select (waits_as t) other r.jobs there waits),
    )

same_type_refl : (t : JobType) → same_type t t ≡ true
same_type_refl perf = refl
same_type_refl tests = refl
same_type_refl background = refl

same_type_sound : (t u : JobType) → same_type t u ≡ true → t ≡ u
same_type_sound perf perf h = refl
same_type_sound tests tests h = refl
same_type_sound background background h = refl
same_type_sound perf tests h = absurd (ground arith)
same_type_sound perf background h = absurd (ground arith)
same_type_sound tests perf h = absurd (ground arith)
same_type_sound tests background h = absurd (ground arith)
same_type_sound background perf h = absurd (ground arith)
same_type_sound background tests h = absurd (ground arith)

is_pending_sound : (s : JobState) → is_pending s ≡ true → s ≡ pending
is_pending_sound pending h = refl
is_pending_sound running h = absurd (ground arith)
is_pending_sound succeeded h = absurd (ground arith)
is_pending_sound failed h = absurd (ground arith)
is_pending_sound timed_out h = absurd (ground arith)
is_pending_sound cancelled h = absurd (ground arith)
is_pending_sound displaced h = absurd (ground arith)

waits_as-IsWaiting : (t : JobType) (job : Job) → waits_as t job ≡ true → IsWaiting t job
waits_as-IsWaiting t job h =
    (is_pending_sound job.state (ground arith), same_type_sound job.type t (ground arith))

IsWaiting-waits_as : (t : JobType) (job : Job) → IsWaiting t job → waits_as t job ≡ true
IsWaiting-waits_as t job h = rw (h.0, h.1) (same_type_refl t)

oldest_pending-IsOldest :
    (t : JobType) (r : Runner) (job : Job) → oldest_pending t r ≡ some job → IsOldest t r job
unfolding oldest_pending
oldest_pending-IsOldest t r job h =
    let (there, waits) =
      select-Among (waits_as t) job r.jobs (min_by-Among (λ (j : Job). j.queued_at) _ job h) in
    record {
      present = there;
      is_waiting = waits_as-IsWaiting t job waits;
      first_queued =
          λ other m w. (oldest_pending-least t r job other h m (IsWaiting-waits_as t other w)).2;
    }

min_by-none :
    (rows : List Job) (job : Job)
    → min_by (λ (j : Job). j.queued_at) rows ≡ none
    → ¬ (Among job rows)
unfolding min_by
min_by-none [] job h m = m
min_by-none (r ∷ rows) job h m = absurd (ground arith)

oldest_pending-none_waits :
    (t : JobType) (r : Runner)
    → oldest_pending t r ≡ none
    → (job : Job) → Among job r.jobs
    → ¬ (IsWaiting t job)
unfolding oldest_pending
oldest_pending-none_waits t r h job m w =
    min_by-none (select (waits_as t) r.jobs) job h
      (Among-select (waits_as t) job r.jobs m (IsWaiting-waits_as t job w))

module _ (c : Config) (m : Reading) (r : Runner) where
  blocked-IsBlocked :
      (t : JobType) (reason : HoldingReason) → blocked c m t r ≡ some reason → IsBlocked c m r t
  unfolding blocked
  blocked-IsBlocked t reason h =
      elim (Bool-cases (leb (c.max_concurrent t) (running_count_of t r))) [
        | inl full ↦ inl (leb→le _ _ full)
        | inr room ↦
            let is_perf = same_type_sound t perf (ground arith) in
            elim (Bool-cases (perf_cooldown_active c m.now r)) [
              | inl warm ↦ inr (is_perf, inl warm)
              | inr cool ↦ inr (is_perf, inr (ground arith))
            ]
      ]

  blocked-IsFree : (t : JobType) → blocked c m t r ≡ none → IsFree c m r t
  unfolding blocked
  blocked-IsFree t h = (
    ground arith,
    λ is_perf.
        let perf_type : same_type t perf ≡ true = rw is_perf refl in (ground arith, ground arith),
  )

  Searched-Chosen :
      {types : List JobType} {x : Option Job} → Searched c m r types x → Chosen c m r types x
  Searched-Chosen no_types = exhausted
  Searched-Chosen (no_job {t = t} e rest) =
      none_waits (oldest_pending-none_waits t r e) (Searched-Chosen rest)
  Searched-Chosen (skipped {t = t} job reason e why rest) =
      passed_over job (oldest_pending-IsOldest t r job e) (blocked-IsBlocked t reason why)
        (Searched-Chosen rest)
  Searched-Chosen (taken_first {t = t} job e free) =
      taken job (oldest_pending-IsOldest t r job e) (blocked-IsFree t free)

module _ (c : Config) (m : Reading) where
  -- The job that is admitted next, with distinct identifiers: while there is room for one more job
  -- and memory enough, it is a pending job of the first of perf, tests and background, in this
  -- order, that has one and is not blocked, as the runner was when the search began, and no pending
  -- job of that type was queued before it. There is none if there is no such type.
  pub next_admissible_job-Chosen :
      (r : Runner)
      → HasKey r
      → running_count r < c.max_running_jobs
      → memory_gate_passes c m ≡ true
      → Chosen c m r (perf ∷ tests ∷ background ∷ []) (next_admissible_job c m r).1
  unfolding next_admissible_job
  next_admissible_job-Chosen r key room memory =
      let free : leb c.max_running_jobs (running_count r) ≡ false = ground arith in
      let ranked : IsRanked by_priority =
        (((refl, refl), ((refl, refl), tt)), (((refl, refl), tt), (tt, tt))) in
      rw (free, memory)
        (Searched-Chosen c m r (
          next_of-Searched c m by_priority r r key ranked
            ((refl, refl), ((refl, refl), ((refl, refl), tt)))))
