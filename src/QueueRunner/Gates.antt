-- ===== src/QueueRunner/Gates.antt =====
-- The jobs of src/queue_runner.py in memory and in the database, and the gates of admission.
use claude_sessions.Prelude.{
  ℕ, ◌+◌, ◌*◌, String, Bool, true, false, ◌&&◌, ◌||◌, Option, none, some, List, [], ◌∷◌, str_eq,
  ltb, leb, ◌==◌, is_some, if◌then◌else◌,
}
use claude_sessions.Sql.{select, fetch_one, exists, count, upsert, replace}
use claude_sessions.QueueRunner.Types.{
  JobType, perf, tests, is_pending, is_running, same_type, Job, Config, Runner, Reading,
}
use mathlib.Core.Option

abbrev pub job_id : Job → String
job_id job = job.id

abbrev pub has_id : String → Job → Bool
has_id id job = str_eq job.id id

-- `self._jobs.get(job_id)`
abbrev pub job_of : String → Runner → Option Job
job_of id r = fetch_one (has_id id) r.jobs

-- `session_id or ""` and `json.dumps(argv) if argv else None`
unfoldable pub stored : Job → Job
stored job = record job {
  notify_session_id = some (Option.get_or job.notify_session_id "");
  argv = elim job.argv [ some (a ∷ rest) ↦ some (a ∷ rest) | _ ↦ none ];
}

-- An assignment to fields of a job, or to `_jobs[job.id]`.
unfoldable pub set_job : Job → Runner → Runner
set_job job r = record r { jobs = upsert job_id job r.jobs }

-- `_persist_job`
unfoldable pub persist_job : Job → Runner → Runner
unfolding stored
persist_job job r = record r { db = replace job_id (stored job) r.db }

unfoldable pub save : Job → Runner → Runner
unfolding set_job persist_job
save job r = persist_job job (set_job job r)

-- `_running_count()` and `_running_count(job_type)`
abbrev pub runs : Job → Bool
runs job = is_running job.state

abbrev pub runs_as : JobType → Job → Bool
runs_as t job = is_running job.state && same_type job.type t

abbrev pub running_count : Runner → ℕ
running_count r = count runs r.jobs

abbrev pub running_count_of : JobType → Runner → ℕ
running_count_of t r = count (runs_as t) r.jobs

-- Python's `min(rows, key=key)`: the first of the least.
module _ {ℓ} {R : Type ℓ} (key : R → ℕ) where
  unfoldable pub min_from : R → List R → R
  min_from best [] = best
  min_from best (r ∷ rows) = min_from (if ltb (key r) (key best) then r else best) rows

  unfoldable pub min_by : List R → Option R
  unfolding min_from
  min_by [] = none
  min_by (r ∷ rows) = some (min_from r rows)

  -- Python's `max(rows, key=key)`: the first of the greatest.
  unfoldable pub max_from : R → List R → R
  max_from best [] = best
  max_from best (r ∷ rows) = max_from (if ltb (key best) (key r) then r else best) rows

  unfoldable pub max_by : List R → Option R
  unfolding max_from
  max_by [] = none
  max_by (r ∷ rows) = some (max_from r rows)

abbrev pub waits_as : JobType → Job → Bool
waits_as t job = is_pending job.state && same_type job.type t

-- `_oldest_pending`
unfoldable pub oldest_pending : JobType → Runner → Option Job
unfolding min_by
oldest_pending t r = min_by (λ (job : Job). job.queued_at) (select (waits_as t) r.jobs)

abbrev pub measured : Job → Bool
measured job = (same_type job.type perf || same_type job.type tests) && is_some job.finished_at

-- `(now - finished_at).total_seconds() < perf_cooldown_seconds`
abbrev pub cools : Config → ℕ → Job → Bool
cools c now job = (same_type job.type perf || same_type job.type tests) && elim job.finished_at [
  | none ↦ false
  | some t ↦ ltb now (t + 1000000 * c.perf_cooldown_seconds)
]

-- `_perf_cooldown_active`
unfoldable pub perf_cooldown_active : Config → ℕ → Runner → Bool
perf_cooldown_active c now r = exists (cools c now) r.jobs

-- `_perf_blocked_by_tests_after_perf`
unfoldable pub perf_blocked_by_tests_after_perf : Runner → Bool
unfolding max_by
perf_blocked_by_tests_after_perf r =
    elim (max_by (λ (job : Job). Option.get_or job.finished_at 0) (select measured r.jobs)) [
      | none ↦ false
      | some latest ↦
          same_type latest.type perf
          && exists
              (λ job. same_type job.type tests && (is_pending job.state || is_running job.state))
              r.jobs
    ]

-- `_memory_gate_passes`
unfoldable pub memory_gate_passes : Config → Reading → Bool
memory_gate_passes c m =
    c.min_free_bytes == 0
    || elim m.free_memory_bytes [ none ↦ true | some available ↦ leb c.min_free_bytes available ]
