-- ===== src/QueueRunner/Choice.antt =====
-- The least of a list is in the list, and no element is below it: what `_oldest_pending` gives.
use claude_sessions.Prelude.{
  ℕ, ◌≤◌, ◌≡◌, refl, Bool, true, some, List, [], ◌∷◌, All, Among, ltb, arith, inl, if◌then◌else◌,
}
use claude_sessions.Sql.{select, select-Among, Among-fetch_one}
use claude_sessions.QueueRunner.Types.{Job, Runner}
use claude_sessions.QueueRunner.Gates.{min_from, min_by, job_id, job_of}
use claude_sessions.QueueRunner.Lifecycle.{HasKey}

module _ {R : Type 0} (key : R → ℕ) where
  min_from-Among : (best : R) (rows : List R) → Among (min_from key best rows) (best ∷ rows)
  unfolding min_from
  min_from-Among best [] = inl refl
  min_from-Among best (r ∷ rows) = ground (arith, min_from-Among r rows, min_from-Among best rows)

  min_from-le : (best : R) (rows : List R) → key (min_from key best rows) ≤ key best
  unfolding min_from
  min_from-le best [] = omega arith
  min_from-le best (r ∷ rows) = ground (arith, min_from-le r rows, min_from-le best rows)

  min_from-least :
      (best : R) (rows : List R) (k : ℕ)
      → k ≡ key (min_from key best rows)
      → All (λ r. k ≤ key r) rows
  unfolding min_from
  min_from-least best [] k e = tt
  min_from-least best (r ∷ rows) k e =
      let kept = if ltb (key r) (key best) then r else best in
      (ground (arith, min_from-le kept rows), min_from-least kept rows k e)

  pub min_by-Among : (rows : List R) (r : R) → min_by key rows ≡ some r → Among r rows
  unfolding min_by
  min_by-Among [] r h = absurd (ground arith)
  min_by-Among (s ∷ rows) r h = ground (arith, min_from-Among s rows)

  pub min_by-least :
      (rows : List R) (r : R) → min_by key rows ≡ some r → All (λ s. key r ≤ key s) rows
  unfolding min_by
  min_by-least [] r h = tt
  min_by-least (s ∷ rows) r h =
      let e : key r ≡ key (min_from key s rows) = ground arith in
      (omega (arith, min_from-le s rows), min_from-least s rows (key r) e)

-- A job that a SELECT over the jobs gives is the job of its identifier, and passes the test.
pub found_by_select :
    (key : Job → ℕ) (p : Job → Bool) (r : Runner) (job : Job)
    → HasKey r
    → min_by key (select p r.jobs) ≡ some job
    → (job_of job.id r ≡ some job) × (p job ≡ true)
found_by_select key p r job u h =
    let (there, passes) = select-Among p job r.jobs (min_by-Among key (select p r.jobs) job h) in
    (Among-fetch_one job_id job r.jobs u there, passes)
