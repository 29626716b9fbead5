-- ===== src/Sql/Keys.antt =====
-- A text column that is a primary key: no two rows have one value of it.
use claude_sessions.Prelude.{
  String, ◌≡◌, refl, ap, Bool, false, ◌&&◌, none, some, List, [], ◌∷◌, ◌++◌, arith, str_eq,
  str_eq_iff, if◌then◌else◌,
}
use claude_sessions.Sql.Rows.{select, fetch_one, update, exists, fetch_one-update, fetch_one-append}

module _ {ℓ} {R : Type ℓ} (key : R → String) where
  -- WHERE key = k
  abbrev pub keyed : String → R → Bool
  keyed k r = str_eq (key r) k

  abbrev pub IsUnique : List R → Type ℓ
  IsUnique [] = Unit
  IsUnique (r ∷ rows) = (fetch_one (keyed (key r)) rows ≡ none) × IsUnique rows

  pub update-IsUnique :
      (p : R → Bool) (f : R → R)
      → ((r : R) → key (f r) ≡ key r)
      → (rows : List R) → IsUnique rows
      → IsUnique (update p f rows)
  unfolding update
  update-IsUnique p f keep [] h = h
  update-IsUnique p f keep (r ∷ rows) h =
      let e : key (if p r then f r else r) ≡ key r = ground (arith, keep r) in
      (
        rw e (
            rw
              (fetch_one-update (keyed (key r)) p f (λ s. ap (λ k. str_eq k (key r)) (keep s)) rows)
              (rw h.0)),
        update-IsUnique p f keep rows h.1,
      )

  pub append-IsUnique :
      (rows : List R) (r : R)
      → fetch_one (keyed (key r)) rows ≡ none
      → IsUnique rows
      → IsUnique (rows ++ r ∷ [])
  unfolding fetch_one
  append-IsUnique [] r new h = (refl, tt)
  append-IsUnique (s ∷ rows) r new h = (
    ground (
      arith,
      fetch_one-append (keyed (key s)) rows r,
      str_eq_iff (key s) (key r),
      str_eq_iff (key r) (key s),
    ),
    append-IsUnique rows r (ground arith) h.1,
  )

  -- With a primary key, a key is among the rows of a SELECT if its one row passes the test.
  pub exists-select :
      (p : R → Bool) (k : String) (rows : List R)
      → IsUnique rows
      → exists (keyed k) (select p rows)
        ≡ elim (fetch_one (keyed k) rows) [ none ↦ false | some r ↦ p r ]
  unfolding fetch_one select
  exists-select p k [] h = refl
  exists-select p k (r ∷ rows) h = ground (arith, str_eq_iff (key r) k, exists-select p k rows h.1)

  -- With a primary key, WHERE key = k AND p selects at most the row of that key.
  pub fetch_one-keyed :
      (p : R → Bool) (k : String) (rows : List R)
      → IsUnique rows
      → exists (λ r. keyed k r && p r) rows
        ≡ elim (fetch_one (keyed k) rows) [ none ↦ false | some r ↦ p r ]
  unfolding fetch_one
  fetch_one-keyed p k [] h = refl
  fetch_one-keyed p k (r ∷ rows) h =
      ground (arith, str_eq_iff (key r) k, fetch_one-keyed p k rows h.1)
