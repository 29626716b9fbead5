-- ===== src/Sql/Upsert.antt =====
-- Writes under a text key: Python's `d[k] = v`, which replaces in place or adds behind, and INSERT OR
-- REPLACE, which deletes the row of that key and inserts the new one behind the others.
use claude_sessions.Prelude.{
  ℕ, ◌+◌, String, ◌≡◌, refl, Bool, true, false, none, some, List, [], ◌∷◌, ◌++◌, arith, str_eq,
  str_eq_iff, str_eq_refl, if◌then◌else◌, Bool-cases, inl, inr,
}
use claude_sessions.Sql.Rows.{select, delete, fetch_one}
use claude_sessions.Sql.Keys.{keyed, IsUnique}

-- 1 if the test holds
abbrev pub one_if : Bool → ℕ
one_if true = 1
one_if false = 0

-- sum(1 for r in rows if p(r))
unfoldable pub count {ℓ} : {R : Type ℓ} → (R → Bool) → List R → ℕ
count p [] = 0
count p (r ∷ rows) = one_if (p r) + count p rows

module _ {ℓ} {R : Type ℓ} (key : R → String) where
  unfoldable pub upsert : R → List R → List R
  upsert r [] = r ∷ []
  upsert r (s ∷ rows) =
      let rest = upsert r rows in if str_eq (key s) (key r) then r ∷ rows else s ∷ rest

  pub fetch_one-upsert :
      (r : R) (k : String) (rows : List R)
      → fetch_one (keyed key k) (upsert r rows)
        ≡ (if str_eq (key r) k then some r else fetch_one (keyed key k) rows)
  unfolding fetch_one upsert
  fetch_one-upsert r k [] = refl
  fetch_one-upsert r k (s ∷ rows) = ground (
    arith,
    fetch_one-upsert r k rows,
    str_eq_iff (key s) (key r),
    str_eq_iff (key s) k,
    str_eq_iff (key r) k,
  )

  -- A write that the test does not see, before or after, leaves what it selects.
  pub select-upsert :
      (p : R → Bool) (r old : R) (rows : List R)
      → fetch_one (keyed key (key r)) rows ≡ some old
      → p old ≡ false
      → p r ≡ false
      → select p (upsert r rows) ≡ select p rows
  unfolding fetch_one upsert select
  select-upsert p r old [] found e f = absurd (ground arith)
  select-upsert p r old (s ∷ rows) found e f = ground (arith, select-upsert p r old rows)

  pub upsert-IsUnique : (r : R) (rows : List R) → IsUnique key rows → IsUnique key (upsert r rows)
  unfolding upsert
  upsert-IsUnique r [] h = (unfold fetch_one in refl, tt)
  upsert-IsUnique r (s ∷ rows) h = elim (Bool-cases (str_eq (key s) (key r))) [
    | inl e ↦ rw e (rw (← (str_eq_iff (key s) (key r)).0 e) h.0, h.1)
    | inr e ↦ rw e (
      ground (
        arith,
        fetch_one-upsert r (key s) rows,
        str_eq_iff (key s) (key r),
        str_eq_iff (key r) (key s),
      ),
      upsert-IsUnique r rows h.1,
    )
  ]

  unfoldable pub replace : R → List R → List R
  replace r rows = delete (keyed key (key r)) rows ++ r ∷ []

  pub fetch_one-replace :
      (r : R) (k : String) (rows : List R)
      → fetch_one (keyed key k) (replace r rows)
        ≡ (if str_eq (key r) k then some r else fetch_one (keyed key k) rows)
  unfolding fetch_one delete replace
  fetch_one-replace r k [] = refl
  fetch_one-replace r k (s ∷ rows) = ground (
    arith,
    fetch_one-replace r k rows,
    str_eq_iff (key s) (key r),
    str_eq_iff (key s) k,
    str_eq_iff (key r) k,
  )

  -- How a count changes when the row of a key is replaced, or added.
  pub count-upsert :
      (p : R → Bool) (r : R) (rows : List R)
      → count p (upsert r rows)
          + elim (fetch_one (keyed key (key r)) rows) [ none ↦ 0 | some s ↦ one_if (p s) ]
        ≡ count p rows + one_if (p r)
  unfolding count upsert fetch_one
  count-upsert p r [] = ground arith
  count-upsert p r (s ∷ rows) = ground (arith, count-upsert p r rows)

module _ {ℓ} {R : Type ℓ} (key : R → String) where
  -- The later of two writes under one key is what stays.
  pub upsert-upsert :
      (a b : R) (rows : List R)
      → key a ≡ key b
      → upsert key b (upsert key a rows) ≡ upsert key b rows
  unfolding upsert
  upsert-upsert a b [] e = rw e (rw (str_eq_refl (key b)))
  upsert-upsert a b (s ∷ rows) e = elim (Bool-cases (str_eq (key s) (key a))) [
    | inl same ↦ ground (arith, str_eq_refl (key b))
    | inr other ↦ ground (arith, upsert-upsert a b rows e)
  ]
