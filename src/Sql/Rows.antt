-- ===== src/Sql/Rows.antt =====
-- SELECT, UPDATE and DELETE with a WHERE clause, and the first row that a SELECT fetches.
use claude_sessions.Prelude.{
  ◌≡◌, refl, Bool, true, Option, none, some, List, [], ◌∷◌, ◌++◌, All, arith, if◌then◌else◌,
  is_some, Bool-cases, inl, inr,
}
use mathlib.Core.Option

module _ {ℓ} {R : Type ℓ} where
  -- SELECT … WHERE p
  unfoldable pub select : (R → Bool) → List R → List R
  select p [] = []
  select p (r ∷ rows) = let rest = select p rows in if p r then r ∷ rest else rest

  -- fetchone() of a SELECT … WHERE p
  unfoldable pub fetch_one : (R → Bool) → List R → Option R
  fetch_one p [] = none
  fetch_one p (r ∷ rows) = if p r then some r else fetch_one p rows

  -- UPDATE … SET … WHERE p
  unfoldable pub update : (R → Bool) → (R → R) → List R → List R
  update p f [] = []
  update p f (r ∷ rows) = (if p r then f r else r) ∷ update p f rows

  -- DELETE … WHERE p
  unfoldable pub delete : (R → Bool) → List R → List R
  delete p [] = []
  delete p (r ∷ rows) = let rest = delete p rows in if p r then rest else r ∷ rest

  abbrev pub exists : (R → Bool) → List R → Bool
  exists p rows = is_some (fetch_one p rows)

  pub fetch_one-update :
      (q p : R → Bool) (f : R → R)
      → ((r : R) → q (f r) ≡ q r)
      → (rows : List R)
      → fetch_one q (update p f rows) ≡ Option.map (λ r. if p r then f r else r) (fetch_one q rows)
  unfolding fetch_one update
  fetch_one-update q p f keep [] = refl
  fetch_one-update q p f keep (r ∷ rows) = ground (arith, keep r, fetch_one-update q p f keep rows)

  pub fetch_one-append :
      (q : R → Bool) (rows : List R) (r : R)
      → fetch_one q (rows ++ r ∷ [])
        ≡ elim (fetch_one q rows) [ some s ↦ some s | none ↦ if q r then some r else none ]
  unfolding fetch_one
  fetch_one-append q [] r = refl
  fetch_one-append q (s ∷ rows) r = ground (arith, fetch_one-append q rows r)

  pub fetch_one-append_some :
      (q : R → Bool) (rows more : List R) (r : R)
      → fetch_one q rows ≡ some r
      → fetch_one q (rows ++ more) ≡ some r
  unfolding fetch_one
  fetch_one-append_some q [] more r h = absurd (ground arith)
  fetch_one-append_some q (s ∷ rows) more r h = ground (arith, fetch_one-append_some q rows more r)

  -- What is fetched passes the test.
  pub fetch_one_sound :
      (q : R → Bool) (rows : List R) (r : R) → fetch_one q rows ≡ some r → q r ≡ true
  unfolding fetch_one
  fetch_one_sound q [] r h = absurd (ground arith)
  fetch_one_sound q (s ∷ rows) r h = ground (arith, fetch_one_sound q rows r)

  -- A statement that selects no row changes nothing.
  pub update-none :
      (p : R → Bool) (f : R → R) (rows : List R) → fetch_one p rows ≡ none → update p f rows ≡ rows
  unfolding fetch_one update
  update-none p f [] h = refl
  update-none p f (r ∷ rows) h = ground (arith, update-none p f rows)

  pub All-select : (p : R → Bool) (rows : List R) → All (λ r. p r ≡ true) (select p rows)
  unfolding select
  All-select p [] = tt
  All-select p (r ∷ rows) = ground (arith, All-select p rows)

  -- Tests that agree select the same rows.
  pub select_cong :
      (p q : R → Bool) → ((r : R) → p r ≡ q r) → (rows : List R) → select p rows ≡ select q rows
  unfolding select
  select_cong p q same [] = refl
  select_cong p q same (r ∷ rows) = ground (arith, same r, select_cong p q same rows)

  -- A test that every row passes selects all.
  pub select-All :
      (p : R → Bool) (rows : List R) → All (λ r. p r ≡ true) rows → select p rows ≡ rows
  unfolding select
  select-All p [] h = refl
  select-All p (r ∷ rows) h = ground (arith, h.0, select-All p rows h.1)

  pub select-append :
      (p : R → Bool) (xs ys : List R) → select p (xs ++ ys) ≡ select p xs ++ select p ys
  unfolding select
  select-append p [] ys = refl
  select-append p (x ∷ xs) ys = ground (arith, select-append p xs ys)

  -- What holds of all rows holds of those that are selected.
  pub select-keeps :
      (P : R → Type 0) (p : R → Bool) (rows : List R) → All P rows → All P (select p rows)
  unfolding select
  select-keeps P p [] h = tt
  select-keeps P p (r ∷ rows) h = elim (Bool-cases (p r)) [
    | inl on ↦ rw on (h.0, select-keeps P p rows h.1)
    | inr off ↦ rw off (select-keeps P p rows h.1)
  ]
