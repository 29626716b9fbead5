-- ===== src/Sql/Sorted.antt =====
-- ORDER BY together with WHERE, with a primary key, and with an INSERT of the last row.
use claude_sessions.Prelude.{
  some, ◌∙◌, ℕ, ◌≤◌, String, ◌≡◌, refl, sym, Bool, none, List, [], ◌∷◌, ◌++◌, All, inl, inr, arith,
  leb, leb→le, Bool-cases, str_eq_iff, if◌then◌else◌,
}
use claude_sessions.Sql.Rows.{select, fetch_one}
use claude_sessions.Sql.Order.{All-le, place, order_by, IsAscending, order_by-IsAscending}
use claude_sessions.Sql.Keys.{keyed, IsUnique}

module _ {R : Type 0} (key : R → ℕ) where
  place_before :
      (p : R → Bool) (r : R) (rows : List R)
      → All (λ s. key r ≤ key s) rows
      → place key r (select p rows) ≡ r ∷ select p rows
  unfolding place select
  place_before p r [] h = refl
  place_before p r (s ∷ rows) h = ground (arith, h.0, place_before p r rows h.1)

  place-select :
      (p : R → Bool) (r : R) (rows : List R)
      → IsAscending key rows
      → select p (place key r rows) ≡ (if p r then place key r (select p rows) else select p rows)
  unfolding place select
  place-select p r [] h = ground arith
  place-select p r (s ∷ rows) h = elim (Bool-cases (leb (key r) (key s))) [
    | inl first ↦
        let below = leb→le (key r) (key s) first in
        let before =
          place_before p r (s ∷ rows) (below, All-le key (key r) (key s) rows below h.0) in
        rw first (elim (Bool-cases (p r)) [ inl on ↦ rw on (sym before) | inr off ↦ rw off refl ])
    | inr later ↦ ground (arith, later, place-select p r rows h.1)
  ]

  -- Sorting what is selected is selecting from what is sorted.
  pub order_by-select :
      (p : R → Bool) (rows : List R) → order_by key (select p rows) ≡ select p (order_by key rows)
  unfolding order_by select
  order_by-select p [] = refl
  order_by-select p (r ∷ rows) =
      rw
        (
          place-select p r (order_by key rows) (order_by-IsAscending key rows),
          ← order_by-select p rows,
        )
        (ground arith)

  fetch_one-place :
      (q : R → Bool) (r : R) (rows : List R)
      → fetch_one q (r ∷ rows) ≡ none
      → fetch_one q (place key r rows) ≡ none
  unfolding place fetch_one
  fetch_one-place q r [] h = h
  fetch_one-place q r (s ∷ rows) h = ground (arith, fetch_one-place q r rows)

  module _ (id : R → String) where
    place-IsUnique :
        (r : R) (rows : List R) → IsUnique id (r ∷ rows) → IsUnique id (place key r rows)
    unfolding place fetch_one
    place-IsUnique r [] h = h
    place-IsUnique r (s ∷ rows) h = elim (Bool-cases (leb (key r) (key s))) [
      | inl first ↦ rw first h
      | inr later ↦ rw later (
        fetch_one-place (keyed id (id s)) r rows
            (ground (arith, h.0, h.1.0, str_eq_iff (id s) (id r), str_eq_iff (id r) (id s))),
        place-IsUnique r rows (ground (arith, h.0), h.1.1),
      )
    ]

    fetch_one-order_by :
        (q : R → Bool) (rows : List R)
        → fetch_one q rows ≡ none
        → fetch_one q (order_by key rows) ≡ none
    unfolding order_by fetch_one
    fetch_one-order_by q [] h = refl
    fetch_one-order_by q (r ∷ rows) h =
        fetch_one-place q r (order_by key rows) (ground (arith, fetch_one-order_by q rows))

    pub order_by-IsUnique : (rows : List R) → IsUnique id rows → IsUnique id (order_by key rows)
    unfolding order_by
    order_by-IsUnique [] h = tt
    order_by-IsUnique (r ∷ rows) h =
        place-IsUnique r (order_by key rows)
          (fetch_one-order_by (keyed id (id r)) rows h.0, order_by-IsUnique rows h.1)

    fetch_one-place-keyed :
        (k : String) (r : R) (rows : List R)
        → IsUnique id (r ∷ rows)
        → fetch_one (keyed id k) (place key r rows) ≡ fetch_one (keyed id k) (r ∷ rows)
    unfolding place fetch_one
    fetch_one-place-keyed k r [] h = refl
    fetch_one-place-keyed k r (s ∷ rows) h =
        let rest : fetch_one (keyed id k) (place key r rows) ≡ fetch_one (keyed id k) (r ∷ rows) =
          fetch_one-place-keyed k r rows (ground (arith, h.0), h.1.1) in
        ground
          (arith, rest, h.0, str_eq_iff (id s) k, str_eq_iff (id r) k, str_eq_iff (id s) (id r))

    -- With a primary key, an ORDER BY keeps what the table gives for a key.
    pub fetch_one-order_by-keyed :
        (k : String) (rows : List R)
        → IsUnique id rows
        → fetch_one (keyed id k) (order_by key rows) ≡ fetch_one (keyed id k) rows
    unfolding order_by fetch_one
    fetch_one-order_by-keyed k [] h = refl
    fetch_one-order_by-keyed k (r ∷ rows) h =
        fetch_one-place-keyed k r (order_by key rows)
          (fetch_one-order_by (keyed id (id r)) rows h.0, order_by-IsUnique rows h.1)
        ∙ rw (fetch_one-order_by-keyed k rows h.1) refl

  place-last :
      (s r : R) (rows : List R)
      → key s ≤ key r
      → place key s (rows ++ r ∷ []) ≡ place key s rows ++ r ∷ []
  unfolding place
  place-last s r [] le = ground arith
  place-last s r (x ∷ rows) le = ground (arith, place-last s r rows le)

  -- A row that is no earlier than the others comes last.
  pub order_by-last :
      (rows : List R) (r : R)
      → All (λ s. key s ≤ key r) rows
      → order_by key (rows ++ r ∷ []) ≡ order_by key rows ++ r ∷ []
  unfolding order_by
  order_by-last [] r h = refl
  order_by-last (s ∷ rows) r h =
      rw (order_by-last rows r h.1) (place-last s r (order_by key rows) h.0)

fetch_one-select :
    {R : Type 0} (q p : R → Bool) (rows : List R)
    → fetch_one q rows ≡ none
    → fetch_one q (select p rows) ≡ none
unfolding fetch_one select
fetch_one-select q p [] h = refl
fetch_one-select q p (r ∷ rows) h = ground (arith, fetch_one-select q p rows)

-- With a primary key, a SELECT gives of a key its row, if that passes the test.
pub fetch_one-select-keyed :
    {R : Type 0} (id : R → String) (p : R → Bool) (k : String) (rows : List R)
    → IsUnique id rows
    → fetch_one (keyed id k) (select p rows)
      ≡ elim (fetch_one (keyed id k) rows) [ none ↦ none | some r ↦ if p r then some r else none ]
unfolding fetch_one select
fetch_one-select-keyed id p k [] h = refl
fetch_one-select-keyed id p k (r ∷ rows) h =
    ground (arith, str_eq_iff (id r) k, fetch_one-select-keyed id p k rows h.1)

pub select-IsUnique :
    {R : Type 0} (id : R → String) (p : R → Bool) (rows : List R)
    → IsUnique id rows
    → IsUnique id (select p rows)
unfolding select
select-IsUnique id p [] h = tt
select-IsUnique id p (r ∷ rows) h = elim (Bool-cases (p r)) [
  | inl on ↦ rw on (fetch_one-select (keyed id (id r)) p rows h.0, select-IsUnique id p rows h.1)
  | inr off ↦ rw off (select-IsUnique id p rows h.1)
]
