-- ===== src/Sql/Members.antt =====
-- Which rows a SELECT and a keyed fetch give.
use claude_sessions.Prelude.{
  String, ◌≡◌, refl, ap, Bool, true, false, none, some, List, [], ◌∷◌, All, Among, arith, str_eq,
  str_eq_iff, str_eq_refl, inl, inr, Bool-cases,
}
use claude_sessions.Sql.Rows.{select, fetch_one, update}
use claude_sessions.Sql.Keys.{keyed, IsUnique}
use claude_sessions.Sql.Upsert.{upsert, count}

module _ {R : Type 0} where
  pub select-Among :
      (p : R → Bool) (r : R) (rows : List R) → Among r (select p rows) → Among r rows × (p r ≡ true)
  unfolding select
  select-Among p r [] h = absurd h
  select-Among p r (s ∷ rows) h = ground (arith, select-Among p r rows)

  pub Among-select :
      (p : R → Bool) (r : R) (rows : List R) → Among r rows → p r ≡ true → Among r (select p rows)
  unfolding select
  Among-select p r [] h e = absurd h
  Among-select p r (s ∷ rows) h e = ground (arith, Among-select p r rows)

  pub fetch_one-Among :
      (p : R → Bool) (r : R) (rows : List R) → fetch_one p rows ≡ some r → Among r rows
  unfolding fetch_one
  fetch_one-Among p r [] h = absurd (ground arith)
  fetch_one-Among p r (s ∷ rows) h = ground (arith, fetch_one-Among p r rows)

  -- With a primary key, a row is what its key fetches.
  pub Among-fetch_one :
      (key : R → String) (r : R) (rows : List R)
      → IsUnique key rows
      → Among r rows
      → fetch_one (keyed key (key r)) rows ≡ some r
  unfolding fetch_one
  Among-fetch_one key r [] u h = absurd h
  Among-fetch_one key r (s ∷ rows) u (inl e) = rw e (rw (str_eq_refl (key r)))
  Among-fetch_one key r (s ∷ rows) u (inr h) =
      ground (arith, Among-fetch_one key r rows u.1 h, str_eq_iff (key s) (key r), u.0)

  -- Where only rows of an absent key pass the test, none does.
  select-absent :
      (key : R → String) (p : R → Bool) (k : String) (rows : List R)
      → fetch_one (keyed key k) rows ≡ none
      → All (λ r. p r ≡ true → key r ≡ k) rows
      → select p rows ≡ []
  unfolding fetch_one select
  select-absent key p k [] e h = refl
  select-absent key p k (r ∷ rows) e h =
      ground (arith, h.0, str_eq_iff (key r) k, select-absent key p k rows (ground arith) h.1)

  -- Where only rows of one key pass the test, a row of that key that is written is the one selected.
  pub select-upsert_only :
      (key : R → String) (p : R → Bool) (r : R) (rows : List R)
      → IsUnique key rows
      → All (λ s. p s ≡ true → key s ≡ key r) rows
      → p r ≡ true
      → select p (upsert key r rows) ≡ r ∷ []
  unfolding select upsert
  select-upsert_only key p r [] u h on = rw on refl
  select-upsert_only key p r (s ∷ rows) u h on = elim (Bool-cases (str_eq (key s) (key r))) [
    | inl same ↦
        let is_key : key s ≡ key r = (str_eq_iff (key s) (key r)).0 same in
        rw same (rw on (ap (◌∷◌ r) (select-absent key p (key r) rows (rw is_key at (u.0)) h.1)))
    | inr other ↦
        let off : p s ≡ false = ground (arith, h.0, str_eq_iff (key s) (key r)) in
        rw other (rw off (select-upsert_only key p r rows u.1 h.1 on))
  ]

  -- An UPDATE that does not change what a test sees of the rows that it writes does not change what
  -- the test counts.
  pub count-update :
      (p q : R → Bool) (f : R → R) (rows : List R)
      → ((r : R) → q r ≡ true → p (f r) ≡ p r)
      → count p (update q f rows) ≡ count p rows
  unfolding count update
  count-update p q f [] h = refl
  count-update p q f (r ∷ rows) h = ground (arith, h r, count-update p q f rows h)
