-- ===== src/Sql/Deletes.antt =====
-- What a DELETE leaves under a text key.
use claude_sessions.Prelude.{
  String, ◌≡◌, refl, Bool, ◌||◌, none, List, [], ◌∷◌, arith, str_eq, str_eq_iff, str_eq_refl,
  if◌then◌else◌, Bool-cases, inl, inr,
}
use claude_sessions.Sql.Rows.{delete, fetch_one}
use claude_sessions.Sql.Keys.{keyed, IsUnique, append-IsUnique}
use claude_sessions.Sql.Upsert.{replace}

module _ {ℓ} {R : Type ℓ} where
  pub fetch_one-delete :
      (q p : R → Bool) (rows : List R)
      → fetch_one q rows ≡ none
      → fetch_one q (delete p rows) ≡ none
  unfolding fetch_one delete
  fetch_one-delete q p [] h = refl
  fetch_one-delete q p (r ∷ rows) h = ground (arith, fetch_one-delete q p rows)

  -- A test that none of the rows passes adds nothing to a DELETE.
  pub delete-or :
      (q p : R → Bool) (rows : List R)
      → fetch_one q rows ≡ none
      → delete (λ r. q r || p r) rows ≡ delete p rows
  unfolding fetch_one delete
  delete-or q p [] h = refl
  delete-or q p (r ∷ rows) h = ground (arith, delete-or q p rows)

module _ {ℓ} {R : Type ℓ} (key : R → String) where
  pub delete-IsUnique :
      (p : R → Bool) (rows : List R) → IsUnique key rows → IsUnique key (delete p rows)
  unfolding delete
  delete-IsUnique p [] h = tt
  delete-IsUnique p (r ∷ rows) h = elim (Bool-cases (p r)) [
    | inl on ↦ rw on (delete-IsUnique p rows h.1)
    | inr off ↦ rw off (fetch_one-delete (keyed key (key r)) p rows h.0, delete-IsUnique p rows h.1)
  ]

  pub fetch_one-delete-keyed :
      (k k' : String) (rows : List R)
      → fetch_one (keyed key k') (delete (keyed key k) rows)
        ≡ (if str_eq k k' then none else fetch_one (keyed key k') rows)
  unfolding fetch_one delete
  fetch_one-delete-keyed k k' [] = ground arith
  fetch_one-delete-keyed k k' (r ∷ rows) = ground (
    arith,
    fetch_one-delete-keyed k k' rows,
    str_eq_iff k k',
    str_eq_iff (key r) k,
    str_eq_iff (key r) k',
  )

  pub replace-IsUnique :
      (r : R) (rows : List R) → IsUnique key rows → IsUnique key (replace key r rows)
  unfolding replace
  replace-IsUnique r rows h =
      append-IsUnique key (delete (keyed key (key r)) rows) r
        (rw (fetch_one-delete-keyed (key r) (key r) rows, str_eq_refl (key r)) refl)
        (delete-IsUnique (keyed key (key r)) rows h)
