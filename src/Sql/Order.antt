-- ===== src/Sql/Order.antt =====
-- ORDER BY a number, ascending: the result is sorted and holds the same rows.
use claude_sessions.Prelude.{
  ℕ, ◌≤◌, ◌≡◌, refl, List, [], ◌∷◌, All, arith, leb, Bool-cases, inl, inr, leb→le, leb_false→lt,
  if◌then◌else◌, is_some, Option, none, some, Bool, true, map,
}
use claude_sessions.Sql.Rows.{select, fetch_one}
use mathlib.Core.List.{Perm}
use mathlib.Core.List.Perm

abbrev pub head {ℓ} : {R : Type ℓ} → List R → Option R
head [] = none
head (r ∷ _) = some r

module _ {ℓ} {R : Type ℓ} (key : R → ℕ) where
  unfoldable pub place : R → List R → List R
  place r [] = r ∷ []
  place r (s ∷ rows) =
      let rest = place r rows in if leb (key r) (key s) then r ∷ s ∷ rows else s ∷ rest

  -- each row goes in front of the rows behind it in the table that have its key
  unfoldable pub order_by : List R → List R
  unfolding place
  order_by [] = []
  order_by (r ∷ rows) = place r (order_by rows)

  abbrev pub IsAscending : List R → Type 0
  IsAscending [] = Unit
  IsAscending (r ∷ rows) = All (λ s. key r ≤ key s) rows × IsAscending rows

  pub All-le :
      (a b : ℕ) (rows : List R) → a ≤ b → All (λ s. b ≤ key s) rows → All (λ s. a ≤ key s) rows
  All-le a b [] le h = tt
  All-le a b (s ∷ rows) le h = (omega arith, All-le a b rows le h.1)

  All-place :
      (a : ℕ) (r : R) (rows : List R)
      → a ≤ key r
      → All (λ s. a ≤ key s) rows
      → All (λ s. a ≤ key s) (place r rows)
  unfolding place
  All-place a r [] le h = (le, tt)
  All-place a r (s ∷ rows) le h = ground (arith, All-place a r rows le h.1)

  place-IsAscending : (r : R) (rows : List R) → IsAscending rows → IsAscending (place r rows)
  unfolding place
  place-IsAscending r [] h = (tt, tt)
  place-IsAscending r (s ∷ rows) h = elim (Bool-cases (leb (key r) (key s))) [
    | inl e ↦ rw e ((leb→le _ _ e, All-le (key r) (key s) rows (leb→le _ _ e) h.0), h)
    | inr e ↦
        let below : key s ≤ key r = omega (arith, leb_false→lt (key r) (key s) e) in
        rw e (All-place (key s) r rows below h.0, place-IsAscending r rows h.1)
  ]

  pub order_by-IsAscending : (rows : List R) → IsAscending (order_by rows)
  unfolding order_by
  order_by-IsAscending [] = tt
  order_by-IsAscending (r ∷ rows) = place-IsAscending r (order_by rows) (order_by-IsAscending rows)

  place-perm : (r : R) (rows : List R) → Perm (place r rows) (r ∷ rows)
  unfolding place
  place-perm r [] = Perm.refl (r ∷ [])
  place-perm r (s ∷ rows) = elim (Bool-cases (leb (key r) (key s))) [
    | inl e ↦ rw e (Perm.refl (r ∷ s ∷ rows))
    | inr e ↦ rw e (Perm.trans (Perm.cons s (place-perm r rows)) (Perm.swap r s rows))
  ]

  pub order_by-perm : (rows : List R) → Perm (order_by rows) rows
  unfolding order_by
  order_by-perm [] = Perm.refl []
  order_by-perm (r ∷ rows) =
      Perm.trans (place-perm r (order_by rows)) (Perm.cons r (order_by-perm rows))

  place-head : (r : R) (rows : List R) → is_some (head (place r rows)) ≡ true
  unfolding place
  place-head r [] = refl
  place-head r (s ∷ rows) = ground arith

  -- A SELECT with an ORDER BY fetches a row exactly when the SELECT alone does.
  pub head-order_by-select :
      (p : R → Bool) (rows : List R)
      → is_some (fetch_one p rows) ≡ is_some (head (order_by (select p rows)))
  unfolding fetch_one select order_by
  head-order_by-select p [] = refl
  head-order_by-select p (r ∷ rows) =
      ground (arith, head-order_by-select p rows, place-head r (order_by (select p rows)))

-- An order is kept by a map that keeps the key.
pub map-IsAscending {ℓ κ} :
    {R : Type ℓ} {S : Type κ} (key : R → ℕ) (key' : S → ℕ) (f : R → S)
    → ((r : R) → key' (f r) ≡ key r)
    → (rows : List R) → IsAscending key rows
    → IsAscending key' (map f rows)
map-IsAscending key key' f same [] h = tt
map-IsAscending {R} key key' f same (r ∷ rows) h =
    (above rows h.0, map-IsAscending key key' f same rows h.1)
  where
    above :
        (rest : List R)
        → All (λ s. key r ≤ key s) rest
        → All (λ s. key' (f r) ≤ key' s) (map f rest)
    above [] k = tt
    above (s ∷ rest) k = (rw (same r, same s) (k.0), above rest k.1)
