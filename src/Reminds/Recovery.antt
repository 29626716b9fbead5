-- ===== src/Reminds/Recovery.antt =====
-- What the program has in memory of reminders when it starts again.
use claude_sessions.Prelude.{
  subst, inr, ◌∙◌, inl, [], Bool-cases, str_eq_iff, not, ◌∷◌, if◌then◌else◌, ◌≡◌, Option, ◌&&◌,
  List, Bool, String, refl, none, some, sym, ap, arith,
}
use claude_sessions.Sql.{
  fetch_one-select-keyed, select-IsUnique, update-IsUnique, fetch_one, keyed, IsUnique, select,
  fetch_one-upsert, upsert-IsUnique,
}
use claude_sessions.Reminds.{
  RemindRegistration, RemindRow, Codec, Reminds, target_of, row_target, registration_of, has_owners,
}
use claude_sessions.Reminds.Rounds.{
  restore, recover_row, recover_rows, recover_remind_registrations,
}
use claude_sessions.Reminds.Backing.{IsBacked, live, given_by, stopped}
use claude_sessions.Reminds.Storing.{live-stopped}

module _ {T : Type 0} (c : Codec T) (is_alive : String → Bool) where
  -- A registration that a start gives up: someone waits for replies of a target that is dead.
  abbrev pub is_lost : RemindRegistration → Bool
  is_lost reg = has_owners reg.cancel_on_reply_session_ids && not (is_alive (target_of reg))

  abbrev kept : RemindRow T → Option RemindRegistration → Option RemindRegistration
  kept row old = if is_lost (restore c row) then old else some (restore c row)

  abbrev overlay : Option (RemindRow T) → Option RemindRegistration → Option RemindRegistration
  overlay none old = old
  overlay (some row) old = kept row old

  recover_row-registrations :
      (t : String) (row : RemindRow T) (s : Reminds T)
      → registration_of t (recover_row c is_alive row s)
        ≡ (if keyed row_target t row then kept row (registration_of t s) else registration_of t s)
  unfolding recover_row restore
  recover_row-registrations t row s = elim (Bool-cases (is_lost (restore c row))) [
    | inl lost ↦ rw lost (ground arith)
    | inr found ↦ rw found (fetch_one-upsert target_of (restore c row) t s.registrations)
  ]

  recover_rows-registrations :
      (t : String) (rows : List (RemindRow T)) (s : Reminds T)
      → IsUnique row_target rows
      → registration_of t (recover_rows c is_alive rows s)
        ≡ overlay (fetch_one (keyed row_target t) rows) (registration_of t s)
  unfolding recover_rows fetch_one
  recover_rows-registrations t [] s u = refl
  recover_rows-registrations t (row ∷ rows) s u =
      let rest = recover_rows-registrations t rows (recover_row c is_alive row s) u.1 in
      let first = recover_row-registrations t row s in
      elim (Bool-cases (keyed row_target t row)) [
        | inl its ↦
            let same : row_target row ≡ t = (str_eq_iff (row_target row) t).0 its in
            let none_left = subst (λ k. fetch_one (keyed row_target k) rows ≡ none) same u.0 in
            rest
            ∙ (ap (λ found. overlay found (registration_of t (recover_row c is_alive row s)))
                  none_left
                ∙ (first ∙ rw its refl))
        | inr other ↦
            let passed : registration_of t (recover_row c is_alive row s) ≡ registration_of t s =
              first ∙ rw other refl in
            rw other (rest ∙ ap (overlay (fetch_one (keyed row_target t) rows)) passed)
      ]

  abbrev pub surviving : Option RemindRegistration → Option RemindRegistration
  surviving none = none
  surviving (some reg) = if is_lost reg then none else some reg

  abbrev active_row : Option (RemindRow T) → Option (RemindRow T)
  active_row none = none
  active_row (some row) = if row.is_active then some row else none

  active-given_by :
      (row : Option (RemindRow T)) → overlay (active_row row) none ≡ surviving (given_by c row)
  active-given_by none = refl
  active-given_by (some row) = elim (Bool-cases row.is_active) [
    | inl on ↦ rw on refl
    | inr off ↦ rw off refl
  ]

  -- If the table gives the registrations in memory, a start of the program gives each back as it
  -- was, less those with owners that wait for replies of a target that is dead.
  pub recovers_registrations :
      (s : Reminds T)
      → IsBacked c s
      → (target : String)
      → registration_of target (recover_remind_registrations c is_alive s)
        ≡ surviving (registration_of target s)
  unfolding recover_remind_registrations fetch_one
  recovers_registrations s b target =
      let active : RemindRow T → Bool = λ row. row.is_active in
      let stored =
        recover_rows-registrations target (select active s.rows) (record s { registrations = [] })
          (select-IsUnique row_target active s.rows b.one_row) in
      stored
      ∙ (ap (λ found. overlay found none)
            (fetch_one-select-keyed row_target active target s.rows b.one_row)
          ∙ (active-given_by (fetch_one (keyed row_target target) s.rows)
              ∙ ap surviving (sym (b.backed target))))

  abbrev strike : Option (RemindRow T) → Option RemindRegistration → Option RemindRegistration
  strike none old = old
  strike (some row) old = if is_lost (restore c row) then none else old

  recover_row-live :
      (t : String) (row : RemindRow T) (s : Reminds T)
      → live c t (recover_row c is_alive row s).rows
        ≡ (if keyed row_target t row then strike (some row) (live c t s.rows) else live c t s.rows)
  unfolding recover_row restore
  recover_row-live t row s = elim (Bool-cases (is_lost (restore c row))) [
    | inl lost ↦ rw lost (live-stopped c (row_target row) t s.rows)
    | inr found ↦ rw found (ground arith)
  ]

  recover_rows-live :
      (t : String) (rows : List (RemindRow T)) (s : Reminds T)
      → IsUnique row_target rows
      → live c t (recover_rows c is_alive rows s).rows
        ≡ strike (fetch_one (keyed row_target t) rows) (live c t s.rows)
  unfolding recover_rows fetch_one
  recover_rows-live t [] s u = refl
  recover_rows-live t (row ∷ rows) s u =
      let rest = recover_rows-live t rows (recover_row c is_alive row s) u.1 in
      let first = recover_row-live t row s in
      elim (Bool-cases (keyed row_target t row)) [
        | inl its ↦
            let same : row_target row ≡ t = (str_eq_iff (row_target row) t).0 its in
            let none_left = subst (λ k. fetch_one (keyed row_target k) rows ≡ none) same u.0 in
            rest
            ∙ (ap (λ found. strike found (live c t (recover_row c is_alive row s).rows)) none_left
                ∙ (first ∙ rw its refl))
        | inr other ↦
            let passed : live c t (recover_row c is_alive row s).rows ≡ live c t s.rows =
              first ∙ rw other refl in
            rw other (rest ∙ ap (strike (fetch_one (keyed row_target t) rows)) passed)
      ]

  strike-given_by :
      (row : Option (RemindRow T))
      → strike (active_row row) (given_by c row) ≡ surviving (given_by c row)
  strike-given_by none = refl
  strike-given_by (some row) = elim (Bool-cases row.is_active) [
    | inl on ↦ rw on refl
    | inr off ↦ rw off refl
  ]

  recover_row-IsUnique :
      (row : RemindRow T) (s : Reminds T)
      → IsUnique row_target s.rows
      → IsUnique target_of s.registrations
      → IsUnique row_target (recover_row c is_alive row s).rows
        × IsUnique target_of (recover_row c is_alive row s).registrations
  unfolding recover_row restore
  recover_row-IsUnique row s u v = elim (Bool-cases (is_lost (restore c row))) [
    | inl lost ↦ rw lost (
      update-IsUnique row_target (keyed row_target (row_target row)) stopped (λ row. refl) s.rows u,
      v,
    )
    | inr found ↦ rw found (u, upsert-IsUnique target_of (restore c row) s.registrations v)
  ]

  recover_rows-IsUnique :
      (rows : List (RemindRow T)) (s : Reminds T)
      → IsUnique row_target s.rows
      → IsUnique target_of s.registrations
      → IsUnique row_target (recover_rows c is_alive rows s).rows
        × IsUnique target_of (recover_rows c is_alive rows s).registrations
  unfolding recover_rows
  recover_rows-IsUnique [] s u v = (u, v)
  recover_rows-IsUnique (row ∷ rows) s u v =
      let (u', v') = recover_row-IsUnique row s u v in
      recover_rows-IsUnique rows (recover_row c is_alive row s) u' v'

  pub recover-IsBacked :
      (s : Reminds T) → IsBacked c s → IsBacked c (recover_remind_registrations c is_alive s)
  unfolding recover_remind_registrations
  recover-IsBacked s b =
      let active : RemindRow T → Bool = λ row. row.is_active in
      let rows = select active s.rows in
      let started : Reminds T = record s { registrations = [] } in
      let (u, v) = recover_rows-IsUnique rows started b.one_row tt in
      let left : (t : String)
          → live c t (recover_rows c is_alive rows started).rows ≡ surviving (live c t s.rows) =
        λ t.
          recover_rows-live t rows started (select-IsUnique row_target active s.rows b.one_row)
          ∙ (ap (λ found. strike found (live c t s.rows))
                (fetch_one-select-keyed row_target active t s.rows b.one_row)
              ∙ strike-given_by (fetch_one (keyed row_target t) s.rows)) in
      record {
        one_row = u;
        one_registration = v;
        backed = λ t. recovers_registrations s b t ∙ (ap surviving (b.backed t) ∙ sym (left t));
      }
