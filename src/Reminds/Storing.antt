-- ===== src/Reminds/Storing.antt =====
-- A registration that is dropped, and one that is put in memory with its row.
use claude_sessions.Prelude.{
  ◌++◌, subst, Bool-cases, inr, inl, ◌∙◌, Option-cases, str_eq, [], ◌∷◌, if◌then◌else◌, true,
  Option, ◌≡◌, String, List, refl, none, some, sym, ap, arith,
}
use claude_sessions.Sql.{
  fetch_one-replace, replace-IsUnique, delete-or, fetch_one-delete-keyed, delete-IsUnique,
  fetch_one_sound, select-All, fetch_one, update, delete, keyed, IsUnique, upsert, upsert-IsUnique,
  update-IsUnique, fetch_one-update, fetch_one-upsert, select,
}
use claude_sessions.Reminds.{
  replace, RemindRegistration, RemindRow, Codec, Reminds, target_of, row_target, cancel_remind,
  registration_of,
}
use claude_sessions.Reminds.Registering.{insert_or_replace, start_remind, row_of}
use claude_sessions.Reminds.Rounds.{restore}
use claude_sessions.Reminds.Backing.{
  meets, parts, IsFaithful, AreOwners, IsBacked, given_by, live, stopped, owners_read_back,
}

module _ {T : Type 0} (c : Codec T) where
  -- The calls of a state do not matter.
  pub carried :
      (s s' : Reminds T)
      → s.registrations ≡ s'.registrations
      → s.rows ≡ s'.rows
      → IsBacked c s
      → IsBacked c s'
  carried s s' e e' b = record {
    one_row = subst (IsUnique row_target) e' b.one_row;
    one_registration = subst (IsUnique target_of) e b.one_registration;
    backed = λ t. ap (fetch_one (keyed target_of t)) (sym e) ∙ (b.backed t ∙ ap (live c t) e');
  }

  pub live-stopped :
      (target t : String) (rows : List (RemindRow T))
      → live c t (update (keyed row_target target) stopped rows)
        ≡ (if str_eq target t then none else live c t rows)
  live-stopped target t rows =
      ap (given_by c)
        (fetch_one-update (keyed row_target t) (keyed row_target target) stopped (λ row. refl) rows)
      ∙ elim (Option-cases (fetch_one (keyed row_target t) rows)) [
        | inl e ↦ rw e (ground arith)
        | inr (row, e) ↦
            let its = fetch_one_sound (keyed row_target t) rows row e in
            rw e (elim (Bool-cases (keyed row_target target row)) [
              | inl gone ↦ rw (gone, meets row.target_session_id target t gone its) refl
              | inr other ↦ rw (other, parts row.target_session_id target t other its) refl
            ])
      ]

  pub cancel_remind-IsBacked :
      (target : String) (s : Reminds T) → IsBacked c s → IsBacked c (cancel_remind target s)
  unfolding cancel_remind
  cancel_remind-IsBacked target s b = elim (Option-cases (registration_of target s)) [
    | inl e ↦
        carried s (cancel_remind target s) (rw (cancel_remind, e) refl) (rw (cancel_remind, e) refl)
          b
    | inr (reg, e) ↦
        let off : Reminds T = record s {
          registrations = delete (keyed target_of target) s.registrations;
          rows = update (keyed row_target target) stopped s.rows;
        } in
        let dropped : IsBacked c off = record {
          one_row =
              update-IsUnique row_target (keyed row_target target) stopped (λ row. refl) s.rows
                b.one_row;
          one_registration =
              delete-IsUnique target_of (keyed target_of target) s.registrations b.one_registration;
          backed = λ t.
              fetch_one-delete-keyed target_of target t s.registrations
              ∙ (ap (λ found. if str_eq target t then none else found) (b.backed t)
                  ∙ sym (live-stopped target t s.rows));
        } in
        carried off (cancel_remind target s) (rw (cancel_remind, e) refl)
          (rw (cancel_remind, e) refl) dropped
  ]

  pub restore-row_of :
      IsFaithful c
      → (reg : RemindRegistration) → AreOwners reg.cancel_on_reply_session_ids
      → reg.is_active ≡ true
      → restore c (row_of c reg) ≡ reg
  unfolding restore
  restore-row_of faithful reg are active =
      rw (owners_read_back faithful reg.cancel_on_reply_session_ids are, ← active) refl

  pub row-given_by :
      (row : RemindRow T) → row.is_active ≡ true → given_by c (some row) ≡ some (restore c row)
  row-given_by row on = rw on refl

  started-given_by :
      IsFaithful c
      → (reg : RemindRegistration) (t : String) (old : Option RemindRegistration)
        (row : Option (RemindRow T))
      → AreOwners reg.cancel_on_reply_session_ids
      → reg.is_active ≡ true
      → old ≡ given_by c row
      → (if str_eq reg.target_session_id t then some reg else old)
        ≡ given_by c (if str_eq reg.target_session_id t then some (row_of c reg) else row)
  started-given_by faithful reg t old row are active e =
      elim (Bool-cases (str_eq reg.target_session_id t)) [
        | inl its ↦ rw its (
            ap some (sym (restore-row_of faithful reg are active))
            ∙ sym (row-given_by (row_of c reg) active))
        | inr other ↦ rw other e
      ]

  -- A registration that is put in memory with its row, under an identifier that no row has.
  pub start_remind-IsBacked :
      IsFaithful c
      → (reg : RemindRegistration) (s : Reminds T) → AreOwners reg.cancel_on_reply_session_ids
      → reg.is_active ≡ true
      → fetch_one (λ row. str_eq row.id reg.id) s.rows ≡ none
      → IsBacked c s
      → IsBacked c (start_remind c reg s)
  unfolding start_remind insert_or_replace claude_sessions.Sql.replace
  start_remind-IsBacked faithful reg s are active fresh b =
      let row = row_of c reg in
      let replaced =
        ap (λ kept. kept ++ row ∷ [])
          (delete-or (λ old. str_eq old.id reg.id) (keyed row_target reg.target_session_id) s.rows
            fresh) in
      record {
        one_row =
            subst (IsUnique row_target) (sym replaced)
              (replace-IsUnique row_target row s.rows b.one_row);
        one_registration = upsert-IsUnique target_of reg s.registrations b.one_registration;
        backed = λ t.
            fetch_one-upsert target_of reg t s.registrations
            ∙ (started-given_by faithful reg t (registration_of t s)
                  (fetch_one (keyed row_target t) s.rows) are active (b.backed t)
                ∙ ap (given_by c) (
                    sym (
                      ap (fetch_one (keyed row_target t)) replaced
                      ∙ fetch_one-replace row_target row t s.rows)));
      }
