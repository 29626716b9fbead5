-- ===== src/Reminds/Preserving.antt =====
-- Every method keeps the table of reminders equal to the memory.
use claude_sessions.Prelude.{
  if◌then◌else◌, ◌++◌, sorted_set-All, sorted_set-IsSorted, str_eq, sorted_set, subst, [], ◌∷◌,
  IsSorted, ◌&&◌, ◌||◌, not, inr, Option-cases, ◌∙◌, inl, true, Bool, Bool-cases, ◌≡◌, String, List,
  Option, ℕ, refl, none, some, sym, ap, arith, All,
}
use claude_sessions.Sql.{fetch_one-update, All-select, fetch_one, delete, keyed}
use claude_sessions.Reminds.{
  a_list, a_text, another, Decoded, a_text, a_list, Decoded, RemindRegistration, RemindRow, Codec,
  Reminds, RemindRequest, row_target, edit, cancel_remind, owner_list, non_empty, owners_of,
  deserialize_owners, registration_of, call, reset_remind, restarted, restarted_row,
  refresh_persistent_tracked_remind, with_owners, discard, is_in, has_owners, new_registration,
  cancels_nudges, cancels_track_reminds, row_with_owners,
}
use claude_sessions.Reminds.Registering.{
  merged, merged_row, merge, register_periodic_remind, cancel_tracked_remind_on_reply,
}
use claude_sessions.Reminds.Rounds.{restore}
use claude_sessions.Reminds.Backing.{
  stopped, IsFaithful, AreOwners, IsBacked, given_by, owners_read_back, edit-IsBacked,
}
use claude_sessions.Reminds.Storing.{
  row-given_by, carried, cancel_remind-IsBacked, start_remind-IsBacked,
}
use mathlib.Core.Option

abbrev AllNamed : List String → Type 0
AllNamed owners = All (λ owner. non_empty owner ≡ true) owners

owner_list-non_empty : (owner : Option String) → AllNamed (owner_list owner)
owner_list-non_empty none = tt
owner_list-non_empty (some owner) = elim (Bool-cases (non_empty owner)) [
  | inl is ↦ rw is (is, tt)
  | inr blank ↦ rw blank tt
]

owner_list-IsSorted : (owner : Option String) → IsSorted (owner_list owner)
owner_list-IsSorted none = tt
owner_list-IsSorted (some owner) = elim (Bool-cases (non_empty owner)) [
  | inl is ↦ rw is (tt, tt)
  | inr blank ↦ rw blank tt
]

discard-non_empty :
    (owner : String) (owners : List String) → AllNamed owners → AllNamed (discard owner owners)
unfolding delete
discard-non_empty owner [] all = tt
discard-non_empty owner (other ∷ owners) all = elim (Bool-cases (str_eq owner other)) [
  | inl same ↦ rw same (discard-non_empty owner owners all.1)
  | inr apart ↦ rw apart (all.0, discard-non_empty owner owners all.1)
]

append-named : (a b : List String) → AllNamed a → AllNamed b → AllNamed (a ++ b)
append-named [] b all all' = all'
append-named (owner ∷ a) b all all' = (all.0, append-named a b all.1 all')

owners_of_record : Option RemindRegistration → List String
owners_of_record none = []
owners_of_record (some reg) = reg.cancel_on_reply_session_ids

owners_of-non_empty :
    (decoded : Option Decoded) (text : String)
    → non_empty text ≡ true
    → All (λ owner. non_empty owner ≡ true) (owners_of decoded text)
owners_of-non_empty none text is = (is, tt)
owners_of-non_empty (some (a_list items)) text is = All-select non_empty items
owners_of-non_empty (some (a_text item)) text is = owner_list-non_empty (some item)
owners_of-non_empty (some another) text is = tt

module _ {T : Type 0} (c : Codec T) where
  deserialize-non_empty : (raw : Option T) → AllNamed (deserialize_owners c raw)
  unfolding deserialize_owners
  deserialize-non_empty none = tt
  deserialize-non_empty (some raw) = elim (Bool-cases (non_empty (c.text_of raw))) [
    | inl is ↦ rw is (owners_of-non_empty (c.loads raw) (c.text_of raw) is)
    | inr blank ↦ rw blank tt
  ]

  given_by-non_empty :
      (row : Option (RemindRow T)) (reg : RemindRegistration)
      → given_by c row ≡ some reg
      → AllNamed reg.cancel_on_reply_session_ids
  unfolding restore owners_of_record
  given_by-non_empty none reg e = absurd (ground (arith, e))
  given_by-non_empty (some row) reg e = elim (Bool-cases row.is_active) [
    | inl on ↦
        subst AllNamed (ap owners_of_record (sym (row-given_by c row on) ∙ e))
          (deserialize-non_empty row.cancel_on_reply_session_id)
    | inr off ↦ absurd (ground (arith, e, off))
  ]

  registered-non_empty :
      (target : String) (reg : RemindRegistration) (s : Reminds T)
      → IsBacked c s
      → registration_of target s ≡ some reg
      → AllNamed reg.cancel_on_reply_session_ids
  registered-non_empty target reg s b e =
      given_by-non_empty (fetch_one (keyed row_target target) s.rows) reg
        (sym (b.backed target) ∙ e)

  pub reset_remind-IsBacked :
      (now : ℕ) (target : String) (force : Bool) (s : Reminds T)
      → IsBacked c s
      → IsBacked c (reset_remind now target force s)
  unfolding reset_remind restore
  reset_remind-IsBacked now target force s b = elim (Option-cases (registration_of target s)) [
    | inl e ↦ rw (reset_remind, e) b
    | inr (reg, e) ↦
        elim (Bool-cases (
          not reg.is_active
          || (has_owners reg.cancel_on_reply_session_ids
              && not (force || reg.persistent_tracking)))) [
                | inl stays ↦ rw (reset_remind, e, stays) b
                | inr goes ↦
                    rw (reset_remind, e, goes)
                      (edit-IsBacked c target (restarted now) (restarted_row now) s (λ reg. refl)
                        (λ row. refl) (λ row. refl) (λ row. refl) b)
              ]
  ]

  cancel_remind-fresh :
      (id target : String) (s : Reminds T)
      → fetch_one (λ row. str_eq row.id id) s.rows ≡ none
      → fetch_one (λ row. str_eq row.id id) (cancel_remind target s).rows ≡ none
  unfolding cancel_remind
  cancel_remind-fresh id target s fresh = elim (Option-cases (registration_of target s)) [
    | inl e ↦ rw (cancel_remind, e) fresh
    | inr (reg, e) ↦
        rw (cancel_remind, e)
          (fetch_one-update (λ row. str_eq row.id id) (keyed row_target target) stopped
              (λ row. refl) s.rows
            ∙ ap (Option.map (λ row. if keyed row_target target row then stopped row else row))
                fresh)
  ]

  pub refresh-IsBacked :
      (now : ℕ) (target owner : String) (s : Reminds T)
      → IsBacked c s
      → IsBacked c (refresh_persistent_tracked_remind now target owner s)
  unfolding refresh_persistent_tracked_remind
  refresh-IsBacked now target owner s b = elim (Option-cases (registration_of target s)) [
    | inl e ↦ rw (refresh_persistent_tracked_remind, e) b
    | inr (reg, e) ↦
        let told = call (cancels_nudges target) (call (cancels_track_reminds target owner) s) in
        elim (Bool-cases (
          not reg.is_active
          || not reg.persistent_tracking
          || not (is_in owner reg.cancel_on_reply_session_ids))) [
            | inl stays ↦ rw (refresh_persistent_tracked_remind, e, stays) b
            | inr goes ↦
                rw (refresh_persistent_tracked_remind, e, goes)
                  (reset_remind-IsBacked now target true told (carried c s told refl refl b))
          ]
  ]

  module _ (faithful : IsFaithful c) where
    with_owners-IsBacked :
        (target : String) (owners : List String) (s : Reminds T)
        → AreOwners owners
        → IsBacked c s
        → IsBacked c (edit target (with_owners owners) (row_with_owners c owners) s)
    unfolding restore
    with_owners-IsBacked target owners s are b =
        edit-IsBacked c target (with_owners owners) (row_with_owners c owners) s (λ reg. refl)
          (λ row. refl) (λ row. refl) (λ row. rw (owners_read_back faithful owners are) refl) b

    pub reply-IsBacked :
        (now : ℕ) (sender recipient : String) (s : Reminds T)
        → IsBacked c s
        → IsBacked c (cancel_tracked_remind_on_reply c now sender recipient s).0
    unfolding cancel_tracked_remind_on_reply
    reply-IsBacked now sender recipient s b = elim (Option-cases (registration_of sender s)) [
      | inl e ↦ rw (cancel_tracked_remind_on_reply, e) b
      | inr (reg, e) ↦
          let owners = sorted_set (discard recipient reg.cancel_on_reply_session_ids) in
          let told = call (cancels_track_reminds sender recipient) s in
          let edited = edit sender (with_owners owners) (row_with_owners c owners) s in
          let named = registered-non_empty sender reg s b e in
          let are : AreOwners owners = (
            sorted_set-IsSorted (discard recipient reg.cancel_on_reply_session_ids),
            sorted_set-All (λ owner. non_empty owner ≡ true)
                (discard recipient reg.cancel_on_reply_session_ids)
                (discard-non_empty recipient reg.cancel_on_reply_session_ids named),
          ) in
          elim (Bool-cases
            (not reg.is_active || not (is_in recipient reg.cancel_on_reply_session_ids))) [
              | inl stays ↦ rw (cancel_tracked_remind_on_reply, e, stays) b
              | inr goes ↦ elim (Bool-cases reg.persistent_tracking) [
                | inl persistent ↦
                    rw (cancel_tracked_remind_on_reply, e, goes, persistent)
                      (refresh-IsBacked now sender recipient s b)
                | inr passing ↦ elim (Bool-cases (has_owners owners)) [
                  | inl others ↦
                      rw (cancel_tracked_remind_on_reply, e, goes, passing, others)
                        (carried c edited (call (cancels_track_reminds sender recipient) edited)
                          refl refl (with_owners-IsBacked sender owners s are b))
                  | inr last ↦
                      rw (cancel_tracked_remind_on_reply, e, goes, passing, last)
                        (cancel_remind-IsBacked c sender told (carried c s told refl refl b))
                ]
              ]
            ]
    ]

    merge-IsBacked :
        (now : ℕ) (r : RemindRequest) (old : RemindRegistration) (s : Reminds T)
        → AllNamed old.cancel_on_reply_session_ids
        → IsBacked c s
        → IsBacked c (merge c now r old s)
    unfolding merge restore edit
    merge-IsBacked now r old s named b =
        let told = call (cancels_nudges r.target_session_id) s in
        let all = owner_list r.cancel_on_reply_session_id ++ old.cancel_on_reply_session_ids in
        let are : AreOwners (sorted_set all) = (
          sorted_set-IsSorted all,
          sorted_set-All (λ owner. non_empty owner ≡ true) all
              (append-named (owner_list r.cancel_on_reply_session_id)
                old.cancel_on_reply_session_ids (owner_list-non_empty r.cancel_on_reply_session_id)
                named),
        ) in
        edit-IsBacked c r.target_session_id (merged now r old) (merged_row c now r old) told
          (λ reg. refl) (λ row. refl) (λ row. refl)
          (λ row. rw (owners_read_back faithful (sorted_set all) are) refl)
          (carried c s told refl refl b)

    pub register-IsBacked :
        (now : ℕ) (r : RemindRequest) (s : Reminds T)
        → fetch_one (λ row. str_eq row.id r.id) s.rows ≡ none
        → IsBacked c s
        → IsBacked c (register_periodic_remind c now r s).0
    unfolding register_periodic_remind
    register-IsBacked now r s fresh b =
        let cancelled = cancel_remind r.target_session_id s in
        let started =
          start_remind-IsBacked c faithful (new_registration now r) cancelled
            (
              owner_list-IsSorted r.cancel_on_reply_session_id,
              owner_list-non_empty r.cancel_on_reply_session_id,
            )
            refl (cancel_remind-fresh r.id r.target_session_id s fresh)
            (cancel_remind-IsBacked c r.target_session_id s b) in
        elim (Option-cases (registration_of r.target_session_id s)) [
          | inl e ↦ rw (register_periodic_remind, e) started
          | inr (old, e) ↦ elim (Bool-cases (r.merge_with_existing && old.is_active)) [
            | inl merges ↦
                rw (register_periodic_remind, e, merges)
                  (merge-IsBacked now r old s (registered-non_empty r.target_session_id old s b e)
                    b)
            | inr anew ↦ rw (register_periodic_remind, e, anew) started
          ]
        ]
