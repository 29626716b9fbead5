-- ===== src/Reminds/Backing.antt =====
-- The table of reminders holds what the memory holds.
use claude_sessions.Prelude.{
  str_eq_iff, false, Bool, Bool-cases, inr, inl, ◌∙◌, str_eq, [], sorted_set_sorted, ◌∷◌,
  if◌then◌else◌, true, Option, IsSorted, ◌≡◌, String, List, refl, none, some, sym, ap, arith, All,
}
use claude_sessions.Sql.{
  select-All, fetch_one, update, keyed, IsUnique, update-IsUnique, fetch_one-update,
}
use claude_sessions.Reminds.{
  RemindRegistration, RemindRow, Codec, Reminds, a_list, target_of, row_target, edit, non_empty,
  serialize_owners, deserialize_owners, registration_of,
}
use claude_sessions.Reminds.Rounds.{restore}
use mathlib.Core.Option

abbrev change :
    String → (RemindRegistration → RemindRegistration) → RemindRegistration → RemindRegistration
change target f reg = if keyed target_of target reg then f reg else reg

map_if :
    (a b : Bool) (x y : RemindRegistration) (h : RemindRegistration → RemindRegistration)
    → a ≡ b
    → x ≡ h y
    → (if a then some x else none) ≡ Option.map h (if b then some y else none)
map_if a true x y h e e' = rw e (ap some e')
map_if a false x y h e e' = rw e refl

pub meets :
    (a target t : String) → str_eq a target ≡ true → str_eq a t ≡ true → str_eq target t ≡ true
meets a target t gone its =
    ground (arith, gone, its, str_eq_iff a target, str_eq_iff a t, str_eq_iff target t)

pub parts :
    (a target t : String) → str_eq a target ≡ false → str_eq a t ≡ true → str_eq target t ≡ false
parts a target t other its =
    ground (arith, other, its, str_eq_iff a target, str_eq_iff a t, str_eq_iff target t)

abbrev pub stopped : {T : Type 0} → RemindRow T → RemindRow T
stopped row = record row { is_active = false }

-- What `json` does of a list of texts, and that a JSON text is not empty.
pub record IsFaithful {T : Type 0} (c : Codec T) : Type 0 where
  pub reads_back : (owners : List String) → c.loads (c.dumps owners) ≡ some (a_list owners)
  pub is_text : (owners : List String) → non_empty (c.text_of (c.dumps owners)) ≡ true

-- a tuple of owners as the methods make them
abbrev pub AreOwners : List String → Type 0
AreOwners owners = IsSorted owners × All (λ owner. non_empty owner ≡ true) owners

module _ {T : Type 0} (c : Codec T) where
  abbrev pub given_by : Option (RemindRow T) → Option RemindRegistration
  given_by none = none
  given_by (some row) = if row.is_active then some (restore c row) else none

  -- the registration that the table holds of a target
  abbrev pub live : String → List (RemindRow T) → Option RemindRegistration
  live target rows = given_by (fetch_one (keyed row_target target) rows)

  pub record IsBacked (s : Reminds T) : Type 0 where
    pub one_row : IsUnique row_target s.rows
    pub one_registration : IsUnique target_of s.registrations
    pub backed : (target : String) → registration_of target s ≡ live target s.rows

module _ {T : Type 0} {c : Codec T} (faithful : IsFaithful c) where
  pub owners_read_back :
      (owners : List String)
      → AreOwners owners
      → deserialize_owners c (serialize_owners c owners) ≡ owners
  unfolding deserialize_owners serialize_owners
  owners_read_back [] are = refl
  owners_read_back (owner ∷ owners) are = rw (sorted_set_sorted (owner ∷ owners) are.0) (
      rw (faithful.is_text (owner ∷ owners))
        (rw (faithful.reads_back (owner ∷ owners)) (select-All non_empty (owner ∷ owners) are.1)))

module _ {T : Type 0} (c : Codec T) where
  changed :
      (target : String) (f : RemindRegistration → RemindRegistration) (row : RemindRow T)
      → keyed row_target target row ≡ true
      → change target f (restore c row) ≡ f (restore c row)
  unfolding restore
  changed target f row its = rw its refl

  unchanged :
      (target : String) (f : RemindRegistration → RemindRegistration) (row : RemindRow T)
      → keyed row_target target row ≡ false
      → change target f (restore c row) ≡ restore c row
  unfolding restore
  unchanged target f row other = rw other refl

  given_by-update :
      (target : String) (f : RemindRegistration → RemindRegistration)
      (g : RemindRow T → RemindRow T) (row : Option (RemindRow T))
      → ((row : RemindRow T) → (g row).is_active ≡ row.is_active)
      → ((row : RemindRow T) → restore c (g row) ≡ f (restore c row))
      → given_by c (Option.map (λ row. if keyed row_target target row then g row else row) row)
        ≡ Option.map (change target f) (given_by c row)
  given_by-update target f g none active same = refl
  given_by-update target f g (some row) active same =
      elim (Bool-cases (keyed row_target target row)) [
        | inl its ↦ rw its (
            map_if (g row).is_active row.is_active (restore c (g row)) (restore c row)
              (change target f) (active row) (same row ∙ sym (changed target f row its)))
        | inr other ↦ rw other (
            map_if row.is_active row.is_active (restore c row) (restore c row) (change target f)
              refl (sym (unchanged target f row other)))
      ]

  live-update :
      (t target : String) (f : RemindRegistration → RemindRegistration)
      (g : RemindRow T → RemindRow T) (rows : List (RemindRow T))
      → ((row : RemindRow T) → row_target (g row) ≡ row_target row)
      → ((row : RemindRow T) → (g row).is_active ≡ row.is_active)
      → ((row : RemindRow T) → restore c (g row) ≡ f (restore c row))
      → live c t (update (keyed row_target target) g rows)
        ≡ Option.map (change target f) (live c t rows)
  live-update t target f g rows keeps active same =
      ap (given_by c) (
        fetch_one-update (keyed row_target t) (keyed row_target target) g
          (λ row. ap (λ k. str_eq k t) (keeps row)) rows)
      ∙ given_by-update target f g (fetch_one (keyed row_target t) rows) active same

  -- A change that is the same in memory and in the table.
  pub edit-IsBacked :
      (target : String) (f : RemindRegistration → RemindRegistration)
      (g : RemindRow T → RemindRow T) (s : Reminds T)
      → ((reg : RemindRegistration) → target_of (f reg) ≡ target_of reg)
      → ((row : RemindRow T) → row_target (g row) ≡ row_target row)
      → ((row : RemindRow T) → (g row).is_active ≡ row.is_active)
      → ((row : RemindRow T) → restore c (g row) ≡ f (restore c row))
      → IsBacked c s
      → IsBacked c (edit target f g s)
  unfolding edit
  edit-IsBacked target f g s keeps keeps' active same b = record {
    one_row = update-IsUnique row_target (keyed row_target target) g keeps' s.rows b.one_row;
    one_registration =
        update-IsUnique target_of (keyed target_of target) f keeps s.registrations
          b.one_registration;
    backed = λ t.
        fetch_one-update (keyed target_of t) (keyed target_of target) f
          (λ reg. ap (λ k. str_eq k t) (keeps reg)) s.registrations
        ∙ ap (Option.map (change target f)) (b.backed t)
        ∙ sym (live-update t target f g s.rows keeps' active same);
  }
