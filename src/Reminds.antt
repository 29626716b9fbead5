-- ===== src/Reminds.antt =====
-- The periodic reminders of src/message_queue.py: `_remind_registrations`, the table
-- remind_registrations, and the methods that change them. A method runs without a wait, so it is one
-- step; a round of `_run_remind_task` is what it does behind one sleep. What the methods call of other
-- parts is returned as calls, in their order.
pub mod Registering
pub mod Rounds
pub mod Backing
pub mod Storing
pub mod Preserving
pub mod Recovery
pub mod Runs
mod Tests
use claude_sessions.Prelude.{
  min, true, ◌&&◌, is_some, ◌||◌, sorted_set, if◌then◌else◌, not, map, ◌∷◌, str_eq, [], Bool, false,
  ◌++◌, Option, List, String, ℕ, none, some, ◌*◌,
}
use claude_sessions.Sql.{upsert, select, fetch_one, update, delete, exists, keyed, replace}
use mathlib.Core.Option

-- `RemindRegistration` of src/models.py; times are in microseconds, thresholds in seconds.
pub record RemindRegistration : Type 0 where
  pub id : String
  pub target_session_id : String
  pub soft_threshold_seconds : ℕ
  pub hard_threshold_seconds : ℕ
  pub registered_at : ℕ
  pub last_reset_at : ℕ
  pub cancel_on_reply_session_ids : List String
  pub persistent_tracking : Bool
  pub tracked_status_nudge_fired : Bool
  pub soft_fired : Bool
  pub is_active : Bool

-- A row of remind_registrations; the owners are a JSON text or NULL.
pub record RemindRow (T : Type 0) : Type 0 where
  pub id : String
  pub target_session_id : String
  pub soft_threshold_seconds : ℕ
  pub hard_threshold_seconds : ℕ
  pub registered_at : ℕ
  pub last_reset_at : ℕ
  pub cancel_on_reply_session_id : Option T
  pub persistent_tracking : Bool
  pub tracked_status_nudge_fired : Bool
  pub soft_fired : Bool
  pub is_active : Bool

-- What `json.loads` gives: a list, of which only the texts of its items are used (an item that counts as
-- false has the empty text), a text, or anything else.
pub data Decoded : Type 0 where
  a_list : List String → Decoded
  a_text : String → Decoded
  another : Decoded

-- `json.dumps` of a list of texts, `json.loads` with none for an error, and the texts as Python has them.
pub record Codec (T : Type 0) : Type 0 where
  pub dumps : List String → T
  pub loads : T → Option Decoded
  pub text_of : T → String

-- The calls that the methods make.
pub data RemindCall : Type 0 where
  -- `cancel_queued_track_reminds`, `cancel_queued_track_status_nudges`
  cancels_track_reminds : String → String → RemindCall
  cancels_nudges : String → RemindCall
  -- the status nudge, a tracked reminder of an owner, a reminder of the target; a Boolean says urgent
  queues_nudge : String → RemindCall
  queues_track_remind : String → String → Bool → RemindCall
  queues_remind : String → Bool → RemindCall
  starts_task : String → RemindCall
  cancels_task : String → RemindCall

pub record Reminds (T : Type 0) : Type 0 where
  pub registrations : List RemindRegistration
  pub rows : List (RemindRow T)
  pub calls : List RemindCall

abbrev pub target_of : RemindRegistration → String
target_of reg = reg.target_session_id

-- a text that counts as true
abbrev pub non_empty : String → Bool
non_empty text = not (str_eq text "")

-- the arguments of `register_periodic_remind`, and the new identifier
pub record RemindRequest : Type 0 where
  pub id : String
  pub target_session_id : String
  pub soft_threshold : ℕ
  pub hard_threshold : ℕ
  pub cancel_on_reply_session_id : Option String
  pub persistent_tracking : Bool
  pub merge_with_existing : Bool

-- `(x,) if x else ()`
abbrev pub owner_list : Option String → List String
owner_list none = []
owner_list (some owner) = if non_empty owner then owner ∷ [] else []

-- `owners.discard(owner)`
abbrev pub discard : String → List String → List String
discard owner owners = delete (str_eq owner) owners

abbrev pub is_in : String → List String → Bool
is_in owner owners = exists (str_eq owner) owners

abbrev pub owners_of : Option Decoded → String → List String
owners_of none text = text ∷ []
owners_of (some (a_list items)) text = select non_empty items
owners_of (some (a_text item)) text = owner_list (some item)
owners_of (some another) text = []

abbrev pub restarted : ℕ → RemindRegistration → RemindRegistration
restarted now reg = record reg {
  last_reset_at = now;
  tracked_status_nudge_fired = false;
  soft_fired = false;
}

abbrev pub with_owners : List String → RemindRegistration → RemindRegistration
with_owners owners reg = record reg { cancel_on_reply_session_ids = owners }

-- what `register_periodic_remind` makes of a registration that it merges with
abbrev pub merged_owners : RemindRequest → RemindRegistration → List String
merged_owners r reg =
    sorted_set (owner_list r.cancel_on_reply_session_id ++ reg.cancel_on_reply_session_ids)

-- a registration as it is put in memory, and its row
abbrev pub new_registration : ℕ → RemindRequest → RemindRegistration
new_registration now r = record {
  id = r.id;
  target_session_id = r.target_session_id;
  soft_threshold_seconds = r.soft_threshold;
  hard_threshold_seconds = r.hard_threshold;
  registered_at = now;
  last_reset_at = now;
  cancel_on_reply_session_ids = owner_list r.cancel_on_reply_session_id;
  persistent_tracking = r.persistent_tracking;
  tracked_status_nudge_fired = false;
  soft_fired = false;
  is_active = true;
}

abbrev pub has_owners : List String → Bool
has_owners [] = false
has_owners (_ ∷ _) = true

module _ {T : Type 0} where
  abbrev pub row_target : RemindRow T → String
  row_target row = row.target_session_id

  abbrev pub call : RemindCall → Reminds T → Reminds T
  call c s = record s { calls = s.calls ++ c ∷ [] }

  abbrev pub call_all : List RemindCall → Reminds T → Reminds T
  call_all cs s = record s { calls = s.calls ++ cs }

  abbrev pub registration_of : String → Reminds T → Option RemindRegistration
  registration_of target s = fetch_one (keyed target_of target) s.registrations

  -- The registration of a target is changed in memory and, by `_update_remind_db`, in the table.
  unfoldable pub edit :
      String
      → (RemindRegistration → RemindRegistration)
      → (RemindRow T → RemindRow T)
      → Reminds T
      → Reminds T
  edit target f g s = record s {
    registrations = update (keyed target_of target) f s.registrations;
    rows = update (keyed row_target target) g s.rows;
  }

  unfoldable pub serialize_owners : Codec T → List String → Option T
  serialize_owners c [] = none
  serialize_owners c (owner ∷ owners) = some (c.dumps (sorted_set (owner ∷ owners)))

  unfoldable pub deserialize_owners : Codec T → Option T → List String
  deserialize_owners c none = []
  deserialize_owners c (some raw) =
      let text = c.text_of raw in if non_empty text then owners_of (c.loads raw) text else []

  -- `cancel_remind`
  unfoldable pub cancel_remind : String → Reminds T → Reminds T
  cancel_remind target s = call (cancels_task target) (elim (registration_of target s) [
    | none ↦ s
    | some reg ↦ record s {
      registrations = delete (keyed target_of target) s.registrations;
      rows = update (keyed row_target target) (λ row. record row { is_active = false }) s.rows;
      calls =
          s.calls
          ++ map (cancels_track_reminds target) reg.cancel_on_reply_session_ids
          ++ cancels_nudges target ∷ [];
    }
  ])

  -- `reset_remind`
  abbrev pub restarted_row : ℕ → RemindRow T → RemindRow T
  restarted_row now row = record row {
    last_reset_at = now;
    tracked_status_nudge_fired = false;
    soft_fired = false;
  }

  unfoldable pub reset_remind : ℕ → String → Bool → Reminds T → Reminds T
  unfolding edit
  reset_remind now target force_tracked s = elim (registration_of target s) [
    | none ↦ s
    | some reg ↦
        if not reg.is_active
          || (has_owners reg.cancel_on_reply_session_ids
              && not (force_tracked || reg.persistent_tracking))
        then s
        else edit target (restarted now) (restarted_row now) s
  ]

  -- `refresh_persistent_tracked_remind`
  unfoldable pub refresh_persistent_tracked_remind : ℕ → String → String → Reminds T → Reminds T
  unfolding reset_remind
  refresh_persistent_tracked_remind now target owner s = elim (registration_of target s) [
    | none ↦ s
    | some reg ↦
        if not reg.is_active
          || not reg.persistent_tracking
          || not (is_in owner reg.cancel_on_reply_session_ids)
        then s
        else reset_remind now target true
            (call (cancels_nudges target) (call (cancels_track_reminds target owner) s))
  ]

  abbrev pub row_with_owners : Codec T → List String → RemindRow T → RemindRow T
  row_with_owners c owners row = record row {
    cancel_on_reply_session_id = serialize_owners c owners;
  }
