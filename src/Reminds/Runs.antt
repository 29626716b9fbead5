-- ===== src/Reminds/Runs.antt =====
-- Any sequence of the calls that change reminders, from an empty table; a start of the program may come
-- between any two of them.
use claude_sessions.Prelude.{
  ◌&&◌, ◌∷◌, not, inr, true, Bool, Option-cases, inl, ◌≡◌, String, Bool-cases, str_eq, [], ℕ, refl,
  none,
}
use claude_sessions.Sql.{fetch_one}
use claude_sessions.Reminds.{
  queues_nudge, RemindRegistration, Codec, Reminds, RemindRequest, cancel_remind, registration_of,
  call_all, reset_remind, refresh_persistent_tracked_remind, has_owners, restarted, restarted_row,
}
use claude_sessions.Reminds.Registering.{register_periodic_remind, cancel_tracked_remind_on_reply}
use claude_sessions.Reminds.Rounds.{
  when, RoundReading, restore, nudge_step, soft_step, hard_step, remind_round, nudges, fires_soft,
  fires_hard, soft_reminds, hard_reminds, recover_remind_registrations,
}
use claude_sessions.Reminds.Backing.{IsFaithful, IsBacked, edit-IsBacked}
use claude_sessions.Reminds.Storing.{carried, cancel_remind-IsBacked}
use claude_sessions.Reminds.Preserving.{
  reset_remind-IsBacked, refresh-IsBacked, reply-IsBacked, register-IsBacked,
}
use claude_sessions.Reminds.Recovery.{recover-IsBacked}

module _ {T : Type 0} (c : Codec T) where
  abbrev pub nothing : Reminds T
  nothing = record { registrations = []; rows = []; calls = [] }

  -- A call; a registration has an identifier that no row has.
  pub data RemindStep : Reminds T → Reminds T → Type 0 where
    registers :
        (now : ℕ) (r : RemindRequest) (s : Reminds T)
        → fetch_one (λ row. str_eq row.id r.id) s.rows ≡ none
        → RemindStep s (register_periodic_remind c now r s).0
    replies :
        (now : ℕ) (sender recipient : String) (s : Reminds T)
        → RemindStep s (cancel_tracked_remind_on_reply c now sender recipient s).0
    resets :
        (now : ℕ) (target : String) (force : Bool) (s : Reminds T)
        → RemindStep s (reset_remind now target force s)
    refreshes :
        (now : ℕ) (target owner : String) (s : Reminds T)
        → RemindStep s (refresh_persistent_tracked_remind now target owner s)
    cancels : (target : String) (s : Reminds T) → RemindStep s (cancel_remind target s)
    goes_round :
        (r : RoundReading) (target : String) (s : Reminds T)
        → RemindStep s (remind_round r target s).0
    recovers :
        (is_alive : String → Bool) (s : Reminds T)
        → RemindStep s (recover_remind_registrations c is_alive s)

  pub data Reach : Reminds T → Type 0 where
    starts : Reach nothing
    steps : {s s' : Reminds T} → Reach s → RemindStep s s' → Reach s'

  nudge_step-IsBacked :
      (r : RoundReading) (reg : RemindRegistration) (s : Reminds T)
      → IsBacked c s
      → IsBacked c (nudge_step r reg s)
  unfolding nudge_step restore
  nudge_step-IsBacked r reg s b = elim (Bool-cases (nudges r reg)) [
    | inl on ↦ rw on (
        edit-IsBacked c reg.target_session_id
          (λ reg. record reg { tracked_status_nudge_fired = true })
          (λ row. record row { tracked_status_nudge_fired = true })
          (call_all (when (not r.nudge_pending) (queues_nudge reg.target_session_id ∷ [])) s)
          (λ reg. refl) (λ row. refl) (λ row. refl) (λ row. refl) (carried c s _ refl refl b))
    | inr off ↦ rw off b
  ]

  soft_step-IsBacked :
      (r : RoundReading) (reg : RemindRegistration) (s : Reminds T)
      → IsBacked c s
      → IsBacked c (soft_step r reg s)
  unfolding soft_step restore
  soft_step-IsBacked r reg s b = elim (Bool-cases (fires_soft r reg)) [
    | inl on ↦ rw on (
        edit-IsBacked c reg.target_session_id (λ reg. record reg { soft_fired = true })
          (λ row. record row { soft_fired = true }) (call_all (soft_reminds r reg) s) (λ reg. refl)
          (λ row. refl) (λ row. refl) (λ row. refl) (carried c s _ refl refl b))
    | inr off ↦ rw off b
  ]

  hard_step-IsBacked :
      (r : RoundReading) (reg : RemindRegistration) (s : Reminds T)
      → IsBacked c s
      → IsBacked c (hard_step r reg s)
  unfolding hard_step restore
  hard_step-IsBacked r reg s b = elim (Bool-cases (fires_hard r reg)) [
    | inl on ↦ rw on (
        edit-IsBacked c reg.target_session_id (restarted r.now) (restarted_row r.now)
          (call_all (hard_reminds r reg) s) (λ reg. refl) (λ row. refl) (λ row. refl) (λ row. refl)
          (carried c s _ refl refl b))
    | inr off ↦ rw off b
  ]

  remind_round-IsBacked :
      (r : RoundReading) (target : String) (s : Reminds T)
      → IsBacked c s
      → IsBacked c (remind_round r target s).0
  unfolding remind_round
  remind_round-IsBacked r target s b = elim (Option-cases (registration_of target s)) [
    | inl e ↦ rw (remind_round, e) b
    | inr (reg, e) ↦
        let nudged = nudge_step r reg s in
        let all =
          hard_step-IsBacked r reg (soft_step r reg nudged)
            (soft_step-IsBacked r reg nudged (nudge_step-IsBacked r reg s b)) in
        elim (Bool-cases (not reg.is_active)) [
          | inl off ↦ rw (remind_round, e, off) b
          | inr on ↦
              elim (Bool-cases (has_owners reg.cancel_on_reply_session_ids && not r.is_alive)) [
                | inl dead ↦ rw (remind_round, e, on, dead) (cancel_remind-IsBacked c target s b)
                | inr alive ↦ elim (Bool-cases r.is_compacting) [
                  | inl waits ↦ rw (remind_round, e, on, alive, waits) b
                  | inr goes ↦ rw (remind_round, e, on, alive, goes) all
                ]
              ]
        ]
  ]

  module _ (faithful : IsFaithful c) where
    step-IsBacked : {s s' : Reminds T} → RemindStep s s' → IsBacked c s → IsBacked c s'
    step-IsBacked (registers now r s fresh) b = register-IsBacked c faithful now r s fresh b
    step-IsBacked (replies now sender recipient s) b =
        reply-IsBacked c faithful now sender recipient s b
    step-IsBacked (resets now target force s) b = reset_remind-IsBacked c now target force s b
    step-IsBacked (refreshes now target owner s) b = refresh-IsBacked c now target owner s b
    step-IsBacked (cancels target s) b = cancel_remind-IsBacked c target s b
    step-IsBacked (goes_round r target s) b = remind_round-IsBacked r target s b
    step-IsBacked (recovers is_alive s) b = recover-IsBacked c is_alive s b

    -- If JSON reads back the lists that it writes, then after any sequence of calls, rounds and
    -- starts of the program from an empty table, in which each registration has a new identifier,
    -- the table holds at most one row of a target, the memory at most one registration, and the
    -- registration of a target is the one that its active row gives.
    pub Reach-IsBacked : {s : Reminds T} → Reach s → IsBacked c s
    unfolding fetch_one
    Reach-IsBacked starts = record { one_row = tt; one_registration = tt; backed = λ t. refl }
    Reach-IsBacked (steps reached step) = step-IsBacked step (Reach-IsBacked reached)
