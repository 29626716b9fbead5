-- ===== src/MessageQueue/StopTurns.antt =====
-- Which stop notifies the sender of a message, and which stops a fence absorbs.
use claude_sessions.MessageQueue.State.{DeliveryState}
use claude_sessions.MessageQueue.{none, ltb, false, true, ◌∷◌, String, Option, List, given}
use claude_sessions.MessageQueue.StopCalls.{count_notified}
use claude_sessions.MessageQueue.StopCounts.{count_notified-append}
use claude_sessions.MessageQueue.Stops.{
  mark_session_idle, within, absorb, emit, cancels_reconcile, tries_delivery,
}
use claude_sessions.Prelude.{
  ap, refl, ◌&&◌, [], ◌∙◌, ◌==◌, if◌then◌else◌, All, arith, ◌≤◌, ◌≡◌, ◌-◌, ℕ, ◌+◌,
}
use claude_sessions.MessageQueue.Stops.{Stop, Stops}

-- the stops of a session, one behind the other
unfoldable pub run_stops : ℕ → List Stop → Stops → Stops
unfolding mark_session_idle
run_stops window [] s = s
run_stops window (r ∷ hooks) s = run_stops window hooks (mark_session_idle window r s)

unfoldable pub hook_count : List Stop → ℕ
hook_count [] = 0
hook_count (_ ∷ hooks) = 1 + hook_count hooks

-- a stop hook that comes while the fence stands
abbrev pub IsHook : ℕ → Option ℕ → Stop → Type 0
IsHook window armed r = (r.from_stop_hook ≡ true) × (within r.now window armed ≡ true)

-- the state when n hooks were absorbed
abbrev pub with_absorbed : ℕ → DeliveryState → DeliveryState
with_absorbed n state =
    let left = state.stop_notify_skip_count - n in
    record state {
      stop_notify_skip_count = left;
      skip_count_armed_at = if ltb 0 n && (left == 0) then none else state.skip_count_armed_at;
    }

module _ (window : ℕ) (id : String) where
  absorb_one :
      (r : Stop) (s : Stops)
      → given s.state.pending_handoff_path ≡ false
      → IsHook window s.state.skip_count_armed_at r
      → 1 ≤ s.state.stop_notify_skip_count
      → mark_session_idle window r s ≡ absorb (emit cancels_reconcile s)
  unfolding mark_session_idle
  absorb_one r s no_handoff hook armed = ground (arith, no_handoff, hook.0, hook.1, armed)

  absorb-count :
      (s : Stops)
      → count_notified id (absorb (emit cancels_reconcile s)).effects ≡ count_notified id s.effects
  unfolding absorb count_notified
  absorb-count s = omega (
    arith,
    count_notified-append id (emit cancels_reconcile s).effects tries_delivery,
    count_notified-append id s.effects cancels_reconcile,
  )

  with_absorbed-add :
      (n : ℕ) (state : DeliveryState)
      → 1 + n ≤ state.stop_notify_skip_count
      → with_absorbed n (with_absorbed 1 state) ≡ with_absorbed (1 + n) state
  with_absorbed-add n state fits = ground (arith, fits)

  hooks_moved :
      (hooks : List Stop) (armed armed' : Option ℕ)
      → armed' ≡ armed
      → All (IsHook window armed) hooks
      → All (IsHook window armed') hooks
  hooks_moved hooks armed armed' e all = rw e all

  armed_kept :
      (s : Stops)
      → 2 ≤ s.state.stop_notify_skip_count
      → (absorb (emit cancels_reconcile s)).state.skip_count_armed_at ≡ s.state.skip_count_armed_at
  unfolding absorb
  armed_kept s fits = ground (arith, fits)

  still_armed :
      (hooks : List Stop) (s : Stops)
      → 1 + hook_count hooks ≤ s.state.stop_notify_skip_count
      → All (IsHook window s.state.skip_count_armed_at) hooks
      → All (IsHook window (absorb (emit cancels_reconcile s)).state.skip_count_armed_at) hooks
  unfolding hook_count
  still_armed [] s fits all = tt
  still_armed (r ∷ hooks) s fits all =
      hooks_moved (r ∷ hooks) s.state.skip_count_armed_at
        (absorb (emit cancels_reconcile s)).state.skip_count_armed_at
        (armed_kept s (omega (arith, fits))) all

  fewer :
      (hooks : List Stop) (s : Stops)
      → 1 + hook_count hooks ≤ s.state.stop_notify_skip_count
      → hook_count hooks ≤ (absorb (emit cancels_reconcile s)).state.stop_notify_skip_count
  unfolding absorb
  fewer hooks s fits = omega (arith, fits)

  -- While no handoff is pending, stop hooks that come within the window of a fence, no more of them
  -- than it has slots, notify no one and end no turn: of the state only the slots change, one for
  -- each hook, and when the last slot is taken the time of the fence is forgotten; a delayed
  -- notification stays.
  pub fence_absorbs :
      (hooks : List Stop) (s : Stops)
      → given s.state.pending_handoff_path ≡ false
      → hook_count hooks ≤ s.state.stop_notify_skip_count
      → All (IsHook window s.state.skip_count_armed_at) hooks
      → ((run_stops window hooks s).state ≡ with_absorbed (hook_count hooks) s.state)
        × (((run_stops window hooks s).delayed ≡ s.delayed)
            × (count_notified id (run_stops window hooks s).effects ≡ count_notified id s.effects))
  unfolding run_stops hook_count
  fence_absorbs [] s no_handoff fits all = (ground arith, (refl, refl))
  fence_absorbs (r ∷ hooks) s no_handoff fits all =
      let s' = absorb (emit cancels_reconcile s) in
      let one =
        ap (run_stops window hooks) (absorb_one r s no_handoff all.0 (omega (arith, fits))) in
      let rest =
        fence_absorbs hooks s' no_handoff (fewer hooks s fits) (still_armed hooks s fits all.1) in
      (
        ap (λ t. t.state) one ∙ rest.0 ∙ with_absorbed-add (hook_count hooks) s.state fits,
        (
          ap (λ t. t.delayed) one ∙ rest.1.0,
          ap (λ t. count_notified id t.effects) one ∙ rest.1.1 ∙ absorb-count s,
        ),
      )
