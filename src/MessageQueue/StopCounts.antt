-- ===== src/MessageQueue/StopCounts.antt =====
-- What a stop sends and leaves due to a sender, no more than was due.
use claude_sessions.Prelude.{
  ℕ, ◌+◌, ◌≤◌, String, ◌≡◌, refl, ap, ◌∙◌, Bool, true, ◌||◌, Option, some, List, [], ◌∷◌, ◌++◌,
  arith, str_eq, str_eq_iff, Bool-cases, Option-cases, inl, inr, if◌then◌else◌,
}
use claude_sessions.MessageQueue.State.{DeliveryState}
use claude_sessions.MessageQueue.Stops.{
  Stops, Stop, Delayed, StopEffect, notifies, executes_handoff, tries_delivery, cancels_reminds,
  cancels_reconcile, emit, absorb, reset_fence, notify_sender, promote, drop_suppressed,
  drop_for_fork, complete_stop, start_handoff, has_handoff, is_fenced, within, is_current,
  suppress_recent_outgoing_stop_notify, mark_session_idle, mark_session_active,
  run_delayed_stop_notification,
}
use claude_sessions.MessageQueue.StopCalls.{count_notified, due}

pub count_notified-append :
    (id : String) (effects : List StopEffect) (e : StopEffect)
    → count_notified id (effects ++ e ∷ []) ≡ count_notified id effects + count_notified id (e ∷ [])
unfolding count_notified
count_notified-append id [] e = omega arith
count_notified-append id (f ∷ effects) e = ground (arith, count_notified-append id effects e)

is_current_sender :
    (d : Delayed) (state : DeliveryState)
    → is_current d state ≡ true
    → state.stop_notify_sender_id ≡ some d.sender_session_id
is_current_sender d state h = elim (Option-cases state.stop_notify_sender_id) [
  | inl e ↦ absurd (ground (arith, e, h))
  | inr (sender, e) ↦
      let same : str_eq sender d.sender_session_id ≡ true = ground (arith, e, h) in
      e ∙ ap some ((str_eq_iff sender d.sender_session_id).0 same)
]

module _ (id : String) where
  -- The notifications that were sent to this session, and those that are due.
  abbrev pub spent : Stops → ℕ
  spent s = count_notified id s.effects + due id s.state

  pub emit-spent :
      (e : StopEffect) (s : Stops) → count_notified id (e ∷ []) ≡ 0 → spent (emit e s) ≡ spent s
  emit-spent e s none_sent = omega (arith, count_notified-append id s.effects e, none_sent)

  absorb-spent : (s : Stops) → spent (absorb s) ≡ spent s
  unfolding absorb count_notified
  absorb-spent s = omega (arith, count_notified-append id s.effects tries_delivery)

  notify_sender-spent :
      (output : Option String) (s : Stops) → spent (notify_sender output s) ≤ spent s
  unfolding notify_sender
  notify_sender-spent output s = elim (Option-cases s.state.stop_notify_sender_id) [
    | inl e ↦ rw e (omega arith)
    | inr (sender, e) ↦
        let sent = count_notified-append id s.effects (notifies sender output) in
        rw e (unfold count_notified in ground (arith, sent, e))
  ]

  promote-spent : (s : Stops) → spent (promote s) ≤ spent s
  unfolding promote
  promote-spent s = ground arith

  drop_suppressed-spent : (now : ℕ) (s : Stops) → spent (drop_suppressed now s) ≤ spent s
  unfolding drop_suppressed
  drop_suppressed-spent now s = ground arith

  drop_for_fork-spent : (is_fork : Bool) (s : Stops) → spent (drop_for_fork is_fork s) ≤ spent s
  unfolding drop_for_fork
  drop_for_fork-spent is_fork s = ground arith

  start_handoff-spent : (s : Stops) → spent (start_handoff s) ≤ spent s
  unfolding count_notified
  start_handoff-spent s = elim (Option-cases s.state.pending_handoff_path) [
    | inl e ↦ rw e (omega arith)
    | inr (path, e) ↦
        rw e (omega (arith, count_notified-append id s.effects (executes_handoff path)))
  ]

  complete_stop-spent : (r : Stop) (s : Stops) → spent (complete_stop r s) ≤ spent s
  unfolding complete_stop count_notified
  complete_stop-spent r s =
      let ended =
        if r.from_stop_hook || r.completion_transition then emit cancels_reminds s else s in
      let idle = record ended {
        state = record (ended.state) { is_idle = true; last_idle_at = some r.now };
      } in
      let unsuppressed = drop_suppressed r.now idle in
      let kept = drop_for_fork r.is_codex_fork unsuppressed in
      let told = notify_sender r.last_output kept in
      let reminded : spent idle ≤ spent s =
        ground (arith, count_notified-append id s.effects cancels_reminds) in
      omega (
        arith,
        reminded,
        drop_suppressed-spent r.now idle,
        drop_for_fork-spent r.is_codex_fork unsuppressed,
        notify_sender-spent r.last_output kept,
        promote-spent told,
        emit-spent tries_delivery (promote told) refl,
      )

  pub mark_session_idle-spent :
      (window : ℕ) (r : Stop) (s : Stops) → spent (mark_session_idle window r s) ≤ spent s
  unfolding mark_session_idle count_notified
  mark_session_idle-spent window r s =
      let s' = emit cancels_reconcile s in
      let started = emit-spent cancels_reconcile s refl in
      elim (Bool-cases (has_handoff r s.state)) [
        | inl handoff ↦ rw handoff (omega (arith, started, start_handoff-spent s'))
        | inr no_handoff ↦ elim (Bool-cases (is_fenced r s.state)) [
          | inl fenced ↦ elim (Bool-cases (within r.now window s.state.skip_count_armed_at)) [
            | inl fresh ↦ rw (no_handoff, fenced, fresh) (omega (arith, started, absorb-spent s'))
            | inr stale ↦
                rw (no_handoff, fenced, stale)
                  (omega (arith, started, complete_stop-spent r (reset_fence s')))
          ]
          | inr unfenced ↦
              rw (no_handoff, unfenced) (omega (arith, started, complete_stop-spent r s'))
        ]
      ]

  pub mark_session_active-spent : (s : Stops) → spent (mark_session_active s) ≤ spent s
  unfolding mark_session_active count_notified
  mark_session_active-spent s = ground (arith, emit-spent cancels_reconcile s refl)

  pub run_delayed_stop_notification-spent :
      (now : ℕ) (s : Stops) → spent (run_delayed_stop_notification now s) ≤ spent s
  unfolding run_delayed_stop_notification count_notified
  run_delayed_stop_notification-spent now s = elim (Option-cases s.delayed) [
    | inl e ↦ rw e (omega arith)
    | inr (d, e) ↦ elim (Bool-cases (is_current d s.state)) [
      | inr old ↦ rw (e, old) (omega arith)
      | inl current ↦ elim (Bool-cases (suppress_recent_outgoing_stop_notify now s.state)) [
        | inl suppressed ↦ rw (e, current, suppressed) (omega arith)
        | inr unsuppressed ↦
            let sent =
              count_notified-append id s.effects (notifies d.sender_session_id d.last_output) in
            let its_own = is_current_sender d s.state current in
            rw (e, current, unsuppressed) (ground (arith, sent, its_own))
      ]
    ]
  ]
