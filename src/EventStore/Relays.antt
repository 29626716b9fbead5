-- ===== src/EventStore/Relays.antt =====
-- What marking a message as relayed does to every later question.
use claude_sessions.Prelude.{
  ℕ, String, ◌≡◌, refl, Bool, true, false, ◌||◌, Option, List, [], ◌∷◌, ◌++◌, arith, str_eq_iff,
  str_eq_refl, Bool-cases, inl, inr,
}
use claude_sessions.Sql.{exists, fetch_one, fetch_one-append}
use claude_sessions.EventStore.{
  Relay, Message, thread_key, in_turn, of_message, has_assistant_message_relayed,
  has_assistant_turn_relayed, same_key, new_relay, mark_assistant_message_relayed,
}

module _ {R : Type 0} where
  exists-append_one :
      (p : R → Bool) (rows : List R) (r : R) → exists p (rows ++ r ∷ []) ≡ (exists p rows || p r)
  exists-append_one p rows r = ground (arith, fetch_one-append p rows r)

  exists-implied :
      (p q : R → Bool) (rows : List R)
      → ((r : R) → p r ≡ true → q r ≡ true)
      → exists p rows ≡ true
      → exists q rows ≡ true
  unfolding fetch_one
  exists-implied p q [] h e = absurd (ground arith)
  exists-implied p q (r ∷ rows) h e = ground (arith, h r, exists-implied p q rows h)

module _ (digest : String → String) (m : Message) (text : String) (telegram : Option ℕ)
    (now : ℕ) where
  abbrev marked : List Relay → List Relay × Bool
  marked rows = mark_assistant_message_relayed digest m text telegram now rows

  new : Relay
  new = new_relay digest m text telegram now

  -- A test that holds of all rows of one key, or of none, sees a mark as it sees the new row.
  exists-marked :
      (p : Relay → Bool)
      → ((r : Relay) → same_key new r ≡ true → p new ≡ true → p r ≡ true)
      → (rows : List Relay) → exists p (marked rows).0 ≡ (exists p rows || p new)
  unfolding mark_assistant_message_relayed new
  exists-marked p by_key rows = elim (Bool-cases (exists (same_key new) rows)) [
    | inr fresh ↦ rw fresh (exists-append_one p rows new)
    | inl there ↦ rw there (elim (Bool-cases (p new)) [
      | inr off ↦ ground arith
      | inl on ↦
          let seen : exists p rows ≡ true =
            exists-implied (same_key new) p rows (λ r same. by_key r same on) there in
          ground arith
    ])
  ]

  new_in_key : same_key new new ≡ true
  unfolding new
  new_in_key = ground (
    arith,
    str_eq_refl m.session_id,
    str_eq_refl (thread_key m.thread_id),
    str_eq_refl m.turn_id,
    str_eq_refl m.message_item_id,
  )

  key_of_message :
      (asked : Message) (r : Relay)
      → same_key new r ≡ true
      → of_message asked new ≡ true
      → of_message asked r ≡ true
  key_of_message asked r same on = ground (
    arith,
    str_eq_iff r.session_id new.session_id,
    str_eq_iff r.thread_id new.thread_id,
    str_eq_iff r.turn_id new.turn_id,
    str_eq_iff r.message_item_id new.message_item_id,
  )

  key_in_turn :
      (asked : Message) (r : Relay)
      → same_key new r ≡ true
      → in_turn asked new ≡ true
      → in_turn asked r ≡ true
  key_in_turn asked r same on = ground (
    arith,
    str_eq_iff r.session_id new.session_id,
    str_eq_iff r.thread_id new.thread_id,
    str_eq_iff r.turn_id new.turn_id,
  )

  -- After a mark, a message and a turn count as relayed exactly when they did before or the marked
  -- message is theirs, whether or not its row was there; the marked message and its turn are relayed.
  pub mark_seen :
      (asked : Message) (rows : List Relay)
      → (has_assistant_message_relayed asked (marked rows).0 ≡ (
          has_assistant_message_relayed asked rows
          || of_message asked (new_relay digest m text telegram now)))
        × (has_assistant_turn_relayed asked (marked rows).0 ≡ (
            has_assistant_turn_relayed asked rows
            || in_turn asked (new_relay digest m text telegram now)))
        × (has_assistant_message_relayed m (marked rows).0 ≡ true)
        × (has_assistant_turn_relayed m (marked rows).0 ≡ true)
  unfolding has_assistant_message_relayed has_assistant_turn_relayed new
  mark_seen asked rows = (
    exists-marked (of_message asked) (key_of_message asked) rows,
    exists-marked (in_turn asked) (key_in_turn asked) rows,
    rw (exists-marked (of_message m) (key_of_message m) rows) (ground (arith, self_message)),
    rw (exists-marked (in_turn m) (key_in_turn m) rows) (ground (arith, self_turn)),
  )
    where
      self_message : of_message m (new_relay digest m text telegram now) ≡ true
      self_message = ground (
        arith,
        str_eq_refl m.session_id,
        str_eq_refl (thread_key m.thread_id),
        str_eq_refl m.turn_id,
        str_eq_refl m.message_item_id,
      )

      self_turn : in_turn m (new_relay digest m text telegram now) ≡ true
      self_turn = ground (
        arith,
        str_eq_refl m.session_id,
        str_eq_refl (thread_key m.thread_id),
        str_eq_refl m.turn_id,
      )

  -- A message is marked once: after a mark, marking it again, with whatever text, Telegram thread
  -- and time, says so and changes nothing, so the row that stays is the first one.
  pub mark_once :
      (text' : String) (telegram' : Option ℕ) (now' : ℕ) (rows : List Relay)
      → mark_assistant_message_relayed digest m text' telegram' now' (marked rows).0
        ≡ ((marked rows).0, false)
  unfolding mark_assistant_message_relayed new
  mark_once text' telegram' now' rows =
      let there : exists (same_key new) (marked rows).0 ≡ true =
        rw (exists-marked (same_key new) (λ r same on. same) rows) (ground (arith, new_in_key)) in
      rw there refl
