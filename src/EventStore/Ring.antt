-- ===== src/EventStore/Ring.antt =====
-- The rings of recent events, as windows on logs without a bound.
use claude_sessions.Prelude.{
  ℕ, zero, suc, ◌+◌, ◌-◌, ◌≤◌, min, max, String, ◌≡◌, refl, Bool, true, false, not, ◌&&◌, Option,
  List, [], ◌∷◌, ◌++◌, length, length-append, length-drop, drop, arith, str_eq, if◌then◌else◌,
  Bool-cases, inl, inr,
}
use claude_sessions.EventStore.Events.{
  Event, Json, Settings, EventStore, latest_seq, set_entry, append_ring_event, marker, put_event,
  put_marker, persist_event, fall_back, append_event,
}
use claude_sessions.EventStore.Reading.{get_ring_events}

-- `xs[-n:]` for a positive n
abbrev pub last {ℓ} : {A : Type ℓ} → ℕ → List A → List A
last n xs = drop (length xs - n) xs

module _ {E : Type 0} where
  drop-none : (n : ℕ) → drop {A = E} n [] ≡ []
  drop-none zero = refl
  drop-none (suc n) = refl

  drop-drop : (a b c : ℕ) (xs : List E) → c ≡ a + b → drop a (drop b xs) ≡ drop c xs
  drop-drop a zero c xs e = let same : c ≡ a = omega (arith, e) in rw same refl
  drop-drop a (suc b) zero xs e = absurd (omega (arith, e))
  drop-drop a (suc b) (suc c) [] e = drop-none a
  drop-drop a (suc b) (suc c) (x ∷ xs) e = drop-drop a b c xs (omega (arith, e))

  drop-append : (b : ℕ) (xs ys : List E) → b ≤ length xs → drop b xs ++ ys ≡ drop b (xs ++ ys)
  drop-append zero xs ys le = refl
  drop-append (suc b) [] ys le = absurd (omega (arith, le))
  drop-append (suc b) (x ∷ xs) ys le = drop-append b xs ys (omega (arith, le))

  -- A window on a window is the narrower window.
  last-last : (k n : ℕ) (xs : List E) → k ≤ n → last k (last n xs) ≡ last k xs
  last-last k n xs le =
      let narrow = length-drop (length xs - n) xs in
      drop-drop (length (last n xs) - k) (length xs - n) (length xs - k) xs
        (omega (arith, le, narrow))

  last-append : (n : ℕ) (xs ys : List E) → last n (last n xs ++ ys) ≡ last n (xs ++ ys)
  last-append n xs ys =
      let cut = length xs - n in
      let joined : last n xs ++ ys ≡ drop cut (xs ++ ys) = drop-append cut xs ys (omega arith) in
      let narrow = length-drop cut (xs ++ ys) in
      let whole = length-append xs ys in
      rw joined (
        drop-drop (length (drop cut (xs ++ ys)) - n) cut (length (xs ++ ys) - n) (xs ++ ys)
          (omega (arith, narrow, whole)))

-- A log in which an event of its session comes last.
abbrev pub logged : {P : Type 0} → Event P → (String → List (Event P)) → String → List (Event P)
logged e log = set_entry e.session_id (log e.session_id ++ e ∷ []) log

-- The log after a call that returned this event: the marker of a recovery, and the event.
abbrev pub noted :
    {P : Type 0}
    → Json P
    → Bool
    → ℕ
    → Event P
    → EventStore P
    → (String → List (Event P))
    → String
    → List (Event P)
noted json fails now e s log =
    if not fails && s.persistence_degraded e.session_id
    then logged e (logged (marker json e.session_id (latest_seq e.session_id s.rows + 1) now) log)
    else logged e log

module _ {P : Type 0} (c : Settings) where
  -- The ring of each session shows the end of its log.
  abbrev pub IsRing : (String → List (Event P)) → EventStore P → Type 0
  IsRing log s = (id : String) → s.ring_events id ≡ last c.ring_size (log id)

module _ {P : Type 0} (json : Json P) (c : Settings) where
  append_ring_event-IsRing :
      (e : Event P) (log : String → List (Event P)) (s : EventStore P)
      → IsRing c log s
      → IsRing c (logged e log) (append_ring_event c e s)
  unfolding append_ring_event
  append_ring_event-IsRing e log s h id = elim (Bool-cases (str_eq e.session_id id)) [
    | inl same ↦ rw (same, h e.session_id) (last-append c.ring_size (log e.session_id) (e ∷ []))
    | inr other ↦ rw other (h id)
  ]

  module _ (now ts : ℕ) (id event_type : String) (turn : Option String) (payload : Option P) where
    abbrev called : Bool → EventStore P → EventStore P × Event P
    called fails s = append_event json c fails now ts id event_type turn payload s

    noted-IsRing :
        (fails : Bool) (s : EventStore P) (log : String → List (Event P))
        → IsRing c log s
        → IsRing c (noted json fails now (called fails s).1 s log) (called fails s).0
    unfolding append_event fall_back persist_event put_event put_marker append_ring_event
    noted-IsRing true s log h = append_ring_event-IsRing _ log s h
    noted-IsRing false s log h = elim (Bool-cases (s.persistence_degraded id)) [
      | inl degraded ↦ rw degraded (
          append_ring_event-IsRing _ (logged (marker json id (latest_seq id s.rows + 1) now) log)
            (append_ring_event c (marker json id (latest_seq id s.rows + 1) now) s)
            (append_ring_event-IsRing (marker json id (latest_seq id s.rows + 1) now) log s h))
      | inr whole ↦ rw whole (append_ring_event-IsRing _ log s h)
    ]

    -- If a ring has room for an event, the ring of each session shows the end of a log of all its
    -- events, persisted or not, with the markers of its recoveries: a call keeps this, and
    -- `get_ring_events` then returns the last events of that log, as many as its limit within the
    -- size of the ring.
    pub get_ring_events-append_event :
        (fails : Bool) (s : EventStore P) (log : String → List (Event P))
        → 1 ≤ c.ring_size
        → IsRing c log s
        → IsRing c (noted json fails now (called fails s).1 s log) (called fails s).0
          × ((other : String) (limit : ℕ)
              → get_ring_events c other limit (called fails s).0
                ≡ last
                    (max 1 (min limit c.ring_size))
                    (noted json fails now (called fails s).1 s log other))
    unfolding get_ring_events
    get_ring_events-append_event fails s log some_room h =
        let h' = noted-IsRing fails s log h in
        (
          h',
          λ other limit. rw (h' other) (
              last-last (max 1 (min limit c.ring_size)) c.ring_size
                (noted json fails now (called fails s).1 s log other) (omega (arith, some_room))),
        )
