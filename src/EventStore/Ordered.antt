-- ===== src/EventStore/Ordered.antt =====
-- Rows of one session in the order of their sequence numbers, as `get_events` selects them.
use claude_sessions.Prelude.{
  ℕ, zero, suc, ◌+◌, ◌-◌, ◌≤◌, ◌<◌, min, String, ◌≡◌, refl, ap, Bool, true, false, ◌&&◌, none, some,
  List, [], ◌∷◌, ◌++◌, map, length, take, drop, All, arith, str_eq_iff, ltb, Bool-cases,
  Option-cases, inl, inr,
}
use claude_sessions.Sql.{select-All, select, order_by, place}
use claude_sessions.EventStore.Events.{EventRow, of_session}
use claude_sessions.EventStore.Sequence.{IsSequenced}
use claude_sessions.EventStore.Reading.{min_seq, last_seq, from, start_seq}

-- the rows of a session behind a cursor
abbrev pub behind_cursor : String → ℕ → EventRow → Bool
behind_cursor id since row = of_session id row && ltb since row.seq

abbrev pub IsStrict : List EventRow → Type 0
IsStrict [] = Unit
IsStrict (row ∷ rows) = All (λ later. row.seq < later.seq) rows × IsStrict rows

pub select_above :
    (p : EventRow → Bool) (id : String) (row : EventRow) (rows : List EventRow)
    → ((r : EventRow) → p r ≡ true → of_session id r ≡ true)
    → of_session id row ≡ true
    → All (λ later. of_session row.session_id later ≡ true → row.seq < later.seq) rows
    → All (λ later. row.seq < later.seq) (select p rows)
unfolding select
select_above p id row [] own mine h = tt
select_above p id row (r ∷ rows) own mine h = elim (Bool-cases (p r)) [
  | inl on ↦ rw on (
    h.0 (
        ground (
          arith,
          own r on,
          str_eq_iff r.session_id id,
          str_eq_iff row.session_id id,
          str_eq_iff r.session_id row.session_id,
        )),
    select_above p id row rows own mine h.1,
  )
  | inr off ↦ rw off (select_above p id row rows own mine h.1)
]

pub select-IsStrict :
    (p : EventRow → Bool) (id : String) (rows : List EventRow)
    → ((r : EventRow) → p r ≡ true → of_session id r ≡ true)
    → IsSequenced rows
    → IsStrict (select p rows)
unfolding select
select-IsStrict p id [] own h = tt
select-IsStrict p id (r ∷ rows) own h = elim (Bool-cases (p r)) [
  | inl on ↦ rw on (select_above p id r rows own (own r on) h.0, select-IsStrict p id rows own h.1)
  | inr off ↦ rw off (select-IsStrict p id rows own h.1)
]

pub place_first :
    (r : EventRow) (rows : List EventRow)
    → All (λ later. r.seq < later.seq) rows
    → place (λ row. row.seq) r rows ≡ r ∷ rows
unfolding place
place_first r [] k = refl
place_first r (s ∷ rows) k = ground (arith, k.0)

-- Rows that stand in order stay as they are under ORDER BY seq.
pub order_by-IsStrict :
    (rows : List EventRow) → IsStrict rows → order_by (λ row. row.seq) rows ≡ rows
unfolding order_by
order_by-IsStrict [] h = refl
order_by-IsStrict (r ∷ rows) h = rw (order_by-IsStrict rows h.1) (place_first r rows h.0)

-- Tests that agree on the rows select the same ones.
pub select_cong_on :
    (p q : EventRow → Bool) (rows : List EventRow)
    → All (λ r. p r ≡ q r) rows
    → select p rows ≡ select q rows
unfolding select
select_cong_on p q [] h = refl
select_cong_on p q (r ∷ rows) h = ground (arith, h.0, select_cong_on p q rows h.1)

pub min_seq_bound :
    (id : String) (rows : List EventRow) (m : ℕ)
    → ((k : ℕ) → min_seq (select (of_session id) rows) ≡ some k → m ≤ k)
    → All (λ r. of_session id r ≡ true → m ≤ r.seq) rows
unfolding select min_seq
min_seq_bound id [] m h = tt
min_seq_bound id (r ∷ rows) m h = elim (Bool-cases (of_session id r)) [
  | inl on ↦ elim (Option-cases (min_seq (select (of_session id) rows))) [
    | inl alone ↦
        let first = h r.seq (rw (on, alone) refl) in
        (λ mine. first, min_seq_bound id rows m (λ k e. absurd (ground (arith, alone, e))))
    | inr (k, more) ↦
        let both = h (min r.seq k) (rw (on, more) refl) in
        (
          λ mine. omega (arith, both),
          min_seq_bound id rows m (λ k' e. ground (arith, both, more, e)),
        )
  ]
  | inr off ↦ (λ mine. absurd (ground (arith)), min_seq_bound id rows m (λ k e. h k (rw off e)))
]

pub last_seq_bound :
    (a n m : ℕ) (rows : List EventRow)
    → All (λ r. a < r.seq) rows
    → last_seq (take n rows) ≡ some m
    → a < m
unfolding last_seq
last_seq_bound a zero m rows h e = absurd (ground arith)
last_seq_bound a (suc n) m [] h e = absurd (ground arith)
last_seq_bound a (suc n) m (r ∷ rows) h e = elim (Option-cases (last_seq (take n rows))) [
  | inl none_left ↦ ground (arith, h.0)
  | inr (k, more) ↦ ground (arith, last_seq_bound a n k rows h.1 more)
]

pub last_seq-none :
    (n : ℕ) (rows : List EventRow) → last_seq (take n rows) ≡ none → drop n rows ≡ rows
unfolding last_seq
last_seq-none zero rows e = refl
last_seq-none (suc n) [] e = refl
last_seq-none (suc n) (r ∷ rows) e = absurd (ground arith)

pub All-above :
    (m : ℕ) (rows : List EventRow) → All (λ r. m < r.seq) rows → All (λ r. ltb m r.seq ≡ true) rows
All-above m [] h = tt
All-above m (r ∷ rows) h = (ground (arith, h.0), All-above m rows h.1)

-- Behind the last row of a page stand the rows that the page left.
pub select-page :
    (n m : ℕ) (rows : List EventRow)
    → IsStrict rows
    → last_seq (take n rows) ≡ some m
    → select (λ r. ltb m r.seq) rows ≡ drop n rows
unfolding last_seq select
select-page zero m rows h e = absurd (ground arith)
select-page (suc n) m [] h e = absurd (ground arith)
select-page (suc n) m (r ∷ rows) h e = elim (Option-cases (last_seq (take n rows))) [
  | inl none_left ↦
      let is_last : r.seq ≡ m = ground (arith) in
      let rest = select-All (λ r'. ltb m r'.seq) rows (All-above m rows (rw (← is_last) h.0)) in
      rw (last_seq-none n rows none_left) (ground (arith, is_last, rest))
  | inr (k, more) ↦
      let is_last : k ≡ m = ground (arith) in
      let below = last_seq_bound r.seq n k rows h.0 more in
      ground (arith, below, is_last, select-page n m rows h.1 (rw (← is_last) more))
]

pub select-select :
    (id : String) (since m : ℕ) (rows : List EventRow)
    → since ≤ m
    → select (behind_cursor id m) rows
      ≡ select (λ r. ltb m r.seq) (select (behind_cursor id since) rows)
unfolding select
select-select id since m [] le = refl
select-select id since m (r ∷ rows) le = elim (Bool-cases (behind_cursor id since r)) [
  | inl on ↦ rw on (ground (arith, on, select-select id since m rows le))
  | inr off ↦
      let off' : behind_cursor id m r ≡ false = ground (arith, off, le) in
      rw (off, off') (select-select id since m rows le)
]

pub take-nil : (n : ℕ) → take {A = EventRow} n [] ≡ []
take-nil zero = refl
take-nil (suc n) = refl

pub drop-nil : (n : ℕ) → drop {A = EventRow} n [] ≡ []
drop-nil zero = refl
drop-nil (suc n) = refl

pub map-take-drop :
    {E : Type 0} (f : EventRow → E) (n : ℕ) (rows : List EventRow)
    → map f (take n rows) ++ map f (drop n rows) ≡ map f rows
map-take-drop f zero rows = refl
map-take-drop f (suc n) [] = refl
map-take-drop f (suc n) (r ∷ rows) = ap (λ t. f r ∷ t) (map-take-drop f n rows)

pub pred_suc : (n : ℕ) → n + 1 - 1 ≡ n
pred_suc n = omega arith

pub no_rows : (rows : List EventRow) → length rows ≤ 0 → rows ≡ []
no_rows [] h = refl
no_rows (r ∷ rows) h = absurd (omega (arith, h))

pub above_cursor :
    (id : String) (since : ℕ) (rows : List EventRow)
    → All (λ r. since < r.seq) (select (behind_cursor id since) rows)
unfolding select
above_cursor id since [] = tt
above_cursor id since (r ∷ rows) = ground (arith, above_cursor id since rows)

pub same_tests :
    (id : String) (since n earliest latest : ℕ) (rows : List EventRow)
    → All (λ r. of_session id r ≡ true → earliest ≤ r.seq) rows
    → All
        (λ r. from id (start_seq (some since) n earliest latest) r ≡ behind_cursor id since r)
        rows
same_tests id since n earliest latest [] k = tt
same_tests id since n earliest latest (r ∷ rows) k = (
  elim (Bool-cases (of_session id r)) [
    | inl on ↦ let least = k.0 on in ground (arith, on, least)
    | inr off ↦ ground (arith, off)
  ],
  same_tests id since n earliest latest rows k.1,
)

-- A session without rows has none behind a cursor.
pub min_seq-none :
    (id : String) (since : ℕ) (rows : List EventRow)
    → min_seq (select (of_session id) rows) ≡ none
    → select (behind_cursor id since) rows ≡ []
unfolding select min_seq
min_seq-none id since [] e = refl
min_seq-none id since (r ∷ rows) e = elim (Bool-cases (of_session id r)) [
  | inl on ↦ absurd (ground (arith, on, e))
  | inr off ↦ rw off (min_seq-none id since rows (rw off at e))
]
