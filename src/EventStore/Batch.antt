-- ===== src/EventStore/Batch.antt =====
-- What deleting one batch of selected rows does to the table of events.
use claude_sessions.Prelude.{
  ◌||◌, none, ◌+◌, ap, length, ℕ, zero, suc, ◌≤◌, ◌<◌, String, ◌≡◌, refl, Bool, true, false, ◌⊎◌,
  inl, inr, List, [], ◌∷◌, length-take-le, take, All, Among-All, Among, arith, str_eq_iff, leb,
  Bool-cases,
}
use claude_sessions.Sql.{delete-or, fetch_one, select, delete, order_by, place}
use claude_sessions.EventStore.Events.{EventRow, of_session}
use claude_sessions.EventStore.Sequence.{IsSequenced}
use claude_sessions.EventStore.Pruning.{Pruned, same_rowid, is_listed, delete_rowids_batch}

-- The rows stay in order, at most a batch of them is counted and no more than the count are gone, and one
-- goes only if this holds of it.
pub record IsPruned (Q : EventRow → Type 0) (batch : ℕ) (rows : List EventRow) (p : Pruned)
    : Type 0 where
  pub sequenced : IsSequenced p.rows
  pub bounded : p.count ≤ batch
  pub few_gone : length rows ≤ length p.rows + p.count
  pub kept : (row : EventRow) → Among row rows → Q row ⊎ Among row p.rows

delete-All :
    (Q : EventRow → Type 0) (p : EventRow → Bool) (rows : List EventRow)
    → All Q rows
    → All Q (delete p rows)
unfolding delete
delete-All Q p [] h = tt
delete-All Q p (r ∷ rows) h = elim (Bool-cases (p r)) [
  | inl on ↦ rw on (delete-All Q p rows h.1)
  | inr off ↦ rw off (h.0, delete-All Q p rows h.1)
]

delete-IsSequenced :
    (p : EventRow → Bool) (rows : List EventRow) → IsSequenced rows → IsSequenced (delete p rows)
unfolding delete
delete-IsSequenced p [] h = tt
delete-IsSequenced p (r ∷ rows) h = elim (Bool-cases (p r)) [
  | inl on ↦ rw on (delete-IsSequenced p rows h.1)
  | inr off ↦ rw off (delete-All _ p rows h.0, delete-IsSequenced p rows h.1)
]

Among-delete :
    (p : EventRow → Bool) (row : EventRow) (rows : List EventRow)
    → Among row rows
    → p row ≡ false
    → Among row (delete p rows)
unfolding delete
Among-delete p row [] m off = absurd m
Among-delete p row (r ∷ rows) (inl e) off = rw (e, off) (inl refl)
Among-delete p row (r ∷ rows) (inr m) off = elim (Bool-cases (p r)) [
  | inl gone ↦ rw gone (Among-delete p row rows m off)
  | inr there ↦ rw there (inr (Among-delete p row rows m off))
]

apart :
    (a b : EventRow)
    → same_rowid a b ≡ true
    → (of_session a.session_id b ≡ true → a.seq < b.seq)
    → ⊥
apart a b same below =
    let less = below (
      ground (
        arith,
        same,
        str_eq_iff a.session_id b.session_id,
        str_eq_iff b.session_id a.session_id,
      )) in
    ground (arith, same, less)

apart_back :
    (a b : EventRow)
    → same_rowid a b ≡ true
    → (of_session b.session_id a ≡ true → b.seq < a.seq)
    → ⊥
apart_back a b same below = let less = below (ground (arith, same)) in ground (arith, same, less)

-- Rows of one session with one number are one row.
pub one_row :
    (a b : EventRow) (rows : List EventRow)
    → IsSequenced rows
    → Among a rows
    → Among b rows
    → same_rowid a b ≡ true
    → a ≡ b
one_row a b [] h ma mb same = absurd ma
one_row a b (r ∷ rows) h (inl ea) (inl eb) same = rw (← ea) eb
one_row a b (r ∷ rows) h (inl ea) (inr mb) same =
    let above = Among-All _ rows b h.0 mb in absurd (apart a b same (rw ea at above))
one_row a b (r ∷ rows) h (inr ma) (inl eb) same =
    let above = Among-All _ rows a h.0 ma in absurd (apart_back a b same (rw eb at above))
one_row a b (r ∷ rows) h (inr ma) (inr mb) same = one_row a b rows h.1 ma mb same

-- Past a row, no later one is the row that a test names.
none_same :
    (id row : EventRow) (rows : List EventRow)
    → same_rowid id row ≡ true
    → All (λ later. of_session row.session_id later ≡ true → row.seq < later.seq) rows
    → fetch_one (same_rowid id) rows ≡ none
unfolding fetch_one
none_same id row [] same above = refl
none_same id row (r ∷ rows) same above = elim (Bool-cases (same_rowid id r)) [
  | inl again ↦ absurd (
      apart row r
        (ground (
          arith,
          same,
          again,
          str_eq_iff id.session_id row.session_id,
          str_eq_iff id.session_id r.session_id,
          str_eq_iff row.session_id r.session_id,
        ))
        above.0)
  | inr other ↦ rw other (none_same id row rows same above.1)
]

-- One more identifier takes at most one more row away.
length-delete-same_rowid :
    (id : EventRow) (p : EventRow → Bool) (rows : List EventRow)
    → IsSequenced rows
    → length (delete p rows) ≤ length (delete (λ row. same_rowid id row || p row) rows) + 1
unfolding delete
length-delete-same_rowid id p [] h = omega arith
length-delete-same_rowid id p (r ∷ rows) h = elim (Bool-cases (same_rowid id r)) [
  | inl same ↦
      rw same (rw (delete-or (same_rowid id) p rows (none_same id r rows same h.0)) (ground arith))
  | inr other ↦ rw other (ground (arith, length-delete-same_rowid id p rows h.1))
]

delete-nothing : (rows : List EventRow) → delete (λ row. false) rows ≡ rows
unfolding delete
delete-nothing [] = refl
delete-nothing (r ∷ rows) = ap (λ rest. r ∷ rest) (delete-nothing rows)

length-delete-is_listed :
    (ids rows : List EventRow)
    → IsSequenced rows
    → length rows ≤ length (delete (is_listed ids) rows) + length ids
length-delete-is_listed [] rows h = rw (delete-nothing rows) (omega arith)
length-delete-is_listed (id ∷ ids) rows h =
    omega (
      arith,
      length-delete-is_listed ids rows h,
      length-delete-same_rowid id (is_listed ids) rows h,
    )

pub All-place :
    (Q : EventRow → Type 0) (key : EventRow → ℕ) (r : EventRow) (rows : List EventRow)
    → Q r
    → All Q rows
    → All Q (place key r rows)
unfolding place
All-place Q key r [] q h = (q, tt)
All-place Q key r (s ∷ rows) q h = elim (Bool-cases (leb (key r) (key s))) [
  | inl first ↦ rw first (q, h)
  | inr later ↦ rw later (h.0, All-place Q key r rows q h.1)
]

pub All-order_by :
    (Q : EventRow → Type 0) (key : EventRow → ℕ) (rows : List EventRow)
    → All Q rows
    → All Q (order_by key rows)
unfolding order_by
All-order_by Q key [] h = tt
All-order_by Q key (r ∷ rows) h =
    All-place Q key r (order_by key rows) h.0 (All-order_by Q key rows h.1)

pub All-take :
    (Q : EventRow → Type 0) (n : ℕ) (rows : List EventRow) → All Q rows → All Q (take n rows)
All-take Q zero rows h = tt
All-take Q (suc n) [] h = tt
All-take Q (suc n) (r ∷ rows) h = (h.0, All-take Q n rows h.1)

pub All-select_where :
    (Q : EventRow → Type 0) (p : EventRow → Bool) (rows : List EventRow)
    → ((r : EventRow) → Among r rows → p r ≡ true → Q r)
    → All Q (select p rows)
unfolding select
All-select_where Q p [] h = tt
All-select_where Q p (r ∷ rows) h =
    let rest = All-select_where Q p rows (λ s m on. h s (inr m) on) in
    elim (Bool-cases (p r)) [ inl on ↦ rw on (h r (inl refl) on, rest) | inr off ↦ rw off rest ]

-- A meets_if_listed row is one of the rows that were selected.
pub meets_if_listed :
    (Q : EventRow → Type 0) (rows ids : List EventRow) (row : EventRow)
    → IsSequenced rows
    → All (λ r. Among r rows × Q r) ids
    → Among row rows
    → is_listed ids row ≡ true
    → Q row
meets_if_listed Q rows [] row h chosen m on = absurd (ground arith)
meets_if_listed Q rows (id ∷ ids) row h chosen m on = elim (Bool-cases (same_rowid id row)) [
  | inl same ↦ rw (← one_row id row rows h chosen.0.0 m same) chosen.0.1
  | inr other ↦ meets_if_listed Q rows ids row h chosen.1 m (ground (arith, on, other))
]

pub batch-IsPruned :
    (Q : EventRow → Type 0) (batch : ℕ) (key : EventRow → ℕ) (p : EventRow → Bool)
    (remaining : List String) (rows : List EventRow)
    → IsSequenced rows
    → ((r : EventRow) → Among r rows → p r ≡ true → Q r)
    → IsPruned Q batch rows
        (delete_rowids_batch (take batch (order_by key (select p rows))) remaining rows)
unfolding delete_rowids_batch
batch-IsPruned Q batch key p remaining rows h meets =
    let ids = take batch (order_by key (select p rows)) in
    let chosen : All (λ r. Among r rows × Q r) ids =
      All-take _ batch (order_by key (select p rows)) (
        All-order_by _ key (select p rows)
          (All-select_where _ p rows (λ r m on. (m, meets r m on)))) in
    record {
      sequenced = delete-IsSequenced (is_listed ids) rows h;
      bounded = length-take-le batch (order_by key (select p rows));
      few_gone = length-delete-is_listed ids rows h;
      kept = λ row m. elim (Bool-cases (is_listed ids row)) [
        | inl on ↦ inl (meets_if_listed Q rows ids row h chosen m on)
        | inr off ↦ inr (Among-delete (is_listed ids) row rows m off)
      ];
    }
