-- ===== src/EventStore/Retention.antt =====
-- What a batch of `_prune_incremental` takes away, and what is true when none is left.
use claude_sessions.Prelude.{
  ℕ, zero, suc, ◌+◌, ◌-◌, ◌≤◌, ◌<◌, String, ◌≡◌, refl, Bool, true, false, ◌⊎◌, inl, inr, List, [],
  ◌∷◌, length, take, All, Among, arith, str_eq_iff, ltb, leb, if◌then◌else◌, Bool-cases,
}
use claude_sessions.Sql.{select, order_by, place}
use claude_sessions.EventStore.Events.{EventRow, Settings, of_session, latest_seq}
use claude_sessions.EventStore.Sequence.{IsSequenced, latest_seq-bound}
use claude_sessions.EventStore.Ordered.{IsStrict, select-IsStrict}
use claude_sessions.EventStore.Pruning.{
  is_empty, is_too_old, overflows, overflow_rowids_for_session, stale_rowids, delete_rowids_batch,
  min_keep_seq, prune_overflow, prune_incremental,
}
use claude_sessions.EventStore.Batch.{IsPruned, batch-IsPruned, All-select_where}

-- An event that is old, or that has as many later numbers in its session as are to be kept.
abbrev pub Outlived : Settings → ℕ → List EventRow → EventRow → Type 0
Outlived c cutoff rows row =
    (row.timestamp < cutoff)
    ⊎ (row.seq + c.retention_max_events_per_session ≤ latest_seq row.session_id rows)

module _ (c : Settings) (batch cutoff : ℕ) (rows : List EventRow) (h : IsSequenced rows) where
  untouched :
      IsPruned
        (Outlived c cutoff rows)
        batch
        rows
        (record { rows = rows; count = 0; remaining = [] })
  untouched = record {
    sequenced = h;
    bounded = omega arith;
    few_gone = omega arith;
    kept = λ row m. inr m;
  }

  overflows-Outlived :
      (id : String) (row : EventRow)
      → Among row rows
      → overflows id (min_keep_seq c id rows) row ≡ true
      → Outlived c cutoff rows row
  overflows-Outlived id row m on =
      let is_session : row.session_id ≡ id = ground (arith, on, str_eq_iff row.session_id id) in
      inr (rw is_session (ground (arith, on)))

  overflow-IsPruned :
      (pending : List String)
      → IsPruned (Outlived c cutoff rows) batch rows (prune_overflow c batch pending rows)
  unfolding prune_overflow overflow_rowids_for_session
  overflow-IsPruned [] = untouched
  overflow-IsPruned (id ∷ ids) =
      let min_keep = min_keep_seq c id rows in
      let rowids = overflow_rowids_for_session batch id min_keep rows in
      elim (Bool-cases (leb min_keep 1)) [
        | inl few ↦ rw few (overflow-IsPruned ids)
        | inr many ↦ elim (Bool-cases (is_empty rowids)) [
          | inl clean ↦ rw (many, clean) (overflow-IsPruned ids)
          | inr over ↦
              rw (many, over)
                (batch-IsPruned (Outlived c cutoff rows) batch (λ row. row.seq)
                  (overflows id min_keep) (if ltb (length rowids) batch then ids else id ∷ ids) rows
                  h (overflows-Outlived id))
        ]
      ]

  -- If the rows of each session stand in the order of their sequence numbers, all different, then
  -- after a batch they still do; the number that is reported is at most a batch, and the table has
  -- lost no more rows than that; and a row that is gone was written before the cutoff, or has a number at least as far below the latest of its session as events are
  -- kept.
  pub prune_incremental_keeps :
      (pending : List String)
      → IsSequenced (prune_incremental c batch cutoff pending rows).rows
        × ((prune_incremental c batch cutoff pending rows).count ≤ batch)
        × (length rows
            ≤ length (prune_incremental c batch cutoff pending rows).rows
              + (prune_incremental c batch cutoff pending rows).count)
        × ((row : EventRow)
            → Among row rows
            → Outlived c cutoff rows row
              ⊎ Among row (prune_incremental c batch cutoff pending rows).rows)
  unfolding prune_incremental stale_rowids
  prune_incremental_keeps pending =
      let rowids = stale_rowids batch cutoff rows in
      let pruned : IsPruned (Outlived c cutoff rows) batch rows
          (prune_incremental c batch cutoff pending rows) =
        elim (Bool-cases (is_empty rowids)) [
          | inl fresh ↦ rw (fresh, prune_incremental) (overflow-IsPruned pending)
          | inr old ↦
              rw (old, prune_incremental)
                (batch-IsPruned (Outlived c cutoff rows) batch (λ row. row.timestamp)
                  (is_too_old cutoff) pending rows h (λ row m on. inl (ground arith)))
        ] in
      (pruned.sequenced, pruned.bounded, pruned.few_gone, pruned.kept)

place-is_empty :
    (key : EventRow → ℕ) (r : EventRow) (rows : List EventRow) → is_empty (place key r rows) ≡ false
unfolding place
place-is_empty key r [] = refl
place-is_empty key r (s ∷ rows) = ground arith

order_by-is_empty :
    (key : EventRow → ℕ) (rows : List EventRow) → is_empty (order_by key rows) ≡ is_empty rows
unfolding order_by
order_by-is_empty key [] = refl
order_by-is_empty key (r ∷ rows) = place-is_empty key r (order_by key rows)

take-is_empty : (n : ℕ) (rows : List EventRow) → 1 ≤ n → is_empty (take n rows) ≡ is_empty rows
take-is_empty zero rows some_room = absurd (omega (arith, some_room))
take-is_empty (suc n) [] some_room = refl
take-is_empty (suc n) (r ∷ rows) some_room = refl

select-is_empty :
    (p : EventRow → Bool) (rows : List EventRow) (row : EventRow)
    → is_empty (select p rows) ≡ true
    → Among row rows
    → p row ≡ false
unfolding select
select-is_empty p [] row clean m = absurd m
select-is_empty p (r ∷ rows) row clean m = elim (Bool-cases (p r)) [
  | inl on ↦ absurd (ground (arith, on, clean))
  | inr off ↦ elim m [
    | inl e ↦ rw (← e) off
    | inr m' ↦ select-is_empty p rows row (rw off at clean) m'
  ]
]

-- A batch is empty only if no row passes the test.
batch-is_empty :
    (key : EventRow → ℕ) (p : EventRow → Bool) (batch : ℕ) (rows : List EventRow) (row : EventRow)
    → 1 ≤ batch
    → is_empty (take batch (order_by key (select p rows))) ≡ true
    → Among row rows
    → p row ≡ false
batch-is_empty key p batch rows row some_room clean m =
    select-is_empty p rows row
      (rw
        (
          take-is_empty batch (order_by key (select p rows)) some_room,
          order_by-is_empty key (select p rows),
        )
        at clean)
      m

no_count : (ids : List EventRow) → length ids ≡ 0 → is_empty ids ≡ true
no_count [] none_left = refl
no_count (r ∷ ids) none_left = absurd (omega (arith, none_left))

-- Numbers that differ and lie between two bounds are not more than lie there.
length-IsStrict :
    (lo hi : ℕ) (rows : List EventRow)
    → IsStrict rows
    → All (λ r. lo ≤ r.seq) rows
    → All (λ r. r.seq ≤ hi) rows
    → length rows ≤ hi + 1 - lo
length-IsStrict lo hi [] h above below = omega arith
length-IsStrict lo hi (r ∷ rows) h above below =
    omega (
      arith,
      length-IsStrict (r.seq + 1) hi rows h.1 (succ_above rows h.0) below.1,
      above.0,
      below.0,
    )
  where
    succ_above :
        (rows' : List EventRow)
        → All (λ s. r.seq < s.seq) rows'
        → All (λ s. r.seq + 1 ≤ s.seq) rows'
    succ_above [] k = tt
    succ_above (s ∷ rows') k = (omega (arith, k.0), succ_above rows' k.1)

module _ (c : Settings) (batch cutoff : ℕ) (rows : List EventRow) (h : IsSequenced rows)
    (some_room : 1 ≤ batch) (numbered : (row : EventRow) → Among row rows → 1 ≤ row.seq) where
  abbrev own : String → List EventRow
  own id = select (of_session id) rows

  -- The rows of a session from a number on are no more than there are numbers up to the latest.
  length-own :
      (id : String) (lo : ℕ)
      → ((row : EventRow) → Among row rows → of_session id row ≡ true → lo ≤ row.seq)
      → length (own id) ≤ latest_seq id rows + 1 - lo
  length-own id lo above =
      length-IsStrict lo (latest_seq id rows) (own id)
        (select-IsStrict (of_session id) id rows (λ r on. on) h)
        (All-select_where _ (of_session id) rows above)
        (All-select_where _ (of_session id) rows (latest_seq-bound id rows))

  few_own :
      (id : String)
      → leb (min_keep_seq c id rows) 1 ≡ true
      → length (own id) ≤ c.retention_max_events_per_session
  few_own id few =
      let counted = length-own id 1 (λ row m on. numbered row m) in ground (arith, few, counted)

  clean_own :
      (id : String)
      → is_empty (overflow_rowids_for_session batch id (min_keep_seq c id rows) rows) ≡ true
      → length (own id) ≤ c.retention_max_events_per_session
  unfolding overflow_rowids_for_session
  clean_own id clean =
      let min_keep = min_keep_seq c id rows in
      let counted = length-own id min_keep (λ row m on.
        let kept =
          batch-is_empty (λ r. r.seq) (overflows id min_keep) batch rows row some_room clean m in
        ground (arith, on, kept)) in
      omega (arith, counted)

  abbrev IsTrimmed : List String → Type 0
  IsTrimmed ids = All (λ id. length (own id) ≤ c.retention_max_events_per_session) ids

  prune_overflow_done :
      (pending : List String)
      → (prune_overflow c batch pending rows).count ≡ 0
      → IsTrimmed pending × ((prune_overflow c batch pending rows).rows ≡ rows)
  unfolding prune_overflow overflow_rowids_for_session delete_rowids_batch
  prune_overflow_done [] none_left = (tt, refl)
  prune_overflow_done (id ∷ ids) none_left =
      let min_keep = min_keep_seq c id rows in
      let rowids = overflow_rowids_for_session batch id min_keep rows in
      elim (Bool-cases (leb min_keep 1)) [
        | inl few ↦
            let rest = prune_overflow_done ids (rw (few, prune_overflow) at none_left) in
            ((few_own id few, rest.0), rw (few, prune_overflow) rest.1)
        | inr many ↦ elim (Bool-cases (is_empty rowids)) [
          | inl clean ↦
              let rest = prune_overflow_done ids (rw (many, clean, prune_overflow) at none_left) in
              ((clean_own id clean, rest.0), rw (many, clean, prune_overflow) rest.1)
          | inr over ↦
              absurd (
                ground
                  (arith, over, no_count rowids (rw (many, over, prune_overflow) at none_left)))
        ]
      ]

  -- If the rows of each session stand in the order of their sequence numbers, all different and from
  -- 1 on, and a batch that has room takes nothing away, then the table is as before, no row of it was
  -- written before the cutoff, and no pending session has more rows than are to be kept.
  pub prune_incremental_done :
      (pending : List String)
      → (prune_incremental c batch cutoff pending rows).count ≡ 0
      → ((prune_incremental c batch cutoff pending rows).rows ≡ rows)
        × ((row : EventRow) → Among row rows → cutoff ≤ row.timestamp)
        × All
            (λ id. length (select (of_session id) rows) ≤ c.retention_max_events_per_session)
            pending
  unfolding prune_incremental stale_rowids delete_rowids_batch
  prune_incremental_done pending none_left =
      let rowids = stale_rowids batch cutoff rows in
      elim (Bool-cases (is_empty rowids)) [
        | inl fresh ↦
            let rest = prune_overflow_done pending (rw (fresh, prune_incremental) at none_left) in
            (
              rw (fresh, prune_incremental) rest.1,
              λ row m.
                  let young =
                    batch-is_empty (λ r. r.timestamp) (is_too_old cutoff) batch rows row some_room
                      fresh m in
                  ground (arith, young),
              rest.0,
            )
        | inr old ↦
            absurd (ground (arith, old, no_count rowids (rw (old, prune_incremental) at none_left)))
      ]
