-- ===== src/EventStore/Pruning.antt =====
-- `_prune_incremental` of src/codex_event_store.py, one batch of the events that are too old or too
-- many. A rowid stands for the row with its primary key. Its SELECT and DELETE are one step here:
-- between them the store only adds rows, which neither of them names.
use claude_sessions.Prelude.{
  true, ℕ, ◌+◌, ◌-◌, String, Bool, false, ◌&&◌, ◌||◌, ◌==◌, List, [], ◌∷◌, length, take, str_eq,
  ltb, leb, if◌then◌else◌,
}
use claude_sessions.Sql.{select, delete, order_by}
use claude_sessions.EventStore.Events.{EventRow, Settings, of_session, latest_seq}

pub record Pruned : Type 0 where
  pub rows : List EventRow
  pub count : ℕ
  pub remaining : List String

abbrev pub same_rowid : EventRow → EventRow → Bool
same_rowid a b = str_eq a.session_id b.session_id && a.seq == b.seq

abbrev pub is_listed : List EventRow → EventRow → Bool
is_listed [] row = false
is_listed (id ∷ ids) row = same_rowid id row || is_listed ids row

-- `not rowids`
abbrev pub is_empty : List EventRow → Bool
is_empty [] = true
is_empty (_ ∷ _) = false

-- WHERE timestamp < ?
abbrev pub is_too_old : ℕ → EventRow → Bool
is_too_old cutoff row = ltb row.timestamp cutoff

-- WHERE session_id = ? AND seq < ?
abbrev pub overflows : String → ℕ → EventRow → Bool
overflows id min_keep row = of_session id row && ltb row.seq min_keep

-- `_overflow_rowids_for_session`
unfoldable pub overflow_rowids_for_session : ℕ → String → ℕ → List EventRow → List EventRow
overflow_rowids_for_session batch id min_keep rows =
    take batch (order_by (λ row. row.seq) (select (overflows id min_keep) rows))

-- the SELECT of `_prune_incremental`
unfoldable pub stale_rowids : ℕ → ℕ → List EventRow → List EventRow
stale_rowids batch cutoff rows =
    take batch (order_by (λ row. row.timestamp) (select (is_too_old cutoff) rows))

-- `_delete_rowids_batch`, and the sessions that are left for the next batch
unfoldable pub delete_rowids_batch : List EventRow → List String → List EventRow → Pruned
delete_rowids_batch ids remaining rows = record {
  rows = delete (is_listed ids) rows;
  count = length ids;
  remaining = remaining;
}

abbrev pub min_keep_seq : Settings → String → List EventRow → ℕ
min_keep_seq c id rows = latest_seq id rows + 1 - c.retention_max_events_per_session

-- the loop over the pending sessions
unfoldable pub prune_overflow : Settings → ℕ → List String → List EventRow → Pruned
unfolding overflow_rowids_for_session delete_rowids_batch latest_seq
prune_overflow c batch [] rows = record { rows = rows; count = 0; remaining = [] }
prune_overflow c batch (id ∷ ids) rows =
    let min_keep = min_keep_seq c id rows in
    let rowids = overflow_rowids_for_session batch id min_keep rows in
    let later = prune_overflow c batch ids rows in
    if leb min_keep 1
    then later
    else if is_empty rowids
    then later
    else delete_rowids_batch rowids (if ltb (length rowids) batch then ids else id ∷ ids) rows

-- `_prune_incremental`; `cutoff` is `now` less the days of retention.
unfoldable pub prune_incremental : Settings → ℕ → ℕ → List String → List EventRow → Pruned
unfolding stale_rowids delete_rowids_batch prune_overflow
prune_incremental c batch cutoff pending rows =
    let rowids = stale_rowids batch cutoff rows in
    if is_empty rowids
    then prune_overflow c batch pending rows
    else delete_rowids_batch rowids pending rows
