-- ===== src/EventStore/Cursor.antt =====
-- Reading with a cursor: the pages of a session, one after the other, are its events in order.
use claude_sessions.Prelude.{
  ℕ, zero, suc, ◌-◌, ◌*◌, ◌≤◌, String, ◌≡◌, refl, sym, ap, some, List, [], ◌++◌, map, length,
  length-drop, take, drop, arith, Option-cases, inl, inr,
}
use claude_sessions.Sql.{select}
use claude_sessions.EventStore.Events.{EventRow, Event, Settings, EventStore, of_session, max_seq}
use claude_sessions.EventStore.Sequence.{IsSequenced}
use claude_sessions.EventStore.Reading.{
  Reader, min_seq, last_seq, from, page_size, start_seq, read_event, fetch_page, get_events,
}
use claude_sessions.EventStore.Ordered.{
  behind_cursor, IsStrict, select-IsStrict, order_by-IsStrict, select_cong_on, min_seq_bound,
  last_seq_bound, last_seq-none, select-page, select-select, take-nil, drop-nil, map-take-drop,
  pred_suc, no_rows, above_cursor, same_tests, min_seq-none,
}

module _ {P : Type 0} (reader : Reader P) (c : Settings) (s : EventStore P) (id : String) where
  -- A reader that starts behind a cursor and goes on from each page's `next_seq`.
  abbrev pub read_pages : ℕ → ℕ → ℕ → List (Event P)
  read_pages zero limit since = []
  read_pages (suc pages) limit since =
      let page = get_events reader c id (some since) limit s in
      page.events ++ read_pages pages limit (page.next_seq - 1)

module _ {P : Type 0} (reader : Reader P) (c : Settings) (s : EventStore P) (h : IsSequenced s.rows)
    (id : String) where
  abbrev unread : ℕ → List EventRow
  unread since = select (behind_cursor id since) s.rows

  unread-IsStrict : (since : ℕ) → IsStrict (unread since)
  unread-IsStrict since =
      select-IsStrict (behind_cursor id since) id s.rows (λ r on. ground (arith, on)) h

  -- The page behind a cursor holds the first of the rows behind it.
  fetch_page_lem :
      (since n earliest latest : ℕ)
      → min_seq (select (of_session id) s.rows) ≡ some earliest
      → fetch_page id (start_seq (some since) n earliest latest) n s.rows ≡ take n (unread since)
  unfolding fetch_page
  fetch_page_lem since n earliest latest e =
      rw
        (select_cong_on (from id (start_seq (some since) n earliest latest))
          (behind_cursor id since) s.rows
          (same_tests id since n earliest latest s.rows
            (min_seq_bound id s.rows earliest (λ k e'. ground (arith, e, e')))))
        (ap (take n) (order_by-IsStrict (unread since) (unread-IsStrict since)))

  -- What the next cursor leaves is what the page left.
  unread-next :
      (since limit : ℕ)
      → unread ((get_events reader c id (some since) limit s).next_seq - 1)
        ≡ drop (page_size limit) (unread since)
  unfolding get_events
  unread-next since limit = elim (Option-cases (min_seq (select (of_session id) s.rows))) [
    | inl e ↦
        rw (e, get_events, pred_suc since, min_seq-none id since s.rows e)
          (sym (drop-nil (page_size limit)))
    | inr (earliest, e) ↦
        rw
          (
            e,
            get_events,
            fetch_page_lem since (page_size limit) earliest
                (max_seq (select (of_session id) s.rows)) e,
          )
          (elim (Option-cases (last_seq (take (page_size limit) (unread since)))) [
            | inl ended ↦
                rw (ended, pred_suc since)
                  (sym (last_seq-none (page_size limit) (unread since) ended))
            | inr (m, last) ↦
                rw (last, pred_suc m)
                  (let below =
                      last_seq_bound since (page_size limit) m (unread since)
                        (above_cursor id since s.rows) last in
                    rw (select-select id since m s.rows (omega (arith, below)))
                      (select-page (page_size limit) m (unread since) (unread-IsStrict since) last))
          ])
  ]

  events_lem :
      (since limit : ℕ)
      → (get_events reader c id (some since) limit s).events
        ≡ map (read_event reader c) (take (page_size limit) (unread since))
  unfolding get_events
  events_lem since limit = elim (Option-cases (min_seq (select (of_session id) s.rows))) [
    | inl e ↦ rw (e, get_events, min_seq-none id since s.rows e, take-nil (page_size limit)) refl
    | inr (earliest, e) ↦
        rw
          (
            e,
            get_events,
            fetch_page_lem since (page_size limit) earliest
                (max_seq (select (of_session id) s.rows)) e,
          )
          refl
  ]

  -- If the rows of each session stand in the order of their sequence numbers, all different, a reader
  -- that follows the cursor from page to page gets every event of the session behind its first cursor,
  -- each once and in order, whatever the limit is; it takes no more pages than the events fill.
  pub get_events_complete :
      (pages limit since : ℕ)
      → length (select (behind_cursor id since) s.rows) ≤ pages * page_size limit
      → read_pages reader c s id pages limit since
        ≡ map (read_event reader c) (select (behind_cursor id since) s.rows)
  get_events_complete zero limit since enough =
      rw (no_rows (select (behind_cursor id since) s.rows) (omega (arith, enough))) refl
  get_events_complete (suc pages) limit since enough =
      let m : ℕ = (get_events reader c id (some since) limit s).next_seq - 1 in
      let left : length (select (behind_cursor id m) s.rows) ≤ pages * page_size limit =
        rw (unread-next since limit, length-drop (page_size limit) (unread since))
          (omega (arith, enough)) in
      rw (events_lem since limit, get_events_complete pages limit m left, unread-next since limit)
        (map-take-drop (read_event reader c) (page_size limit) (unread since))
