-- ===== src/RequestLedger/Listing.antt =====
-- The queries over the requests of a session agree with one another and with the table.
use claude_sessions.Prelude.{
  true, arith, if◌then◌else◌, ◌&&◌, str_eq, ℕ, String, ◌≡◌, refl, sym, Bool, false, Option, none,
  some, List, [], ◌∷◌, map, is_some, ◌∙◌,
}
use claude_sessions.Sql.{
  fetch_one, fetch_one-select-keyed, select-IsUnique, fetch_one-order_by-keyed, select, order_by,
  IsAscending, order_by-IsAscending, order_by-perm, head, head-order_by-select, map-IsAscending,
}
use claude_sessions.RequestLedger.Types.{
  pending, orphaned, expired, resolved, Request, Codec, View, Ledger,
}
use claude_sessions.RequestLedger.Rows.{row, has_id, listed, pending_in, view}
use claude_sessions.RequestLedger.{list_requests, has_pending_requests, oldest_pending_summary}
use mathlib.Core.List.{Perm}
use mathlib.Core.List.Perm
use mathlib.Core.Option
use claude_sessions.RequestLedger.Unique.{HasKey}

abbrev pub at_view : {P : Type 0} → View P → ℕ
at_view v = v.requested_at

summary-head :
    {P : Type 0} (codec : Codec P) (rows : List Request)
    → elim rows as (λ _. Option (String × String × ℕ)) [
      | [] ↦ none
      | r ∷ _ ↦ some (r.request_id, r.request_type, r.requested_at)
    ]
      ≡ Option.map
          (λ (v : View P). (v.request_id, v.request_type, v.requested_at))
          (head (map (view codec) rows))
unfolding view
summary-head codec [] = refl
summary-head codec (r ∷ rows) = refl

is_some-head-map {ℓ κ} :
    {R : Type ℓ} {S : Type κ} (f : R → S) (rows : List R)
    → is_some (head (map f rows)) ≡ is_some (head rows)
is_some-head-map f [] = refl
is_some-head-map f (r ∷ rows) = refl

fetch_one-view :
    {P : Type 0} (codec : Codec P) (id : String) (rows : List Request)
    → fetch_one (λ (v : View P). str_eq v.request_id id) (map (view codec) rows)
      ≡ elim (fetch_one (has_id id) rows) [ none ↦ none | some r ↦ some (view codec r) ]
unfolding fetch_one view
fetch_one-view codec id [] = refl
fetch_one-view codec id (r ∷ rows) = ground (arith, fetch_one-view codec id rows)

module _ {P : Type 0} (codec : Codec P) (session : String) (l : Ledger P) where
  listed_row :
      (include_orphaned : Bool) (id : String)
      → HasKey l.rows
      → fetch_one
          (λ (v : View P). str_eq v.request_id id)
          (map (view codec) (
            order_by
              (λ (r : Request). r.requested_at)
              (select (listed session include_orphaned) l.rows)))
        ≡ elim (row id l) [
          | none ↦ none
          | some r ↦ if listed session include_orphaned r then some (view codec r) else none
        ]
  listed_row include_orphaned id key =
      let test = listed session include_orphaned in
      let at_row = λ (r : Request). r.requested_at in
      let by_id = λ (r : Request). r.request_id in
      let found =
        fetch_one-order_by-keyed at_row by_id id (select test l.rows)
          (select-IsUnique by_id test l.rows key)
        ∙ fetch_one-select-keyed by_id test id l.rows key in
      fetch_one-view codec id (order_by at_row (select test l.rows)) ∙ rw found (ground arith)

  -- With distinct request identifiers, the requests of a session are listed by the time of the
  -- request. The list has exactly the rows whose session is this one and whose status is pending,
  -- or orphaned where those are asked for: an identifier gives in it the view of its row in the
  -- table, if the row is one of these, and nothing otherwise; and each is there as often as in the
  -- table.
  pub list_requests_exact :
      (include_orphaned : Bool)
      → HasKey l.rows
      → IsAscending at_view (list_requests codec session include_orphaned l)
        × Perm (list_requests codec session include_orphaned l) (
            map (view codec) (
              select
                (λ r. str_eq r.session_id session && elim r.status [
                  | pending ↦ true
                  | orphaned ↦ include_orphaned
                  | expired ↦ false
                  | resolved ↦ false
                ])
                l.rows))
        × ((id : String)
            → fetch_one
                (λ (v : View P). str_eq v.request_id id)
                (list_requests codec session include_orphaned l)
              ≡ elim (row id l) [
                | none ↦ none
                | some r ↦
                    if str_eq r.session_id session && elim r.status [
                      | pending ↦ true
                      | orphaned ↦ include_orphaned
                      | expired ↦ false
                      | resolved ↦ false
                    ]
                    then some (view codec r)
                    else none
              ])
  unfolding list_requests
  list_requests_exact include_orphaned key =
      let rows = select (listed session include_orphaned) l.rows in
      let at_row = λ (r : Request). r.requested_at in
      (
        map-IsAscending at_row at_view (view codec) (λ r. unfold view in refl)
            (order_by at_row rows) (order_by-IsAscending at_row rows),
        Perm.map (view codec) (order_by-perm at_row rows),
        λ id. listed_row include_orphaned id key,
      )

  -- The oldest pending request is the first of the list.
  pub oldest_pending_summary_first :
      oldest_pending_summary session l
      ≡ Option.map
          (λ (v : View P). (v.request_id, v.request_type, v.requested_at))
          (head (list_requests codec session false l))
  unfolding list_requests oldest_pending_summary
  oldest_pending_summary_first =
      summary-head codec
        (order_by (λ (r : Request). r.requested_at) (select (pending_in session) l.rows))

  -- A session has pending requests exactly when the list of them is not empty.
  pub has_pending_requests_listed :
      has_pending_requests session l ≡ is_some (head (list_requests codec session false l))
  unfolding has_pending_requests list_requests
  has_pending_requests_listed =
      let rows = order_by (λ (r : Request). r.requested_at) (select (pending_in session) l.rows) in
      head-order_by-select (λ (r : Request). r.requested_at) (pending_in session) l.rows
      ∙ sym (is_some-head-map (view codec) rows)
