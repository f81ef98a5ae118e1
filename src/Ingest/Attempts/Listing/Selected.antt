-- ===== src/Ingest/Attempts/Listing/Selected.antt =====
-- The rows that GetDeliveryStatus of internal/ingest/service.go selects, for every combination of the
-- optional filters.
use harbor_hook.Common.{
  ℕ, ◌+◌, String, List, [], ◌∷◌, ◌++◌, Option, none, some, Bool, true, false, ◌&&◌, ◌==◌, eqb,
  filter, take, ok, ◌≡◌, refl, ap, if◌then◌else◌,
}
use harbor_hook.Store.{Delivery, Db}
use harbor_hook.Ingest.Attempts.{limit_of}
use harbor_hook.Ingest.Attempts.Selection.{
  Argument, text, time, count, Condition, event_is, endpoint_is, enqueued_from, enqueued_to,
  at_least, at_most, sort_by_enqueued,
}
use harbor_hook.Ingest.Attempts.Listing.{
  Timestamp, as_time, GetDeliveryStatusRequest, Builder, StatusQuery, add_clause, status_query,
  run_status_query,
}

-- a bound that is not given, or whose seconds are 0, selects every row
abbrev bounded : (Option ℕ → ℕ → Bool) → Option Timestamp → Option ℕ → Bool
bounded test none e = true
bounded test (some t) e = if eqb t.seconds 0 then true else test e (as_time t)

-- the filter that a request asks for
abbrev pub selects : GetDeliveryStatusRequest → Delivery → Bool
selects req d =
    d.event_id == req.event_id
    && ((if req.endpoint_id == "" then true else d.endpoint_id == req.endpoint_id)
        && (bounded at_least req.from d.enqueued_at && bounded at_most req.to d.enqueued_at))

abbrev start : String → Builder
start event_id = record {
  clauses = record { condition = event_is; placeholder = 1 } ∷ [];
  args = text event_id ∷ [];
  argn = 1;
}

abbrev closed : ℕ → Builder → StatusQuery
closed limit b = record {
  clauses = b.clauses;
  args = b.args ++ count limit ∷ [];
  limit_placeholder = b.argn + 1;
}

abbrev add_unless : Bool → Condition → Argument → Builder → Builder
add_unless skip c arg b = if skip then b else add_clause c arg b

and_true : (b : Bool) → (b && true) ≡ b
and_true true = refl
and_true false = refl

filter-ext :
    {A : Type 0} (p q : A → Bool) (xs : List A) → ((a : A) → p a ≡ q a) → filter p xs ≡ filter q xs
filter-ext p q [] h = refl
filter-ext p q (x ∷ xs) h = rw (h x, filter-ext p q xs h) refl

built :
    (event_id endpoint_id : String) (from to limit : ℕ) (db : Db) (no_endpoint no_from no_to : Bool)
    → run_status_query
        (closed limit (
          add_unless no_to enqueued_to (time to) (
            add_unless no_from enqueued_from
              (time from)
              (add_unless no_endpoint endpoint_is (text endpoint_id) (start event_id)))))
        db
      ≡ ok (
          take limit (
            sort_by_enqueued (
              filter
                (λ d.
                  d.event_id == event_id
                  && ((if no_endpoint then true else d.endpoint_id == endpoint_id)
                      && ((if no_from then true else at_least d.enqueued_at from)
                          && (if no_to then true else at_most d.enqueued_at to))))
                db.deliveries)))
unfolding run_status_query
built event_id endpoint_id from to limit db true true true = refl
built event_id endpoint_id from to limit db true true false =
    ap (λ rows. ok (take limit (sort_by_enqueued rows)))
      (filter-ext _ _ db.deliveries λ d. rw (and_true (at_most d.enqueued_at to)) refl)
built event_id endpoint_id from to limit db true false true = refl
built event_id endpoint_id from to limit db true false false =
    ap (λ rows. ok (take limit (sort_by_enqueued rows)))
      (filter-ext _ _ db.deliveries λ d. rw (and_true (at_most d.enqueued_at to)) refl)
built event_id endpoint_id from to limit db false true true = refl
built event_id endpoint_id from to limit db false true false =
    ap (λ rows. ok (take limit (sort_by_enqueued rows)))
      (filter-ext _ _ db.deliveries λ d. rw (and_true (at_most d.enqueued_at to)) refl)
built event_id endpoint_id from to limit db false false true = refl
built event_id endpoint_id from to limit db false false false =
    ap (λ rows. ok (take limit (sort_by_enqueued rows)))
      (filter-ext _ _ db.deliveries λ d. rw (and_true (at_most d.enqueued_at to)) refl)

-- The query that GetDeliveryStatus builds returns, for every combination of the optional filters,
-- the deliveries that the request's filter selects, ordered by their enqueueing and cut at the
-- limit: each numbered placeholder stands for the argument meant.
pub run_status_query-status_query :
    (req : GetDeliveryStatusRequest) (db : Db)
    → run_status_query (status_query req) db
      ≡ ok (take (limit_of req.limit) (sort_by_enqueued (filter (selects req) db.deliveries)))
unfolding status_query
run_status_query-status_query req db = go req.from req.to
  where
    go :
        (from to : Option Timestamp)
        → run_status_query (status_query (record req { from = from; to = to })) db
          ≡ ok (
              take (limit_of req.limit) (
                sort_by_enqueued
                  (filter (selects (record req { from = from; to = to })) db.deliveries)))
    go none none =
        built req.event_id req.endpoint_id 0 0 (limit_of req.limit) db (req.endpoint_id == "") true
          true
    go (some f) none =
        built req.event_id req.endpoint_id (as_time f) 0 (limit_of req.limit) db
          (req.endpoint_id == "") (eqb f.seconds 0) true
    go none (some t) =
        built req.event_id req.endpoint_id 0 (as_time t) (limit_of req.limit) db
          (req.endpoint_id == "") true (eqb t.seconds 0)
    go (some f) (some t) =
        built req.event_id req.endpoint_id (as_time f) (as_time t) (limit_of req.limit) db
          (req.endpoint_id == "") (eqb f.seconds 0) (eqb t.seconds 0)
