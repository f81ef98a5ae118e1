-- ===== src/Ingest/Attempts/Listing.antt =====
-- GetDeliveryStatus of internal/ingest/service.go.
pub mod Selected
use harbor_hook.Common.{
  ℕ, zero, suc, ◌+◌, ◌*◌, String, List, [], ◌∷◌, ◌++◌, map, Option, none, some, Bool, true, false,
  ◌&&◌, ◌||◌, not, ◌==◌, eqb, filter, take, Result, ok, err, if◌then◌else◌,
}
use harbor_hook.Common.Exec.{Exec, pure, raise, branch, ◌>>=◌}
use harbor_hook.Common.Int.{ℤ}
use harbor_hook.Store.{Delivery, Db}
use harbor_hook.World.{World, query}
use harbor_hook.Ingest.Attempts.{DeliveryAttempt, to_attempt, limit_of}
use harbor_hook.Ingest.Attempts.Selection.{
  Argument, text, time, count, Condition, event_is, endpoint_is, enqueued_from, enqueued_to, Clause,
  argument, satisfies, sort_by_enqueued,
}

-- timestamppb.Timestamp at or after 1970
pub record Timestamp : Type 0 where
  pub seconds : ℕ
  pub nanos : ℕ

-- AsTime, in nanoseconds
abbrev pub as_time : Timestamp → ℕ
as_time t = t.seconds * 1_000_000_000 + t.nanos

pub record GetDeliveryStatusRequest : Type 0 where
  pub event_id : String
  pub endpoint_id : String
  pub from : Option Timestamp
  pub to : Option Timestamp
  pub limit : ℤ

-- the variables `where`, `args` and `argn`
pub record Builder : Type 0 where
  pub clauses : List Clause
  pub args : List Argument
  pub argn : ℕ

-- argn++; where += " AND d.column op $argn"; args = append(args, arg)
abbrev pub add_clause : Condition → Argument → Builder → Builder
add_clause c arg b = record {
  clauses = b.clauses ++ record { condition = c; placeholder = b.argn + 1 } ∷ [];
  args = b.args ++ arg ∷ [];
  argn = b.argn + 1;
}

-- if the endpoint is not ""
abbrev pub add_endpoint : String → Builder → Builder
add_endpoint id b = if id == "" then b else add_clause endpoint_is (text id) b

-- if the time is given and its seconds are not 0
abbrev pub add_time : Condition → Option Timestamp → Builder → Builder
add_time c none b = b
add_time c (some t) b = if eqb t.seconds 0 then b else add_clause c (time (as_time t)) b

pub record StatusQuery : Type 0 where
  pub clauses : List Clause
  pub args : List Argument
  pub limit_placeholder : ℕ

unfoldable pub status_query : GetDeliveryStatusRequest → StatusQuery
status_query req =
    let start : Builder = record {
      clauses = record { condition = event_is; placeholder = 1 } ∷ [];
      args = text req.event_id ∷ [];
      argn = 1;
    } in
    let b =
      add_time enqueued_to req.to
        (add_time enqueued_from req.from (add_endpoint req.endpoint_id start)) in
    record {
      clauses = b.clauses;
      args = b.args ++ count (limit_of req.limit) ∷ [];
      limit_placeholder = b.argn + 1;
    }

-- a LIMIT whose argument is no number is an error
abbrev pub limited : Option Argument → List Delivery → Result (List Delivery)
limited (some (count n)) ds = ok (take n ds)
limited _ ds = err "limit: bad argument"

unfoldable pub run_status_query : StatusQuery → Db → Result (List Delivery)
unfolding satisfies argument sort_by_enqueued
run_status_query q db =
    limited (argument q.limit_placeholder q.args)
      (sort_by_enqueued (filter (satisfies q.args q.clauses) db.deliveries))

unfoldable pub get_delivery_status : GetDeliveryStatusRequest → Exec World (List DeliveryAttempt)
unfolding to_attempt status_query run_status_query
get_delivery_status req =
    branch (req.event_id == "") (raise "event_id is required")
      do rows ← query (run_status_query (status_query req)); pure (map to_attempt rows)
