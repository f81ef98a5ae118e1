-- ===== src/Ingest/Attempts/DeadLetters.antt =====
-- ListDLQ of internal/ingest/service.go.
pub mod Ordered
use harbor_hook.Common.{
  String, List, [], ◌∷◌, map, Option, none, some, Bool, true, ◌==◌, leb, filter, take, ok,
  if◌then◌else◌,
}
use harbor_hook.Common.Exec.{Exec, pure, ◌>>=◌}
use harbor_hook.Common.Int.{ℤ}
use harbor_hook.Store.{Delivery, DlqEntry, Db}
use harbor_hook.Store.Queries.{delivery_at}
use harbor_hook.World.{World, query}
use harbor_hook.Ingest.Attempts.{DeliveryAttempt, to_attempt, limit_of}

pub record ListDlqRequest : Type 0 where
  pub endpoint_id : String
  pub limit : ℤ

abbrev pub joined :
    Option Delivery → List (DlqEntry × Delivery) → DlqEntry → List (DlqEntry × Delivery)
joined none rest q = rest
joined (some d) rest q = (q, d) ∷ rest

-- FROM deliveries d JOIN dlq q ON q.delivery_id = d.id
unfoldable pub join_dlq : List Delivery → List DlqEntry → List (DlqEntry × Delivery)
join_dlq ds [] = []
join_dlq ds (q ∷ qs) = joined (delivery_at q.delivery_id ds) (join_dlq ds qs) q

pub insert_by_created :
    DlqEntry × Delivery → List (DlqEntry × Delivery) → List (DlqEntry × Delivery)
insert_by_created r [] = r ∷ []
insert_by_created r (x ∷ xs) =
    if leb x.0.created_at r.0.created_at then r ∷ x ∷ xs else x ∷ insert_by_created r xs

-- ORDER BY q.created_at DESC
unfoldable pub sort_by_created : List (DlqEntry × Delivery) → List (DlqEntry × Delivery)
unfolding insert_by_created
sort_by_created [] = []
sort_by_created (r ∷ rs) = insert_by_created r (sort_by_created rs)

-- WHERE 1=1, or the endpoint if one is given
abbrev pub wanted : String → DlqEntry × Delivery → Bool
wanted endpoint_id r = if endpoint_id == "" then true else r.1.endpoint_id == endpoint_id

unfoldable pub dead_rows : ListDlqRequest → Db → List (DlqEntry × Delivery)
unfolding join_dlq sort_by_created
dead_rows req db =
    take (limit_of req.limit)
      (sort_by_created (filter (wanted req.endpoint_id) (join_dlq db.deliveries db.dlq)))

unfoldable pub list_dlq : ListDlqRequest → Exec World (List DeliveryAttempt)
unfolding dead_rows to_attempt
list_dlq req = do rows ← query (λ db. ok (dead_rows req db)); pure (map (λ r. to_attempt r.1) rows)
