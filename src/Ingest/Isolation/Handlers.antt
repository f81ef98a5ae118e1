-- ===== src/Ingest/Isolation/Handlers.antt =====
-- `Isolated` under CreateEndpoint and CreateSubscription of internal/ingest/service.go: whatever calls
-- of the database fail, and whether the handler succeeds.
use harbor_hook.Common.{
  String, Option, none, some, Bool, true, Result, ok, err, ◌≡◌, refl, List, eq_iff,
}
use harbor_hook.Store.{Endpoint}
use harbor_hook.Store.Queries.{endpoint_at, endpoint_exists, owned_by}
use harbor_hook.World.{World}
use harbor_hook.World.Invariants.{
  Ensures, Ensures-run, Ensures-query, Ensures-pure, Ensures-raise, Ensures-branch, Ensures-bind,
}
use harbor_hook.Ingest.{Context, CreateEndpointRequest, CreateSubscriptionRequest}
use harbor_hook.Ingest.Endpoints.{
  create_endpoint, store_endpoint, with_valid_url, secret_for, create_subscription,
}
use harbor_hook.Ingest.Isolation.{Owns, Isolated}
use harbor_hook.Ingest.Isolation.Statements.{insert_endpoint-Isolated, insert_subscription-Isolated}

abbrev pub Anything : World → Type 0
Anything w = Unit

store_endpoint-Isolated :
    (c : Context) (req : CreateEndpointRequest) (secret : Result String)
    → Ensures Isolated Anything (store_endpoint c req secret) (λ _ w. Anything w)
store_endpoint-Isolated c req (err e) = Ensures-raise Isolated Anything _ e
store_endpoint-Isolated c req (ok secret) =
    Ensures-bind Isolated Anything (λ _ w. Anything w) _ _ _
      (Ensures-run Isolated Anything (λ _ w. Anything w) _
        λ w a db i _ e.
          (insert_endpoint-Isolated w.db w.queue i c.now req.tenant_id req.url secret a db e, tt))
      λ a. Ensures-pure Isolated Anything _ _ (λ w p. tt)

with_valid_url-Isolated :
    (c : Context) (req : CreateEndpointRequest) (checked : Option String)
    → Ensures Isolated Anything (with_valid_url c req checked) (λ _ w. Anything w)
with_valid_url-Isolated c req (some e) = Ensures-raise Isolated Anything _ _
with_valid_url-Isolated c req none = store_endpoint-Isolated c req (secret_for c req.secret)

pub create_endpoint-Isolated :
    (c : Context) (req : CreateEndpointRequest)
    → Ensures Isolated Anything (create_endpoint c req) (λ _ w. Anything w)
unfolding create_endpoint
create_endpoint-Isolated c req =
    Ensures-branch Isolated Anything (λ _ w. Anything w) _ _ _
      (λ _. Ensures-raise Isolated Anything _ _)
      λ _. with_valid_url-Isolated c req (c.parse_request_uri req.url)

owned_by-Owns :
    (eps : List Endpoint) (tenant id : String) (o : Option Endpoint)
    → endpoint_at id eps ≡ o
    → owned_by tenant o ≡ true
    → Owns eps tenant id
owned_by-Owns eps tenant id none f h = absurd (cc h)
owned_by-Owns eps tenant id (some e) f h = (e, f, (eq_iff e.tenant_id tenant).0 h)

-- What the EXISTS query established.
abbrev Checked : CreateSubscriptionRequest → Bool → World → Type 0
Checked req exists w = exists ≡ true → Owns w.db.endpoints req.tenant_id req.endpoint_id

exists-Checked :
    (req : CreateSubscriptionRequest) (w : World) (exists : Bool)
    → ok (endpoint_exists req.endpoint_id req.tenant_id w.db) ≡ ok exists
    → Checked req exists w
unfolding endpoint_exists
exists-Checked req w exists e t =
    owned_by-Owns w.db.endpoints req.tenant_id req.endpoint_id _ refl (cc (e, t))

pub create_subscription-Isolated :
    (c : Context) (req : CreateSubscriptionRequest)
    → Ensures Isolated Anything (create_subscription c req) (λ _ w. Anything w)
unfolding create_subscription
create_subscription-Isolated c req =
    Ensures-branch Isolated Anything (λ _ w. Anything w) _ _ _
      (λ _. Ensures-raise Isolated Anything _ _)
      λ _.
        Ensures-bind Isolated Anything (Checked req) _ _ _
          (Ensures-query Isolated Anything (Checked req) _ λ w a i _ e. exists-Checked req w a e)
          λ exists.
            Ensures-branch Isolated (Checked req exists) (λ _ w. Anything w) _ _ _
              (λ found.
                Ensures-bind Isolated (Checked req exists) (λ _ w. Anything w) _ _ _
                  (Ensures-run Isolated (Checked req exists) (λ _ w. Anything w) _
                    λ w a db i known e. (
                      insert_subscription-Isolated w.db w.queue i c.now req.tenant_id req.event_type
                          req.endpoint_id a db (known found) e,
                      tt,
                    ))
                  λ a. Ensures-pure Isolated Anything _ _ (λ w p. tt))
              λ _. Ensures-raise Isolated (Checked req exists) _ _
