-- ===== src/Harborctl/Quick/Tables.antt =====
-- What the inserts of quick setup (cmd/harborctl/cmd/quick.go) leave in the tables.
use harbor_hook.Common.{
  ap, ◌∙◌, ◌≢◌, ℕ, ◌+◌, String, List, [], ◌∷◌, ◌++◌, Bool, true, ◌&&◌, ◌==◌, Option, none, some, ok,
  ◌≡◌, refl, sym, subst, arith, any, filter, Bool-cases, inl, inr, eq_refl, find-snoc,
}
use harbor_hook.Store.{Db, Endpoint, Subscription}
use harbor_hook.Store.Inserts.{insert_endpoint, insert_subscription}
use harbor_hook.Store.Effects.{insert_endpoint-eq, insert_endpoint-fresh, insert_subscription-eq}
use harbor_hook.Store.Queries.{
  endpoint_secret, endpoint_at, join_endpoint, join_endpoints, subscribers, is_for,
}

-- an entry of the fan-out with the endpoint and the URL
abbrev pub goes_to : String → String → String × String → Bool
goes_to id url t = t.0 == id && t.1 == url

-- A secret that is given is kept.
abbrev pub Keeps : String → Option (Option String) → Type 0
Keeps secret kept = secret ≢ "" → kept ≡ some (some secret)

-- A publish of the event type will fan out to an endpoint with the URL, and with the secret if one is given.
abbrev pub Subscribed : String → String → String → String → Db → Type 0
Subscribed tenant event_type url secret db =
    (id : String) × (any (goes_to id url) (subscribers tenant event_type db) ≡ true)
    × Keeps secret (endpoint_secret id db)

-- an endpoint with the URL stands under the identifier, with the secret if one is given
abbrev pub HasEndpoint : String → String → String → Db → Type 0
HasEndpoint id url secret db =
    (e : Endpoint) × (endpoint_at id db.endpoints ≡ some e)
    × (e.id ≡ id)
    × (e.url ≡ url)
    × Keeps secret (some e.secret)

join_endpoints-snoc :
    (tenant event_type : String) (eps : List Endpoint) (subs : List Subscription) (s : Subscription)
    (e : Endpoint)
    → is_for tenant event_type s ≡ true
    → endpoint_at s.endpoint_id eps ≡ some e
    → any
        (goes_to e.id e.url)
        (join_endpoints eps (filter (is_for tenant event_type) (subs ++ s ∷ [])))
      ≡ true
unfolding join_endpoints
join_endpoints-snoc tenant event_type eps [] s e wanted found =
    rw (wanted, found, eq_refl e.id, eq_refl e.url) refl
join_endpoints-snoc tenant event_type eps (x ∷ subs) s e wanted found =
    let rest = join_endpoints-snoc tenant event_type eps subs s e wanted found in
    elim (Bool-cases (is_for tenant event_type x)) [
      | inl h ↦ rw h (later (endpoint_at x.endpoint_id eps) _ rest)
      | inr h ↦ rw h rest
    ]
  where
    later :
        (o : Option Endpoint) (rows : List (String × String))
        → any (goes_to e.id e.url) rows ≡ true
        → any (goes_to e.id e.url) (join_endpoint o rows) ≡ true
    later none rows h = h
    later (some x) rows h = ground (arith, h)

pub insert_endpoint-HasEndpoint :
    (now : ℕ) (tenant url given secret : String) (db db' : Db) (a : String × ℕ)
    → Keeps given (some (some secret))
    → insert_endpoint now tenant url secret db ≡ ok (a, db')
    → HasEndpoint a.0 url given db'
insert_endpoint-HasEndpoint now tenant url given secret db db' a keeps h =
    let (named, fresh) = insert_endpoint-fresh now db db' tenant url secret a h in
    let row : Endpoint = record {
      id = db.uuid db.drawn;
      tenant_id = tenant;
      url = url;
      secret = some secret;
      created_at = now;
    } in
    let found : endpoint_at (db.uuid db.drawn) (db.endpoints ++ row ∷ []) ≡ some row =
      find-snoc (λ e. e.id == db.uuid db.drawn) db.endpoints row fresh
        (eq_refl (db.uuid db.drawn)) in
    let made : HasEndpoint (db.uuid db.drawn) url given
        (record db { endpoints = db.endpoints ++ row ∷ []; drawn = db.drawn + 1 }) =
      (row, found, refl, refl, keeps) in
    subst (λ id. HasEndpoint id url given db') (sym named)
      (subst (HasEndpoint (db.uuid db.drawn) url given)
        (sym (insert_endpoint-eq now db db' tenant url secret a h)) made)

endpoint_secret-eq :
    (id : String) (db : Db) (e : Endpoint)
    → endpoint_at id db.endpoints ≡ some e
    → endpoint_secret id db ≡ some e.secret
unfolding endpoint_secret
endpoint_secret-eq id db e found = rw (endpoint_secret, found) refl

pub insert_subscription-Subscribed :
    (now : ℕ) (tenant event_type id url secret : String) (db db' : Db) (a : String × ℕ)
    → insert_subscription now tenant event_type id db ≡ ok (a, db')
    → HasEndpoint id url secret db
    → Subscribed tenant event_type url secret db'
unfolding subscribers
insert_subscription-Subscribed now tenant event_type id url secret db db' a h
      (e, found, same, at, keeps) =
    let row : Subscription = record {
      id = db.uuid db.drawn;
      tenant_id = tenant;
      event_type = event_type;
      endpoint_id = id;
      created_at = now;
    } in
    let after = record db { subscriptions = db.subscriptions ++ row ∷ []; drawn = db.drawn + 1 } in
    let wanted : is_for tenant event_type row ≡ true =
      rw (eq_refl tenant, eq_refl event_type) refl in
    let listed =
      join_endpoints-snoc tenant event_type db.endpoints db.subscriptions row e wanted found in
    subst (Subscribed tenant event_type url secret)
      (sym (insert_subscription-eq now db db' tenant event_type id a h))
      (
        e.id,
        rw at at listed,
        λ given.
            ap (λ i. endpoint_secret i after) same
            ∙ (endpoint_secret-eq id after e found ∙ keeps given),
      )
