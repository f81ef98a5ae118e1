-- ===== src/Harborctl/Quick/Subscribed.antt =====
-- quick setup of cmd/harborctl/cmd/quick.go against the webhook service and its tables.
use harbor_hook.Common.{
  ap, ◌==◌, false, eq_false, ℕ, String, List, Option, none, some, Result, ok, err, wrap, ◌≡◌, refl,
  sym, subst,
}
use harbor_hook.Common.Exec.{Exec, ◌>>=◌, ◌>>◌}
use harbor_hook.Store.{Db, Event, Delivery}
use harbor_hook.Store.Effects.{insert_endpoint-eq, insert_subscription-eq}
use harbor_hook.Delivery.{Task}
use harbor_hook.World.{World}
use harbor_hook.World.Invariants.{
  Kept, Ensures, Ensures-run, Ensures-query, Ensures-pure, Ensures-raise, Ensures-branch,
  Ensures-bind,
}
use harbor_hook.Ingest.{Context, CreateEndpointRequest, EndpointReply, CreateSubscriptionRequest}
use harbor_hook.Ingest.Endpoints.{
  store_endpoint, with_valid_url, secret_for, create_endpoint, create_subscription,
}
use harbor_hook.Harborctl.{Kit, given, explained}
use harbor_hook.Harborctl.Settings.{Options}
use harbor_hook.Harborctl.Gateway.{Runtime, Links, service}
use harbor_hook.Harborctl.Quick.{Shown, quick_setup}
use harbor_hook.Harborctl.Quick.Tables.{
  Keeps, Subscribed, HasEndpoint, insert_endpoint-HasEndpoint, insert_subscription-Subscribed,
}

-- what quick setup does not touch
abbrev pub Untouched : List Event → List Delivery → List Task → Db → List Task → Type 0
Untouched events deliveries queue db q =
    (db.events ≡ events) × (db.deliveries ≡ deliveries) × (q ≡ queue)

abbrev Anything : World → Type 0
Anything w = Unit {0}

module _ (events : List Event) (deliveries : List Delivery) (queue : List Task) where
  abbrev Same : Db → List Task → Type 0
  Same = Untouched events deliveries queue

  Ensures-explained :
      {A : Type 0} (P : World → Type 0) (Q : A → World → Type 0) (label : String) (m : Exec World A)
      → Ensures Same P m Q
      → Ensures Same P (explained label m) Q
  unfolding explained
  Ensures-explained {A} P Q label m k = record { at = λ w i p. go (m w) (k.at w i p) }
    where
      go : (r : Result A × World) → Kept Same Q r → Kept Same Q (wrap label r.0, r.1)
      go (ok a, w') h = h
      go (err e, w') h = h

  abbrev Made : String → String → EndpointReply → World → Type 0
  Made url secret e w = HasEndpoint e.id url secret w.db

  secret_for-Keeps :
      (c : Context) (given secret : String)
      → secret_for c given ≡ ok secret
      → Keeps given (some (some secret))
  secret_for-Keeps c given secret e some_given =
      let other : (given == "") ≡ false = eq_false given "" some_given in
      let same : given ≡ secret = cc (rw other at e) in ap (λ x. some (some x)) (sym same)

  store_endpoint-Made :
      (c : Context) (req : CreateEndpointRequest) (o : Result String)
      → ((secret : String) → o ≡ ok secret → Keeps req.secret (some (some secret)))
      → Ensures Same Anything (store_endpoint c req o) (Made req.url req.secret)
  store_endpoint-Made c req (err e) keeps = Ensures-raise Same Anything _ e
  store_endpoint-Made c req (ok secret) keeps =
      let Q = λ (a : String × ℕ) (w : World). HasEndpoint a.0 req.url req.secret w.db in
      Ensures-bind Same Anything Q (Made req.url req.secret) _ _
        (Ensures-run Same Anything Q _ λ w a db i _ e. (
          subst (λ x. Same x w.queue)
              (sym (insert_endpoint-eq c.now w.db db req.tenant_id req.url secret a e)) i,
          insert_endpoint-HasEndpoint c.now req.tenant_id req.url req.secret secret w.db db a
              (keeps secret refl) e,
        ))
        λ a. Ensures-pure Same (Q a) (Made req.url req.secret) _ (λ w p. p)

  with_valid_url-Made :
      (c : Context) (req : CreateEndpointRequest) (bad : Option String)
      → Ensures Same Anything (with_valid_url c req bad) (Made req.url req.secret)
  with_valid_url-Made c req (some e) = Ensures-raise Same Anything _ _
  with_valid_url-Made c req none =
      store_endpoint-Made c req (secret_for c req.secret) (secret_for-Keeps c req.secret)

  create_endpoint-Made :
      (c : Context) (req : CreateEndpointRequest)
      → Ensures Same Anything (create_endpoint c req) (Made req.url req.secret)
  unfolding create_endpoint
  create_endpoint-Made c req =
      Ensures-branch Same Anything (Made req.url req.secret) _ _ _
        (λ _. Ensures-raise Same Anything _ _)
        λ _. with_valid_url-Made c req (c.parse_request_uri req.url)

  create_subscription-Subscribed :
      (c : Context) (req : CreateSubscriptionRequest) (url secret : String)
      → Ensures Same
          (λ w. HasEndpoint req.endpoint_id url secret w.db)
          (create_subscription c req)
          (λ _ w. Subscribed req.tenant_id req.event_type url secret w.db)
  unfolding create_subscription
  create_subscription-Subscribed c req url secret =
      let P = λ (w : World). HasEndpoint req.endpoint_id url secret w.db in
      let Q = λ (w : World). Subscribed req.tenant_id req.event_type url secret w.db in
      Ensures-branch Same P (λ _ w. Q w) _ _ _ (λ _. Ensures-raise Same P _ _)
        λ _.
          Ensures-bind Same P (λ _ w. P w) (λ _ w. Q w) _ _
            (Ensures-query Same P (λ _ w. P w) _ λ w a i p e. p)
            λ exists.
              Ensures-branch Same P (λ _ w. Q w) _ _ _
                (λ _.
                  Ensures-bind Same P (λ _ w. Q w) (λ _ w. Q w) _ _
                    (Ensures-run Same P (λ _ w. Q w) _
                      λ w a db i p e. (
                        subst (λ x. Same x w.queue)
                            (sym (
                              insert_subscription-eq c.now w.db db req.tenant_id req.event_type
                                req.endpoint_id a e))
                            i,
                        insert_subscription-Subscribed c.now req.tenant_id req.event_type
                            req.endpoint_id url secret w.db db a e p,
                      ))
                    λ a. Ensures-pure Same Q (λ _ w. Q w) _ (λ w q. q))
                λ _. Ensures-raise Same P _ _

  dialled :
      (link : Result (Unit {0}))
      → Ensures Same Anything (given link) (λ (_ : Unit {0}) w. Anything w)
  dialled (ok u) = record { at = λ w i p. (i, tt) }
  dialled (err e) = record { at = λ w i p. i }

  -- a call behind a link that may fail
  Ensures-behind :
      {A : Type 0} (P : World → Type 0) (Q : A → World → Type 0) (link : Result (Unit {0}))
      (m : Exec World A)
      → Ensures Same P m Q
      → Ensures Same P (given link >> m) Q
  unfolding ◌>>=◌
  Ensures-behind P Q (ok u) m k = record { at = λ w i p. k.at w i p }
  Ensures-behind P Q (err e) m k = record { at = λ w i p. i }

  quick_setup-Ensures :
      (l : Links) (rt : Runtime) (c : Context) (k : Kit) (g : Options)
      (tenant url event_type secret : String)
      → Ensures Same Anything
          (quick_setup (service rt c l) k g tenant url event_type secret)
          (λ _ w. Subscribed tenant event_type url secret w.db)
  unfolding quick_setup
  quick_setup-Ensures l rt c k g tenant url event_type secret =
      let Q = λ (w : World). Subscribed tenant event_type url secret w.db in
      Ensures-bind Same Anything (λ _ w. Anything w) (λ _ w. Q w) _ _
        (Ensures-explained Anything (λ _ w. Anything w) _ _
          (Ensures-explained Anything (λ _ w. Anything w) _ _ (dialled l.dial)))
        λ _.
          Ensures-bind Same Anything (Made url secret) (λ _ w. Q w) _ _
            (Ensures-explained Anything (Made url secret) _ _ (
              Ensures-behind Anything (Made url secret) (l.plaintext "CreateEndpoint") _
                (create_endpoint-Made c _)))
            λ e.
              Ensures-bind Same (Made url secret e) (λ _ w. Q w) (λ _ w. Q w) _ _
                (Ensures-explained (Made url secret e) (λ _ w. Q w) _ _
                  (Ensures-behind (Made url secret e) (λ _ w. Q w)
                    (l.plaintext "CreateSubscription") _
                    (create_subscription-Subscribed c _ url secret)))
                λ s. Ensures-pure Same Q (λ _ w. Q w) _ (λ w q. q)

-- A quick setup that succeeds, whatever calls of the database fail or lose their answers and
-- whatever calls do not reach the service: a publish of its event type for its tenant fans out to an
-- endpoint with its URL, and with its secret if that is not empty, and the events, the deliveries
-- and the queue are as before.
pub quick_setup-Subscribed :
    (l : Links) (rt : Runtime) (c : Context) (k : Kit) (g : Options)
    (tenant url event_type secret : String) (w w' : World) (shown : Shown)
    → quick_setup (service rt c l) k g tenant url event_type secret w ≡ (ok shown, w')
    → Subscribed tenant event_type url secret w'.db
      × Untouched w.db.events w.db.deliveries w.queue w'.db w'.queue
quick_setup-Subscribed l rt c k g tenant url event_type secret w w' shown e =
    let rule =
      quick_setup-Ensures w.db.events w.db.deliveries w.queue l rt c k g tenant url event_type
        secret in
    let same = Untouched w.db.events w.db.deliveries w.queue in
    let all =
      subst (Kept same (λ _ v. Subscribed tenant event_type url secret v.db)) e
        (rule.at w (refl, refl, refl) tt) in
    (all.1, all.0)
