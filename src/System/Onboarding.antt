-- ===== src/System/Onboarding.antt =====
-- A quick setup of cmd/harborctl/cmd/quick.go, a publish of its event type, and the handling of a task of it by
-- cmd/worker/main.go, on one world.
use harbor_hook.Common.{
  Bool, Bool-cases, List, String, [], any, ap, eq_iff, inl, inr, ok, refl, some, subst, sym, true,
  ℕ, ◌++◌, ◌==◌, ◌∙◌, ◌∷◌, ◌≡◌, ◌≢◌,
}
use harbor_hook.Delivery.{Task}
use harbor_hook.Harborctl.{Kit}
use harbor_hook.Harborctl.Gateway.{Links, Runtime, service}
use harbor_hook.Harborctl.Quick.{Shown, quick_setup}
use harbor_hook.Harborctl.Quick.Subscribed.{quick_setup-Subscribed}
use harbor_hook.Harborctl.Quick.Tables.{Subscribed, goes_to}
use harbor_hook.Harborctl.Settings.{Options}
use harbor_hook.Ingest.{Context, PublishEventRequest}
use harbor_hook.Ingest.Publish.{insert_batch}
use harbor_hook.Ingest.Publish.Idempotency.{IsAcceptable}
use harbor_hook.Ingest.Replay.{found}
use harbor_hook.Store.{Db}
use harbor_hook.Store.Effects.{insert_event-eq}
use harbor_hook.Store.Inserts.{insert_event}
use harbor_hook.Store.Queries.{endpoint_secret, subscribers}
use harbor_hook.System.Journey.{frame_of, published, published_delivers, task_of}
use harbor_hook.Worker.{Request, Surroundings, status_of, succeeded}
use harbor_hook.Worker.Outcomes.{IsDelivered, answered}
use harbor_hook.Worker.Verdicts.{FinishedWith}
use harbor_hook.World.{World}

any-split :
    {A : Type 0} (p : A → Bool) (xs : List A)
    → any p xs ≡ true
    → (before : List A) × (x : A) × (after : List A) × (xs ≡ before ++ x ∷ after) × (p x ≡ true)
any-split p [] h = absurd (cc h)
any-split p (x ∷ xs) h = elim (Bool-cases (p x)) [
  | inl h' ↦ ([], x, xs, refl, h')
  | inr h' ↦
      let (before, y, after, split, holds) = any-split p xs (rw h' at h) in
      (x ∷ before, y, after, ap (λ l. x ∷ l) split, holds)
]

goes_to-eq :
    (id url : String) (t : String × String) → goes_to id url t ≡ true → (t.0 ≡ id) × (t.1 ≡ url)
goes_to-eq id url t h = elim (Bool-cases (t.0 == id)) [
  | inl a ↦ ((eq_iff t.0 id).0 a, (eq_iff t.1 url).0 (rw a at h))
  | inr a ↦ absurd (cc (rw a at h))
]

-- An event leaves the fan-out of its type and the secrets of the endpoints as they were.
insert_event-Subscribed :
    (now : ℕ) (tenant event_type url secret payload id : String) (db db' : Db)
    → insert_event now tenant event_type payload db ≡ ok (id, db')
    → Subscribed tenant event_type url secret db
    → Subscribed tenant event_type url secret db'
unfolding subscribers endpoint_secret
insert_event-Subscribed now tenant event_type url secret payload id db db' inserted h =
    let (_, _, same) = insert_event-eq now db db' tenant event_type payload id inserted in
    subst (Subscribed tenant event_type url secret) (sym same) h

module _ {F : Type 0} (l : Links) (rt : Runtime) (c : Context) (k : Kit) (g : Options)
    (url secret : String) (req : PublishEventRequest) (payload id : String) (w w' : World)
    (shown : Shown) (db db' : Db) (s : Surroundings F) where
  -- a target of the publish whose task a worker delivers
  pub record Reached : Type 0 where
    pub before : List (String × String)
    pub target : String × String
    pub after : List (String × String)
    pub listed : subscribers req.tenant_id req.event_type db ≡ before ++ target ∷ after
    pub goes : target.1 ≡ url
    pub enqueued :
        (first : List Task) × (rest : List Task) × ((published c req payload id w' db db').queue
          ≡ w'.queue ++ (first ++ task_of c req payload id w' db db' before target ∷ rest))
    pub handled :
        FinishedWith s
          (task_of c req payload id w' db db' before target)
          (frame_of target secret w' db')
          (IsDelivered 1
            (status_of (answered s (task_of c req payload id w' db db' before target) secret)))
          (published c req payload id w' db db')

  -- From the set-up to the delivery. After a quick setup that succeeded, with a secret that is not
  -- empty and whatever calls of the database or of the network failed on its way, an acceptable
  -- publish of its event type with no idempotency key, when every external call succeeds and the
  -- tables take the rows, has a target with the URL of the setup; its task is enqueued, and where
  -- the URL makes a request and every request of the worker is answered with a 2xx status, the
  -- handling of that task finishes the message with the target's delivery delivered after one
  -- attempt.
  pub quick_setup-Reached :
      secret ≢ ""
      → quick_setup (service rt c l) k g req.tenant_id url req.event_type secret w ≡ (ok shown, w')
      → IsAcceptable c req payload
      → req.idempotency_key ≡ ""
      → insert_event c.now req.tenant_id req.event_type payload w'.db ≡ ok (id, db)
      → (insert_batch c.now id (subscribers req.tenant_id req.event_type db) db).1 ≡ some db'
      → s.takes_url url ≡ true
      → ((r : Request) → succeeded (s.send r) ≡ true)
      → Reached
  quick_setup-Reached h setup fits key inserted batch takes good =
      let ready =
        (quick_setup-Subscribed l rt c k g req.tenant_id url req.event_type secret w w' shown
          setup).0 in
      let (i, found, keeps) =
        insert_event-Subscribed c.now req.tenant_id req.event_type url secret payload id w'.db db
          inserted ready in
      let (before, target, after, split, hit) =
        any-split (goes_to i url) (subscribers req.tenant_id req.event_type db) found in
      let (same, at) = goes_to-eq i url target hit in
      let known : endpoint_secret target.0 db ≡ some (some secret) =
        ap (λ j. endpoint_secret j db) same ∙ keeps h in
      let (tasks, ran) =
        published_delivers c req payload id w' db db' before target after s secret fits key inserted
          split (subst (λ ts. (insert_batch c.now id ts db).1 ≡ some db') split batch) known h
          (ap s.takes_url at ∙ takes) (good _) in
      record {
        before = before;
        target = target;
        after = after;
        listed = split;
        goes = at;
        enqueued = tasks;
        handled = ran;
      }
