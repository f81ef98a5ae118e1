-- ===== src/Examples/Running.antt =====
-- A publish whose delivery a worker handles.
use harbor_hook.Common.{List, String, [], ne_of_eq_false, none, ok, refl, ℕ, ◌++◌, ◌∷◌, ◌≡◌}
use harbor_hook.Common.Exec.{◌>>=◌}
use harbor_hook.Delivery.{Task}
use harbor_hook.Examples.{
  acme_world, context, ids, paid_delivery, paid_event, paid_task, publish_request, surroundings,
}
use harbor_hook.Examples.Commanding.{json_options, kit, links, runtime, setup_run, setup_shown}
use harbor_hook.Examples.Publishing.{acceptable, with_delivery, with_event}
use harbor_hook.Harborctl.Quick.{quick_setup}
use harbor_hook.Ingest.{PublishEventRequest}
use harbor_hook.Ingest.Calls.{creates_endpoint, creates_subscription, publishes}
use harbor_hook.Ingest.Endpoints.{create_endpoint, create_subscription}
use harbor_hook.Ingest.Isolation.{Isolated}
use harbor_hook.Ingest.Publish.{insert_batch}
use harbor_hook.Ingest.Publish.Idempotency.{IsAcceptable}
use harbor_hook.Store.{Db}
use harbor_hook.Store.Inserts.{
  delivery_row, event_row, insert_delivery, insert_endpoint, insert_event, insert_subscription,
}
use harbor_hook.Store.Queries.{endpoint_exists, endpoint_secret, subscribers}
use harbor_hook.System.{Step, serves, steps, steps-Isolated, works}
use harbor_hook.System.Journey.{frame_of, published, published_delivers, task_of}
use harbor_hook.System.Onboarding.{Reached, quick_setup-Reached}
use harbor_hook.Worker.{replied}
use harbor_hook.Worker.Outcomes.{IsDelivered}
use harbor_hook.Worker.Verdicts.{FinishedWith}
use harbor_hook.World.{Outcome, World, empty_world, query, refused, run}

abbrev run_of_steps : List (List Outcome × Step ℕ)
run_of_steps =
    (
      [],
      serves context (
          creates_endpoint
            (record { tenant_id = "acme"; url = "http://acme.test/hook"; secret = "s3cret" })),
    )
    ∷ (
      [],
      serves context (
          creates_subscription
            (record { tenant_id = "acme"; event_type = "order.paid"; endpoint_id = "u" })),
    )
    ∷ (refused "down" ∷ [], serves context (publishes (publish_request "k1")))
    ∷ ([], serves context (publishes (publish_request "k1")))
    ∷ (
      [],
      works (surroundings 6 (replied 204))
          (ok (record paid_task { delivery_id = "uuuu"; endpoint_id = "u" })),
    )
    ∷ []

steps-Isolated_example :
    Isolated (steps run_of_steps (empty_world ids)).db (steps run_of_steps (empty_world ids)).queue
steps-Isolated_example = steps-Isolated ids run_of_steps

abbrev paid_target : String × String
paid_target = ("e1", "http://acme.test/hook")

abbrev queued_task : Task
queued_task =
    task_of context (publish_request "") "{}" "u" acme_world (with_event none) (with_delivery none)
      [] paid_target

abbrev after_publish : World
after_publish =
    published context (publish_request "") "{}" "u" acme_world (with_event none)
      (with_delivery none)

published_delivers_example :
    ((first : List Task) × (rest : List Task) × (after_publish.queue
        ≡ acme_world.queue ++ (first ++ queued_task ∷ rest)))
    × FinishedWith
        (surroundings 6 (replied 204))
        queued_task
        (frame_of paid_target "s3cret" acme_world (with_delivery none))
        (IsDelivered 1 204)
        after_publish
unfolding insert_event insert_batch insert_delivery subscribers endpoint_secret
published_delivers_example =
    published_delivers context (publish_request "") "{}" "u" acme_world (with_event none)
      (with_delivery none) [] paid_target [] (surroundings 6 (replied 204)) "s3cret" (acceptable "")
      refl refl refl refl refl (λ e. cc e) refl refl

abbrev sent_request : PublishEventRequest
sent_request = record (publish_request "") { event_type = "order.sent" }

sent-IsAcceptable : IsAcceptable context sent_request "{}"
sent-IsAcceptable = record {
  tenant = ne_of_eq_false "acme" "" refl;
  event_type = ne_of_eq_false "order.sent" "" refl;
  text = "{}";
  given = refl;
  marshalled = refl;
}

abbrev after_event : Db
after_event = record setup_run.1.db {
  events = paid_event ∷ event_row 9 "uuu" "acme" "order.sent" "{}" none ∷ [];
  drawn = 3;
}

abbrev after_batch : Db
after_batch = record after_event {
  deliveries = paid_delivery ∷ delivery_row 9 "uuuu" "uuu" "u" none none ∷ [];
  drawn = 4;
}

quick_setup-Reached_example :
    Reached links runtime context kit json_options "http://acme.test/new" "s3cret" sent_request "{}"
      "uuu" acme_world setup_run.1 setup_shown after_event after_batch
      (surroundings 6 (replied 204))
unfolding insert_event insert_batch insert_delivery subscribers quick_setup ◌>>=◌ create_endpoint
    run insert_endpoint create_subscription query endpoint_exists insert_subscription
quick_setup-Reached_example =
    quick_setup-Reached links runtime context kit json_options "http://acme.test/new" "s3cret"
      sent_request "{}" "uuu" acme_world setup_run.1 setup_shown after_event after_batch
      (surroundings 6 (replied 204)) (λ e. cc e) refl sent-IsAcceptable refl refl refl refl
      (λ r. refl)
