-- ===== src/Worker/Handler.antt =====
-- The handler of the deliveries topic in cmd/worker/main.go.
use harbor_hook.Common.{
  ℕ, String, Option, none, some, [], ◌==◌, leb, ltb, Result, ok, err, if◌then◌else◌,
}
use Prim.Native.String.{◌++◌ as ◌^◌}
use harbor_hook.Common.Exec.{Exec, pure, branch, ◌>>=◌}
use harbor_hook.Encoding.Decimal.{decimal}
use harbor_hook.Encoding.Hex.{encode}
use harbor_hook.Http.{Headers, set_header}
use harbor_hook.Store.{Delivery}
use harbor_hook.Store.Inserts.{insert_dlq}
use harbor_hook.Store.Updates.{update_delivery}
use harbor_hook.Store.Queries.{endpoint_secret, delivery_attempt}
use harbor_hook.Delivery.{Task, new_dead_letter}
use harbor_hook.Metrics.{record_delivery, record_http_delivery, record_retry, record_dlq}
use harbor_hook.World.{World, run, query, publish_dead, observe, attempted}
use harbor_hook.Worker.{
  Request, Answer, Surroundings, Response, finished, requeued, panicked, status_of, err_string,
  succeeded,
}
use harbor_hook.Worker.Backoff.{compute_delay}
use harbor_hook.Worker.Reason.{classify_reason}
use harbor_hook.Worker.Statements.{
  inflight_row, secretless_row, sent_row, delivered_row, failed_row, dead_row,
}

-- QueryRow(…).Scan: no row is an error
abbrev pub scanned {ℓ} : {A : Type ℓ} → Option A → Result A
scanned none = err "no rows in result set"
scanned (some a) = ok a

-- err != nil || !secret.Valid || secret.String == "" excluded
abbrev pub usable : Result (Option String) → Option String
usable (err e) = none
usable (ok none) = none
usable (ok (some s)) = if s == "" then none else some s

-- X-Trace-Id, if there is a trace
abbrev pub set_trace : String → Headers → Headers
set_trace id headers = if id == "" then headers else set_header "X-Trace-Id" id headers

-- newAttempt, which is MaxAttempts if it could not be read
abbrev pub attempt_or : ℕ → Result ℕ → ℕ
attempt_or max (ok n) = n
attempt_or max (err e) = max

-- RecordHTTPDelivery, if there is a response
abbrev record_response : String → String → Answer → ℕ → Exec World (Unit {0})
record_response tenant endpoint a latency =
    branch (ltb 0 (status_of a))
      (observe (record_http_delivery tenant endpoint (status_of a) latency)) (pure tt)

abbrev requeue_or_panic : Task → ℕ → Option ℕ → Response
requeue_or_panic t n none = panicked
requeue_or_panic t n (some delay) = requeued delay (record t { attempt = n })

module _ {F : Type 0} (s : Surroundings F) where
  -- the request with its headers
  abbrev pub signed_request : Task → String → Request
  signed_request t secret =
      let ts = decimal s.unix in
      record {
        url = t.endpoint_url;
        body = t.payload;
        headers = set_trace s.trace_id (
            set_header s.settings.signature_header
              ("sha256=" ^ encode (s.hmac_sha256 secret (t.payload ^ ts)))
              (set_header s.settings.timestamp_header ts
                (set_header "Content-Type" "application/json" [])));
      }

  -- The request of http.NewRequestWithContext with the headers of the signature, none where it makes no
  -- request of the URL.
  unfoldable pub sign_request : Task → String → Option Request
  sign_request t secret =
      if s.takes_url t.endpoint_url then some (signed_request t secret) else none

  -- pool.Exec of an UPDATE, whose error is at most logged
  abbrev pub update : Task → (Delivery → Delivery) → Exec World (Result (Unit {0}))
  update t set = attempted (run (update_delivery s.now t.delivery_id set))

  unfoldable pub without_secret : Task → Exec World Response
  without_secret t = do
    _ ← update t (secretless_row s.now)
    _ ← observe (record_delivery "failed" t.tenant_id t.endpoint_id 0)
    pure finished

  unfoldable pub on_success : Task → Answer → Exec World Response
  on_success t a = do
    _ ← update t (delivered_row s.now (status_of a) s.latency)
    _ ← observe (record_delivery "delivered" t.tenant_id t.endpoint_id s.latency)
    _ ← observe (record_http_delivery t.tenant_id t.endpoint_id (status_of a) s.latency)
    pure finished

  -- the texts of fmt.Sprintf
  abbrev pub dlq_reason : ℕ → Answer → String
  dlq_reason n a =
      "max attempts reached ("
      ^ decimal n
      ^ "), last status="
      ^ decimal (status_of a)
      ^ ", err="
      ^ err_string a

  abbrev pub envelope_reason : ℕ → String
  envelope_reason n = "max attempts reached (" ^ decimal n ^ ")"

  unfoldable pub dead_letter : Task → Answer → ℕ → Exec World Response
  unfolding new_dead_letter
  dead_letter t a n = do
    _ ← attempted (run (insert_dlq s.now t.delivery_id (dlq_reason n a)))
    _ ← update t dead_row
    _ ←
        branch s.settings.publish_dlq
          (attempted (
            publish_dead
              (new_dead_letter s.stamp t n (status_of a) (err_string a) (envelope_reason n))))
          (pure (ok tt))
    _ ← observe (record_dlq (classify_reason a))
    pure finished

  unfoldable pub requeue : Task → ℕ → Exec World Response
  unfolding compute_delay
  requeue t n = pure (
      requeue_or_panic t n
        (compute_delay s.floats s.draw n s.settings.backoff_schedule s.settings.jitter_percent))

  unfoldable pub after_failure : Task → Answer → ℕ → Exec World Response
  unfolding dead_letter requeue classify_reason
  after_failure t a n = do
    _ ← observe (record_retry (classify_reason a))
    _ ← observe (record_delivery "failed" t.tenant_id t.endpoint_id s.latency)
    _ ← record_response t.tenant_id t.endpoint_id a s.latency
    branch (leb s.settings.max_attempts n) (dead_letter t a n) (requeue t n)

  unfoldable pub on_failure : Task → Answer → Exec World Response
  unfolding after_failure
  on_failure t a = do
    _ ← update t (failed_row s.now (status_of a) s.latency (err_string a))
    read ← attempted (query λ db. scanned (delivery_attempt t.delivery_id db))
    after_failure t a (attempt_or s.settings.max_attempts read)

  -- sent_at, the HTTP call, and its result; without a request, the panic at its first header
  -- Setting a header of a request that is nil panics.
  unfoldable pub send_request : Task → Option Request → Exec World Response
  unfolding on_success on_failure
  send_request t none = pure panicked
  send_request t (some r) = do
    _ ← update t (sent_row s.now)
    branch (succeeded (s.send r)) (on_success t (s.send r)) (on_failure t (s.send r))

  -- from the signing on
  unfoldable pub deliver : Task → String → Exec World Response
  unfolding sign_request send_request
  deliver t secret = send_request t (sign_request t secret)

  abbrev pub with_secret : Task → Option String → Exec World Response
  with_secret t none = without_secret t
  with_secret t (some secret) = deliver t secret

  unfoldable pub handle_task : Task → Exec World Response
  unfolding without_secret deliver
  handle_task t = do
    _ ← update t (inflight_row s.now)
    found ← attempted (query λ db. scanned (endpoint_secret t.endpoint_id db))
    with_secret t (usable found)

  unfoldable pub bad_payload : Exec World Response
  bad_payload = do _ ← observe (record_delivery "failed" "unknown" "unknown" 0); pure finished

  -- the handler; the argument is the decoded body
  unfoldable pub handle : Result Task → Exec World Response
  unfolding handle_task bad_payload
  handle (err e) = bad_payload
  handle (ok t) = handle_task t
