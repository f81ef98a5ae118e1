-- ===== src/Worker/Statements.antt =====
-- The UPDATE statements of the message handler of cmd/worker/main.go: what each sets in its row. The
-- statement of a status also passes the trigger.
use harbor_hook.Common.{ℕ, ◌+◌, String, none, some}
use harbor_hook.Store.{Status, Delivery, Statement}
use harbor_hook.Store.Updates.{update_delivery}

abbrev pub inflight_row : ℕ → Delivery → Delivery
inflight_row now d = record d { status = Status.inflight; dequeued_at = some now; updated_at = now }

abbrev pub secretless_row : ℕ → Delivery → Delivery
secretless_row now d = record d {
  status = Status.failed;
  attempt = d.attempt + 1;
  failed_at = some now;
  updated_at = now;
  last_error = some "endpoint_secret_missing";
}

abbrev pub sent_row : ℕ → Delivery → Delivery
sent_row now d = record d { sent_at = some now; updated_at = now }

abbrev pub delivered_row : ℕ → ℕ → ℕ → Delivery → Delivery
delivered_row now status latency d = record d {
  status = Status.delivered;
  delivered_at = some now;
  attempt = d.attempt + 1;
  http_status = some status;
  latency_ms = some latency;
  updated_at = now;
  last_error = none;
}

abbrev pub failed_row : ℕ → ℕ → ℕ → String → Delivery → Delivery
failed_row now status latency e d = record d {
  status = Status.failed;
  failed_at = some now;
  attempt = d.attempt + 1;
  http_status = some status;
  latency_ms = some latency;
  updated_at = now;
  last_error = some e;
}

abbrev pub dead_row : Delivery → Delivery
dead_row d = record d { status = Status.dead }

-- pool.Exec of one of these
abbrev pub set_row : ℕ → String → (Delivery → Delivery) → Statement (Unit {0})
set_row now id set = update_delivery now id set
