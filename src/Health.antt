-- ===== src/Health.antt =====
-- internal/health/health.go on an http.ResponseWriter: the headers that are sent are those that are set when
-- the status is written, and the content type that net/http detects in the body if they have none.
use harbor_hook.Common.{
  ℕ, String, Bool, true, false, Option, none, some, Result, ok, err, ◌≡◌, refl, [], if◌then◌else◌,
  eq_refl,
}
use harbor_hook.Encoding.Words.{to_lower}
use harbor_hook.Http.{Headers, has_header, set_header, get_header, get_header-same}

pub record HealthStatus : Type 0 where
  pub ok : Bool
  pub message : String
  pub database : Bool

-- The headers so far, the status with the headers that were sent with it, and the document of the body.
pub record ResponseWriter : Type 0 where
  pub header : Headers
  pub sent : Option (ℕ × Headers)
  pub body : Option HealthStatus

abbrev pub new_writer : ResponseWriter
new_writer = record { header = []; sent = none; body = none }

abbrev once : Option (ℕ × Headers) → ℕ → Headers → Option (ℕ × Headers)
once none code h = some (code, h)
once (some s) code h = some s

-- w.WriteHeader: only the first one counts
abbrev pub write_header : ℕ → ResponseWriter → ResponseWriter
write_header code w = record w { sent = once w.sent code w.header }

-- w.Header().Set
abbrev pub set : String → String → ResponseWriter → ResponseWriter
set name value w = record w { header = set_header name value w.header }

-- the headers with the type of the body, if they have no content type
abbrev pub typed : String → Headers → Headers
typed detected h = if has_header "Content-Type" h then h else set_header "Content-Type" detected h

abbrev typed_sent : String → Option (ℕ × Headers) → Option (ℕ × Headers)
typed_sent detected none = none
typed_sent detected (some (code, h)) = some (code, typed detected h)

-- json.NewEncoder(w).Encode(st): the first Write writes the status 200 if none was written, and adds to the
-- headers the content type that http.DetectContentType gives of the body, if they have none
abbrev pub encode : (HealthStatus → String) → HealthStatus → ResponseWriter → ResponseWriter
encode detect st w = record w {
  sent = typed_sent (detect st) (write_header 200 w).sent;
  body = some st;
}

-- the status and the writer behind the ping; there is no ping without a pool
abbrev pub pinged : Option (Result (Unit {0})) → ResponseWriter → HealthStatus × ResponseWriter
pinged (some (err e)) w =
    (record { ok = false; message = "db ping failed"; database = false }, write_header 503 w)
pinged _ w = (record { ok = true; message = "ok"; database = true }, w)

-- HTTPHandler, with the content type that is detected in a document, and the result of the ping of the pool,
-- if there is a pool
unfoldable pub http_handler :
    (HealthStatus → String) → Option (Result (Unit {0})) → ResponseWriter → ResponseWriter
http_handler detect ping w =
    let (st, w') = pinged ping w in encode detect st (set "Content-Type" "application/json" w')

-- what was sent
abbrev pub Sent : ResponseWriter → ℕ → Bool → String → Type 0
Sent w code healthy content_type =
    (h : Headers) × (st : HealthStatus) × (w.sent ≡ some (code, h))
    × (w.body ≡ some st)
    × (st.ok ≡ healthy)
    × (st.database ≡ healthy)
    × (get_header "Content-Type" h ≡ content_type)

abbrev pub is_healthy : Option (Result (Unit {0})) → Bool
is_healthy (some (err e)) = false
is_healthy _ = true

abbrev pub unhealthy : HealthStatus
unhealthy = record { ok = false; message = "db ping failed"; database = false }

set_header-has :
    (name value : String) (h : Headers) → has_header name (set_header name value h) ≡ true
set_header-has name value h = rw (eq_refl (to_lower name)) refl

healthy_Sent :
    (detect : HealthStatus → String) (w : ResponseWriter)
    → w.sent ≡ none
    → Sent (http_handler detect none w) 200 true "application/json"
unfolding http_handler
healthy_Sent detect w fresh = (
  set_header "Content-Type" "application/json" w.header,
  record { ok = true; message = "ok"; database = true },
  rw (fresh, set_header-has "Content-Type" "application/json" w.header) refl,
  refl,
  refl,
  refl,
  get_header-same "Content-Type" "application/json" w.header,
)

-- The health handler on a writer with nothing sent: where the ping fails it sends the status 503 and
-- a document that is neither ok nor has a database, and the content type is that of the headers from
-- before, if they had one, and otherwise what net/http detects in the document, since the handler
-- sets it only when the status is sent; where there is no pool or the ping succeeds it sends 200,
-- the opposite document, and application/json.
pub http_handler-Sent :
    (detect : HealthStatus → String) (ping : Option (Result (Unit {0}))) (w : ResponseWriter)
    → w.sent ≡ none
    → Sent (http_handler detect ping w) (if is_healthy ping then 200 else 503) (is_healthy ping) (
        if is_healthy ping
        then "application/json"
        else get_header "Content-Type" (typed (detect unhealthy) w.header))
unfolding http_handler
http_handler-Sent detect none w fresh = healthy_Sent detect w fresh
http_handler-Sent detect (some (ok u)) w fresh = healthy_Sent detect w fresh
http_handler-Sent detect (some (err e)) w fresh =
    (typed (detect unhealthy) w.header, unhealthy, rw fresh refl, refl, refl, refl, refl)
