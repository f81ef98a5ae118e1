-- ===== src/Worker.antt =====
-- cmd/worker/main.go: the message handler, with errString, computeDelay and classifyReason. Logging and
-- tracing calls are left out, except for the trace id that is sent as a header.
pub mod Backoff
pub mod Reason
pub mod Statements
pub mod Handler
pub mod Tracking
pub mod Letters
pub mod Outcomes
pub mod Verdicts
pub mod Unsigned
pub mod Answers
pub mod Lives
pub mod Isolation
use harbor_hook.Common.{ℕ, String, Option, none, some, List, Bool, true, false, ◌&&◌, leb, ltb}
use harbor_hook.Delivery.{Task}
use harbor_hook.Worker.Backoff.{Floats}

-- the fields of config.Worker and config.NSQ that the handler reads; `max_attempts` is not negative
pub record Settings (F : Type 0) : Type 0 where
  pub max_attempts : ℕ
  pub backoff_schedule : List ℕ
  pub jitter_percent : F
  pub publish_dlq : Bool
  pub timestamp_header : String
  pub signature_header : String

-- the HTTP request to an endpoint
pub record Request : Type 0 where
  pub url : String
  pub body : String
  pub headers : List (String × String)

-- httpClient.Do: an error's text, or the status code of the response
pub data Answer : Type 0 where
  failed : String → Answer
  replied : ℕ → Answer

-- What the handling of one message takes from outside: the clocks, the HMAC in bytes for a key and a
-- text, whether http.NewRequestWithContext makes a request for a URL, which it parses, the HTTP client, how long its call takes in milliseconds, the random draw of the jitter.
pub record Surroundings (F : Type 0) : Type 0 where
  pub settings : Settings F
  pub floats : Floats F
  pub now : ℕ
  pub unix : ℕ
  pub stamp : String
  pub trace_id : String
  pub hmac_sha256 : String → String → List ℕ
  pub takes_url : String → Bool
  pub send : Request → Answer
  pub latency : ℕ
  pub draw : F

-- What becomes of the message: Finish; Requeue with a delay, behind a new m.Body; or a panic, on which the
-- deferred function finishes the message and the process ends.
pub data Response : Type 0 where
  finished : Response
  requeued : ℕ → Task → Response
  panicked : Response

-- `status`, which is 0 if there is no response
abbrev pub status_of : Answer → ℕ
status_of (failed e) = 0
status_of (replied s) = s

-- errString
abbrev pub err_string : Answer → String
err_string (failed e) = e
err_string (replied s) = ""

-- doErr == nil && status >= 200 && status < 300
abbrev pub succeeded : Answer → Bool
succeeded (failed e) = false
succeeded (replied s) = leb 200 s && ltb s 300
