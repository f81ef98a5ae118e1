-- ===== src/Worker/Reason.antt =====
-- classifyReason of cmd/worker/main.go.
pub mod Labels
use harbor_hook.Common.{ℕ, String, ◌||◌, leb, eqb, if◌then◌else◌}
use harbor_hook.Encoding.Words.{to_lower, contains}
use harbor_hook.Worker.{Answer, failed, replied}

abbrev pub reason_of_error : String → String
reason_of_error e =
    if contains e "timeout"
    then "timeout"
    else if contains e "connection refused"
    then "connection_refused"
    else if contains e "no such host" || contains e "dns"
    then "dns_error"
    else "network"

abbrev pub reason_of_status : ℕ → String
reason_of_status s =
    if leb 500 s
    then "http_5xx"
    else if eqb s 429
    then "http_429"
    else if leb 400 s
    then "http_4xx"
    else "other"

-- classifyReason
unfoldable pub classify_reason : Answer → String
unfolding to_lower contains
classify_reason (failed e) = reason_of_error (to_lower e)
classify_reason (replied s) = reason_of_status s
