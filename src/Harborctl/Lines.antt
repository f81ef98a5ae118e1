-- ===== src/Harborctl/Lines.antt =====
-- What the commands of cmd/harborctl/cmd print without --json (endpoint.go, subscription.go, event.go,
-- delivery.go).
use Prim.Native.String.{◌++◌}
use harbor_hook.Common.{
  ℕ, ◌+◌, String, List, [], ◌∷◌, Bool, true, false, ◌==◌, ltb, Option, none, some, if◌then◌else◌,
}
use harbor_hook.Encoding.Decimal.{decimal}
use harbor_hook.Ingest.{EndpointReply, SubscriptionReply, PublishEventReply}
use harbor_hook.Ingest.Attempts.{AttemptStatus, DeliveryAttempt}
use harbor_hook.Harborctl.{Kit}
use harbor_hook.Harborctl.Settings.{Options}
use harbor_hook.Harborctl.Output.{Message, Output, shows_message, lines}

-- printOutput(resp) with --json, and lines otherwise
abbrev pub reported : Options → Message → List String → Output
reported g m text = if g.output_json then shows_message m else lines text

abbrev pub line_if : Bool → String → List String → List String
line_if b s rest = if b then s ∷ rest else rest

abbrev pub time_line : Kit → String → Option ℕ → List String → List String
time_line k label none rest = rest
time_line k label (some t) rest = (label ++ k.format_time t) ∷ rest

abbrev pub non_empty : String → Bool
non_empty s = if s == "" then false else true

-- AttemptStatus.String
unfoldable pub status_name : AttemptStatus → String
status_name AttemptStatus.unspecified = "DELIVERY_ATTEMPT_STATUS_UNSPECIFIED"
status_name AttemptStatus.queued = "DELIVERY_ATTEMPT_STATUS_QUEUED"
status_name AttemptStatus.in_flight = "DELIVERY_ATTEMPT_STATUS_IN_FLIGHT"
status_name AttemptStatus.delivered = "DELIVERY_ATTEMPT_STATUS_DELIVERED"
status_name AttemptStatus.failed = "DELIVERY_ATTEMPT_STATUS_FAILED"
status_name AttemptStatus.dead_lettered = "DELIVERY_ATTEMPT_STATUS_DEAD_LETTERED"

unfoldable pub endpoint_lines : Kit → EndpointReply → List String
endpoint_lines k e =
    ("Created endpoint: " ++ e.id)
    ∷ ("  Tenant ID: " ++ e.tenant_id)
    ∷ ("  URL: " ++ e.url)
    ∷ ("  Created: " ++ k.format_time e.created_at)
    ∷ []

unfoldable pub subscription_lines : Kit → SubscriptionReply → List String
subscription_lines k s =
    ("Created subscription: " ++ s.id)
    ∷ ("  Tenant ID: " ++ s.tenant_id)
    ∷ ("  Endpoint ID: " ++ s.endpoint_id)
    ∷ ("  Event Type: " ++ s.event_type)
    ∷ ("  Created: " ++ k.format_time s.created_at)
    ∷ []

unfoldable pub published_lines : PublishEventReply → List String
published_lines p =
    ("Published event: " ++ p.event_id) ∷ ("  Fanout count: " ++ decimal p.fanout_count) ∷ []

unfoldable pub replayed_lines : DeliveryAttempt → List String
unfolding status_name
replayed_lines a =
    ("Replayed delivery: " ++ a.delivery_id)
    ∷ ("  Event ID: " ++ a.event_id)
    ∷ ("  Endpoint ID: " ++ a.endpoint_id)
    ∷ ("  Status: " ++ status_name a.status)
    ∷ ("  Replay of: " ++ a.replay_of)
    ∷ []

-- the lines of one attempt of the command status, in front of the later ones
unfoldable pub attempt_lines : Kit → ℕ → DeliveryAttempt → List String → List String
unfolding status_name
attempt_lines k i a rest =
    ""
    ∷ ("  Attempt " ++ decimal i ++ ":")
    ∷ ("    Delivery ID: " ++ a.delivery_id)
    ∷ ("    Endpoint ID: " ++ a.endpoint_id)
    ∷ ("    Status: " ++ status_name a.status)
    ∷ line_if (ltb 0 a.http_status) ("    HTTP Status: " ++ decimal a.http_status) (
        line_if (non_empty a.error_reason) ("    Error: " ++ a.error_reason) (
          line_if (non_empty a.replay_of) ("    Replay of: " ++ a.replay_of) (
            time_line k "    Enqueued: " a.enqueued_at (
              time_line k "    Delivered: " a.delivered_at (
                time_line k "    Failed: " a.failed_at
                  (time_line k "    Dead Lettered: " a.dlq_at rest))))))

-- the lines of one entry of the command dlq, in front of the later ones
unfoldable pub entry_lines : Kit → ℕ → DeliveryAttempt → List String → List String
unfolding status_name
entry_lines k i a rest =
    ""
    ∷ ("  Entry " ++ decimal i ++ ":")
    ∷ ("    Delivery ID: " ++ a.delivery_id)
    ∷ ("    Event ID: " ++ a.event_id)
    ∷ ("    Endpoint ID: " ++ a.endpoint_id)
    ∷ ("    Status: " ++ status_name a.status)
    ∷ line_if (ltb 0 a.http_status) ("    Last HTTP Status: " ++ decimal a.http_status) (
        line_if (non_empty a.error_reason) ("    Error: " ++ a.error_reason)
          (time_line k "    Dead Lettered: " a.dlq_at rest))

-- a loop over attempts that are numbered from `i`
abbrev pub numbered :
    (ℕ → DeliveryAttempt → List String → List String) → ℕ → List DeliveryAttempt → List String
numbered one i [] = []
numbered one i (a ∷ more) = one i a (numbered one (i + 1) more)

abbrev pub listing :
    (ℕ → DeliveryAttempt → List String → List String)
    → String
    → String
    → List DeliveryAttempt
    → List String
listing one title nothing [] = title ∷ nothing ∷ []
listing one title nothing (a ∷ more) = title ∷ numbered one 1 (a ∷ more)
