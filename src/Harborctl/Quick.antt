-- ===== src/Harborctl/Quick.antt =====
-- The commands quick setup and quick test of cmd/harborctl/cmd/quick.go. The lines of progress are those of
-- a run that succeeds.
pub mod Subscribed
pub mod Tables
use Prim.Native.String.{◌++◌}
use harbor_hook.Common.{
  ℕ, ◌+◌, String, List, [], ◌∷◌, Bool, true, false, ◌==◌, eqb, ltb, some, none, Result, wrap,
  if◌then◌else◌,
}
use harbor_hook.Common.Exec.{Exec, pure, branch, ◌>>=◌, ◌>>◌}
use harbor_hook.Common.Int.{pos}
use harbor_hook.Encoding.Decimal.{decimal}
use harbor_hook.Ingest.{EndpointReply, SubscriptionReply}
use harbor_hook.Ingest.Attempts.{AttemptStatus, DeliveryAttempt}
use harbor_hook.Harborctl.{Remote, Kit, given, explained, get_client, parse_json}
use harbor_hook.Harborctl.Settings.{Options}
use harbor_hook.Harborctl.Output.{Output, lines, shows_message, setup, tested}
use harbor_hook.Harborctl.Lines.{reported}

-- what a command printed on its way, and its last output
pub record Shown : Type 0 where
  pub progress : List String
  pub result : Output

setup_lines : String → String → String → EndpointReply → SubscriptionReply → List String
setup_lines tenant_id url event_type e s =
    ""
    ∷ "🎉 Setup complete!"
    ∷ ("  Tenant: " ++ tenant_id)
    ∷ ("  Endpoint: " ++ e.id ++ " (" ++ url ++ ")")
    ∷ ("  Subscription: " ++ s.id ++ " (" ++ event_type ++ ")")
    ∷ ""
    ∷ "You can now publish events with:"
    ∷ ("  harborctl event publish " ++ tenant_id ++ " " ++ event_type ++ " '{\"key\":\"value\"}'")
    ∷ []

-- the switch over the status of an attempt
abbrev status_label : AttemptStatus → String
status_label AttemptStatus.queued = "⏳ Queued"
status_label AttemptStatus.in_flight = "🚀 In Flight"
status_label AttemptStatus.delivered = "✅ Delivered"
status_label AttemptStatus.failed = "❌ Failed"
status_label AttemptStatus.dead_lettered = "💀 Dead Letter"
status_label AttemptStatus.unspecified = "Unknown"

abbrev http_part : ℕ → String
http_part n = if ltb 0 n then " | HTTP: " ++ decimal n else ""

abbrev error_part : String → String
error_part e = if e == "" then "" else " | Error: " ++ e

attempt_line : ℕ → DeliveryAttempt → String
attempt_line i a =
    "  "
    ++ decimal i
    ++ ". "
    ++ status_label a.status
    ++ " | Endpoint: "
    ++ a.endpoint_id
    ++ http_part a.http_status
    ++ error_part a.error_reason

attempt_lines : ℕ → List DeliveryAttempt → List String
unfolding attempt_line
attempt_lines i [] = []
attempt_lines i (a ∷ more) = attempt_line i a ∷ attempt_lines (i + 1) more

abbrev delivery_lines : List DeliveryAttempt → List String
delivery_lines [] = "" ∷ "📊 Delivery Status:" ∷ "  No delivery attempts found yet" ∷ []
delivery_lines (a ∷ more) = "" ∷ "📊 Delivery Status:" ∷ attempt_lines 1 (a ∷ more)

abbrev pub test_payload : String
test_payload =
    "{\n\t\t\t\"test\": true,\n\t\t\t\"source\": \"harborctl-quick-test\",\n\t\t\t\"message\": \"This is a test event from harborctl\"\n\t\t}"

-- the lines that announce the wait, behind others
abbrev waited : List String → List String
waited [] = "Waiting for delivery..." ∷ "..." ∷ []
waited (line ∷ more) = line ∷ waited more

module _ {S : Type 0} (r : Remote S) (k : Kit) (g : Options) where
  -- quickSetupCmd
  unfoldable pub quick_setup : String → String → String → String → Exec S Shown
  unfolding explained setup_lines
  quick_setup tenant_id url event_type secret = do
    get_client r
    e ←
        explained "failed to create endpoint: "
          (r.call_create_endpoint (record { tenant_id = tenant_id; url = url; secret = secret }))
    s ← explained "failed to create subscription: " (
        r.call_create_subscription
          (record { tenant_id = tenant_id; event_type = event_type; endpoint_id = e.id }))
    pure (record {
      progress =
          ("Creating endpoint for " ++ url ++ "...")
          ∷ ("✅ Created endpoint: " ++ e.id)
          ∷ ("Creating subscription for event type " ++ event_type ++ "...")
          ∷ ("✅ Created subscription: " ++ s.id)
          ∷ [];
      result =
          if g.output_json
          then shows_message (setup e s)
          else lines (setup_lines tenant_id url event_type e s);
    })

  -- quickTestCmd
  unfoldable pub quick_test : String → String → Exec S Shown
  unfolding explained parse_json attempt_lines
  quick_test tenant_id event_type = do
    payload ← given (wrap "failed to create test payload: " (parse_json k test_payload))
    get_client r
    p ← explained "failed to publish event: " (
        r.call_publish_event (record {
          tenant_id = tenant_id;
          event_type = event_type;
          payload = some payload;
          idempotency_key = "";
        }))
    let published =
        ("Publishing test event: " ++ event_type)
        ∷ ("✅ Published event: " ++ p.event_id ++ " (fanout: " ++ decimal p.fanout_count ++ ")")
        ∷ []
    branch (eqb p.fanout_count 0)
        (pure (record {
          progress = published;
          result = lines (("⚠  No subscriptions found for event type " ++ event_type) ∷ []);
        }))
        do
          found ← explained "failed to get delivery status: " (
              r.call_get_delivery_status (record {
                event_id = p.event_id;
                endpoint_id = "";
                from = none;
                to = none;
                limit = pos 10;
              }))
          pure (record {
            progress = waited published;
            result =
                if g.output_json
                then shows_message (tested p found)
                else lines (delivery_lines found);
          })
