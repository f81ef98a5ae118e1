-- ===== src/Harborctl/Gateway/Modes/Creating.antt =====
-- endpoint create and subscription create of cmd/harborctl/cmd, over gRPC and through the gateway.
use Prim.Native.String.{◌++◌}
use harbor_hook.Common.{ok, String, some, ◌≡◌, ◌≢◌, refl, ◌∙◌}
use harbor_hook.Common.Exec.{pure, branch, ◌>>=◌}
use harbor_hook.World.{World}
use harbor_hook.Ingest.{Context}
use harbor_hook.Ingest.Endpoints.{create_subscription}
use harbor_hook.Harborctl.{Kit, explained, request_for}
use harbor_hook.Harborctl.Json.{Fields, end, field, str, optional, value_of}
use harbor_hook.Harborctl.Settings.{Options}
use harbor_hook.Harborctl.Output.{subscription}
use harbor_hook.Harborctl.Commands.{create_subscription_command}
use harbor_hook.Harborctl.Lines.{subscription_lines, reported}
use harbor_hook.Harborctl.Gateway.{
  Runtime, Links, creates_subscription, pattern_of, forwarded, request_create_subscription, gateway,
  service,
}
use harbor_hook.Harborctl.Gateway.Modes.{
  SameRun, meeting, subscriptions_path, Reaches, http-SameRun, grpc-SameRun, sent, over_http,
  over_grpc,
}

abbrev pub endpoint_body : String → String → Fields
endpoint_body url secret = field "url" (str url) (optional "secret" secret end)

abbrev pub subscription_body : String → String → Fields
subscription_body endpoint_id event_type =
    field "endpointId" (str endpoint_id) (field "eventType" (str event_type) end)

module _ (l l' : Links) (rt : Runtime) (c : Context) (k : Kit) (g g' : Options)
    (no_error_is_ok : (e : String) → rt.error_status e ≢ 200) where
  gateway-subscription :
      (tenant endpoint_id event_type path : String) (w : World)
      → Reaches l rt k g.server_addr creates_subscription tenant
          (subscription_body endpoint_id event_type)
      → rt.route "POST" ("https://" ++ g.server_addr ++ path) ≡ some (creates_subscription, tenant)
      → gateway rt c (request_for g "POST" path (some (subscription_body endpoint_id event_type))) w
        ≡ forwarded rt subscription
            (create_subscription c
              (record { tenant_id = tenant; event_type = event_type; endpoint_id = endpoint_id }))
            w
  unfolding gateway value_of
  gateway-subscription tenant endpoint_id event_type path w h route =
      let body = subscription_body endpoint_id event_type in
      let endpoint_read : rt.read body "endpointId" ≡ endpoint_id = h.reads.1.0 in
      let event_read : rt.read body "eventType" ≡ event_type = h.reads.0 in
      rw route (
        rw (request_create_subscription, forwarded, h.decodes)
          (rw (endpoint_read, event_read) refl))

  -- subscription create
  create_subscription_command-modes :
      (tenant endpoint_id event_type : String) (w : World)
      → Reaches l rt k g.server_addr creates_subscription tenant
          (subscription_body endpoint_id event_type)
      → l'.dial ≡ ok tt
      → l'.plaintext "CreateSubscription" ≡ ok tt
      → SameRun
          (create_subscription_command
            (service rt c l)
            k
            (over_http g)
            tenant
            endpoint_id
            event_type
            w)
          (create_subscription_command
            (service rt c l')
            k
            (over_grpc g')
            tenant
            endpoint_id
            event_type
            w)
  unfolding create_subscription_command branch explained pure ◌>>=◌ pattern_of
  create_subscription_command-modes tenant endpoint_id event_type w h dial plain =
      let m =
        create_subscription c
          (record { tenant_id = tenant; event_type = event_type; endpoint_id = endpoint_id }) in
      let path = "/v1/tenants/" ++ tenant ++ "/subscriptions" in
      let body = subscription_body endpoint_id event_type in
      let (posted, way) =
        sent l rt c k (over_http g) creates_subscription tenant path body w
          (subscriptions_path tenant) refl h in
      let arrived = posted ∙ gateway-subscription tenant endpoint_id event_type path w h way in
      rw (dial, plain)
        (meeting _ _ (m w)
          (http-SameRun rt subscription m w l c k (over_http g) "POST" path (some body)
            no_error_is_ok arrived (m w) refl)
          (grpc-SameRun m w "failed to create subscription: "
            (λ s. reported (over_grpc g') (subscription s) (subscription_lines k s)) (m w) refl))
