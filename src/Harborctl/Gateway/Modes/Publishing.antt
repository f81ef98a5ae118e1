-- ===== src/Harborctl/Gateway/Modes/Publishing.antt =====
-- event publish of cmd/harborctl/cmd, over gRPC and through the gateway.
use harbor_hook.Common.{String}
use harbor_hook.World.{World}
use harbor_hook.Harborctl.Json.{Fields, end, field, str, document, optional}

abbrev pub event_body : String → String → String → Fields
event_body event_type payload key =
    field "eventType" (str event_type)
      (field "payload" (document payload) (optional "idempotencyKey" key end))
