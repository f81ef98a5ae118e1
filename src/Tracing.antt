-- ===== src/Tracing.antt =====
-- internal/tracing/tracing.go: what it reads from the environment, and the headers of a task. The propagator
-- is a parameter.
use Prim.Native.String.{len, slice}
use text.Mathlib.Text.{starts_with}
use harbor_hook.Common.{String, List, [], ◌==◌, if◌then◌else◌}
use harbor_hook.Config.{Environment}

-- getVersion
unfoldable pub get_version : Environment → String
get_version env = if env "SERVICE_VERSION" == "" then "dev" else env "SERVICE_VERSION"

-- getInstanceID
unfoldable pub get_instance_id : Environment → String
get_instance_id env =
    if env "HOSTNAME" == ""
    then (if env "POD_NAME" == "" then "unknown" else env "POD_NAME")
    else env "HOSTNAME"

-- strings.TrimPrefix
abbrev pub trim_prefix : String → String → String
trim_prefix s p = if starts_with s p then slice s (len p) (len s) else s

-- getOTLPEndpoint
unfoldable pub get_otlp_endpoint : Environment → String
get_otlp_endpoint env =
    let endpoint = env "OTEL_EXPORTER_OTLP_ENDPOINT" in
    if endpoint == ""
    then "tempo:4318"
    else if starts_with endpoint "http://"
    then trim_prefix endpoint "http://"
    else if starts_with endpoint "https://"
    then trim_prefix endpoint "https://"
    else endpoint

-- otel.GetTextMapPropagator() on contexts `X` and carriers of headers
pub record Propagator (X : Type 0) : Type 0 where
  pub inject : X → List (String × String) → List (String × String)
  pub extract : X → List (String × String) → X

module _ {X : Type 0} (p : Propagator X) where
  -- PropagateTraceToNSQ
  unfoldable pub propagate_trace_to_nsq : X → List (String × String)
  propagate_trace_to_nsq ctx = p.inject ctx []

  -- ExtractTraceFromNSQ
  unfoldable pub extract_trace_from_nsq : X → List (String × String) → X
  extract_trace_from_nsq ctx headers = p.extract ctx headers
