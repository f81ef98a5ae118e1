-- ===== src/Harborctl/Traffic/Endpoints.antt =====
-- getJWTToken and setupTrafficEndpoints of cmd/harborctl/cmd/traffic.go.
use Prim.Native.String.{◌++◌}
use harbor_hook.Common.{
  String, [], ◌&&◌, ◌==◌, eqb, Option, none, some, Result, ok, err, if◌then◌else◌,
}
use harbor_hook.Common.Exec.{Exec, pure, raise, branch, ◌>>=◌, ◌>>◌}
use harbor_hook.Encoding.Decimal.{decimal}
use harbor_hook.Http.{set_header}
use harbor_hook.Harborctl.{HttpRequest, Remote, Kit, given, explained, make_http_request}
use harbor_hook.Harborctl.Json.{Json, Fields, end, field, str, value_of, as_object, as_string}
use harbor_hook.Harborctl.Settings.{Options}
use harbor_hook.Harborctl.Traffic.{TrafficConfig, Rates}

abbrev token_request : String → String → HttpRequest
token_request jwks_host tenant_id = record {
  method = "POST";
  url = "http://" ++ jwks_host ++ "/token";
  body = some (field "tenant_id" (str tenant_id) end);
  headers = set_header "Content-Type" "application/json" [];
}

-- tokenResp.Token, which must be there as a string that is not empty
abbrev token_in : Option Json → Result String
token_in none = err "received empty token"
token_in (some (str token)) = if token == "" then err "received empty token" else ok token
token_in (some _) = err "failed to parse token response: token is no string"

abbrev token_of : Result Fields → Result String
token_of (err e) = err ("failed to parse token response: " ++ e)
token_of (ok fs) = token_in (value_of "token" fs)

abbrev created : Option String → Result (Unit {0})
created none = ok tt
created (some e) = err ("failed to create token request: " ++ e)

-- result[group]["id"], or why there is none
abbrev id_in : String → String → Option Fields → Result String
id_in format missing none = err format
id_in format missing (some group) = elim (as_string (value_of "id" group)) [
  | none ↦ err missing
  | some id ↦ ok id
]

abbrev id_of : String → String → String → String → Result Fields → Result String
id_of group decode format missing (err e) = err (decode ++ e)
id_of group decode format missing (ok fs) = id_in format missing (as_object (value_of group fs))

pub record TrafficIds : Type 0 where
  pub endpoint_id : String
  pub subscription_id : String
  pub bad_endpoint_id : String
  pub bad_subscription_id : String

module _ {S : Type 0} (r : Remote S) (k : Kit) where
  -- getJWTToken
  unfoldable pub get_jwt_token : String → String → Exec S String
  unfolding explained value_of
  get_jwt_token jwks_host tenant_id = do
    let req = token_request jwks_host tenant_id
    given (created (k.new_request_error req.url))
    resp ← explained ("failed to get token from " ++ jwks_host ++ ": ") (r.send req)
    branch (eqb resp.status_code 200) (given (token_of resp.document))
        (raise ("token request failed with status " ++ decimal resp.status_code))

module _ {S F : Type 0} (r : Remote S) (k : Kit) (g : Options) (config : TrafficConfig F) where
  -- one POST of the set-up, and the identifier in its answer
  unfoldable pub post_for_id :
      String → String → String → String → String → String → String → Fields → Exec S String
  unfolding make_http_request explained value_of
  post_for_id path failed error group decode format missing body = do
    resp ←
        explained failed
          (make_http_request r k g "POST" ("/v1/tenants/" ++ config.tenant_id ++ path) (some body))
    branch (eqb resp.status_code 200) (given (id_of group decode format missing resp.document))
        (raise (error ++ resp.status))

  abbrev endpoint_fields : String → Fields
  endpoint_fields url = field "url" (str url) (field "secret" (str "demo_secret") end)

  abbrev subscription_fields : String → String → Fields
  subscription_fields endpoint_id event_type =
      field "endpointId" (str endpoint_id) (field "eventType" (str event_type) end)

  -- the endpoint that fails, with its subscription
  unfoldable pub setup_bad : Exec S (String × String)
  unfolding post_for_id
  setup_bad = do
    endpoint ←
        post_for_id "/endpoints" "bad endpoint HTTP request failed: " "bad endpoint HTTP error: "
          "endpoint" "failed to decode bad endpoint response: "
          "invalid bad endpoint response format" "bad endpoint ID not found in response"
          (endpoint_fields "http://fake-receiver:8081/fail")
    subscription ←
        post_for_id "/subscriptions" "bad subscription HTTP request failed: "
          "bad subscription HTTP error: " "subscription"
          "failed to decode bad subscription response: " "invalid bad subscription response format"
          "bad subscription ID not found in response"
          (subscription_fields endpoint (config.event_type ++ ".fail"))
    pure (endpoint, subscription)

  -- setupTrafficEndpoints, under the token and the mode of HTTP that `g` has
  unfoldable pub setup_traffic_endpoints : Rates F → Exec S TrafficIds
  unfolding post_for_id setup_bad
  setup_traffic_endpoints rates = do
    endpoint ←
        post_for_id "/endpoints" "HTTP request failed: " "HTTP error: " "endpoint"
          "failed to decode endpoint response: " "invalid endpoint response format"
          "endpoint ID not found in response" (endpoint_fields config.webhook_url)
    subscription ←
        post_for_id "/subscriptions" "HTTP request failed: " "HTTP error: " "subscription"
          "failed to decode subscription response: " "invalid subscription response format"
          "subscription ID not found in response" (subscription_fields endpoint config.event_type)
    bad ←
        branch (config.mode == "good" && rates.is_positive config.failure_rate) setup_bad
          (pure ("", ""))
    pure (record {
      endpoint_id = endpoint;
      subscription_id = subscription;
      bad_endpoint_id = bad.0;
      bad_subscription_id = bad.1;
    })
