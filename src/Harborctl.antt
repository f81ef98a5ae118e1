-- ===== src/Harborctl.antt =====
-- cmd/harborctl/cmd/root.go: the settings of the command-line client, its HTTP requests, and the parsers
-- of flags. The commands stand in the modules below; they act on a service through `Remote`.
pub mod Json
pub mod Lines
pub mod Settings
pub mod ConfigFile
pub mod Output
pub mod Commands
pub mod Quick
pub mod Gateway
pub mod Traffic
use Prim.Native.String.{◌++◌}
use harbor_hook.Common.{
  ℕ, ◌^◌, String, Bool, not, List, [], ◌∷◌, Option, none, some, ◌==◌, ltb, if◌then◌else◌, Result,
  ok, err, wrap,
}
use harbor_hook.Common.Exec.{Exec, pure, raise, ◌>>=◌}
use harbor_hook.Common.Int.{ℤ, pos, negsuc}
use harbor_hook.Encoding.Decimal.{parse_int}
use harbor_hook.Http.{Headers, set_header}
use harbor_hook.Ingest.{
  CreateEndpointRequest, EndpointReply, CreateSubscriptionRequest, SubscriptionReply,
  PublishEventRequest, PublishEventReply, ReplayDeliveryRequest,
}
use harbor_hook.Ingest.Attempts.{DeliveryAttempt}
use harbor_hook.Ingest.Attempts.Listing.{Timestamp, GetDeliveryStatusRequest}
use harbor_hook.Ingest.Attempts.DeadLetters.{ListDlqRequest}
use harbor_hook.Harborctl.Json.{Fields}
use harbor_hook.Harborctl.Settings.{Options}

pub record HttpRequest : Type 0 where
  pub method : String
  pub url : String
  pub body : Option Fields
  pub headers : Headers

-- The document is what json.Decoder makes of the body.
pub record HttpResponse : Type 0 where
  pub status_code : ℕ
  pub status : String
  pub document : Result Fields

-- A service on the state `S`: the dial of getClient, the methods of WebhookServiceClient, and
-- http.Client.Do.
pub record Remote (S : Type 0) : Type 0 where
  pub dial : Exec S (Unit {0})
  pub call_ping : Exec S String
  pub call_create_endpoint : CreateEndpointRequest → Exec S EndpointReply
  pub call_create_subscription : CreateSubscriptionRequest → Exec S SubscriptionReply
  pub call_publish_event : PublishEventRequest → Exec S PublishEventReply
  pub call_get_delivery_status : GetDeliveryStatusRequest → Exec S (List DeliveryAttempt)
  pub call_replay_delivery : ReplayDeliveryRequest → Exec S DeliveryAttempt
  pub call_list_dlq : ListDlqRequest → Exec S (List DeliveryAttempt)
  pub send : HttpRequest → Exec S HttpResponse

-- The error of json.Marshal or of http.NewRequest if there is one, json.Unmarshal with
-- structpb.NewStruct (the JSON text of the struct), time.Parse of RFC 3339, url.Values.Encode, and
-- Format of a time.
pub record Kit : Type 0 where
  pub marshal_error : Fields → Option String
  pub new_request_error : String → Option String
  pub unmarshal : String → Result String
  pub parse_time : String → Result Timestamp
  pub encode_values : List (String × String) → String
  pub format_time : ℕ → String

abbrev checked {ℓ} : {A : Type ℓ} → Option String → String → A → Result A
checked none label a = ok a
checked (some e) label a = err (label ++ e)

abbrev marshalled : Kit → Option Fields → Result (Option Fields)
marshalled k none = ok none
marshalled k (some body) = checked (k.marshal_error body) "failed to marshal body: " (some body)

abbrev json_type : Option Fields → Headers → Headers
json_type none h = h
json_type (some body) h = set_header "Content-Type" "application/json" h

abbrev authorization : String → Headers → Headers
authorization token h = if token == "" then h else set_header "Authorization" ("Bearer " ++ token) h

abbrev pub request_for : Options → String → String → Option Fields → HttpRequest
request_for g method path body = record {
  method = method;
  url = "https://" ++ g.server_addr ++ path;
  body = body;
  headers = authorization g.jwt_token (json_type body []);
}

abbrev created : Kit → Options → String → String → Result (Option Fields) → Result HttpRequest
created k g method path (err e) = err e
created k g method path (ok body) =
    let req = request_for g method path body in
    checked (k.new_request_error req.url) "failed to create request: " req

-- the request of makeHTTPRequest, or why there is none
unfoldable pub build_request : Kit → Options → String → String → Option Fields → Result HttpRequest
build_request k g method path body = created k g method path (marshalled k body)

-- a result that is at hand
abbrev pub given {ℓ} : {S A : Type ℓ} → Result A → Exec S A
given (ok a) s = (ok a, s)
given (err e) s = (err e, s)

-- an error that the caller looks at or drops
abbrev pub caught : {S A : Type 0} → Exec S A → Exec S (Result A)
caught m s = let (a, s') = m s in (ok a, s')

module _ {S : Type 0} where
  -- fmt.Errorf("label: %w", err)
  unfoldable pub explained : {A : Type 0} → String → Exec S A → Exec S A
  explained label m s = let (r, s') = m s in (wrap label r, s')

  -- makeHTTPRequest
  unfoldable pub make_http_request :
      Remote S → Kit → Options → String → String → Option Fields → Exec S HttpResponse
  unfolding build_request
  make_http_request r k g method path body = do
    req ← given (build_request k g method path body)
    r.send req

  -- getClient, with the label that its callers put before its own
  abbrev pub get_client : Remote S → Exec S (Unit {0})
  get_client r = explained "failed to connect: " (explained "failed to connect: " r.dial)

-- parseJSON
unfoldable pub parse_json : Kit → String → Result String
parse_json k json = wrap "failed to parse JSON: " (k.unmarshal json)

abbrev present : Result Timestamp → Result (Option Timestamp)
present (ok t) = ok (some t)
present (err e) = err ("failed to parse timestamp (expected RFC3339 format): " ++ e)

-- parseTimestamp
unfoldable pub parse_timestamp : Kit → String → Result (Option Timestamp)
parse_timestamp k s = if s == "" then ok none else present (k.parse_time s)

-- the range of strconv.ParseInt(s, 10, 32)
abbrev narrow : Result ℤ → Result ℤ
narrow (ok (pos n)) = if ltb n (2 ^ 31) then ok (pos n) else err "value out of range"
narrow (ok (negsuc n)) = if ltb n (2 ^ 31) then ok (negsuc n) else err "value out of range"
narrow (err e) = err e

-- parseInt32
unfoldable pub parse_int32 : String → Result ℤ
unfolding parse_int
parse_int32 s = if s == "" then ok (pos 0) else narrow (parse_int s)
