-- ===== src/Harborctl/Gateway/Modes.antt =====
-- The commands of harborctl over gRPC and with --http: both ways lead to one call of the service.
pub mod Creating
pub mod Publishing
use Prim.Native.String.{◌++◌}
use text.Mathlib.TextLemmas.{append_assoc}
use harbor_hook.Common.{
  ℕ, String, List, [], ◌∷◌, All, Bool, true, false, Option, none, some, Result, ok, err, ◌==◌, eqb,
  wrap, ◌≡◌, ◌≢◌, refl, sym, ap, ◌∙◌, arith, Bool-cases, inl, inr, eq_iff, eq_refl,
}
use harbor_hook.Common.Exec.{Exec, pure, raise, branch, ◌>>=◌}
use harbor_hook.World.{World}
use harbor_hook.Ingest.{Context}
use harbor_hook.Harborctl.{Kit, explained, make_http_request, build_request, request_for}
use harbor_hook.Harborctl.Json.{
  Json, Fields, end, field, str, document, optional, value_of, as_string,
}
use harbor_hook.Harborctl.Settings.{Options}
use harbor_hook.Ingest.{CreateEndpointRequest, CreateSubscriptionRequest, PublishEventRequest}
use harbor_hook.Ingest.Endpoints.{create_endpoint, create_subscription}
use harbor_hook.Ingest.Publish.{publish_event}
use harbor_hook.Harborctl.Output.{Message, Output, endpoint}
use harbor_hook.Harborctl.Commands.{
  http_command, create_endpoint_command, create_subscription_command, publish_command,
}
use harbor_hook.Harborctl.Lines.{endpoint_lines, reported}
use harbor_hook.Harborctl.Gateway.{
  Runtime, Links, Route, replays, creates_endpoint, creates_subscription, publishes, pattern_of,
  path_of, forwarded, request_create_endpoint, gateway, service,
}

-- The text of a field that is a string, and "" otherwise.
abbrev pub text_of : Option String → String
text_of none = ""
text_of (some s) = s

abbrev pub as_document : Option Json → Option String
as_document (some (document s)) = some s
as_document _ = none

abbrev pub is_ok : {A : Type 0} → Result A → Bool
is_ok (ok a) = true
is_ok (err e) = false

-- The same world, and success in both or in neither.
abbrev pub SameRun : {A B : Type 0} → Result A × World → Result B × World → Type 0
SameRun r s = (r.1 ≡ s.1) × (is_ok r.0 ≡ is_ok s.0)

pub meeting :
    {A B C : Type 0} (r : Result A × World) (s : Result B × World) (t : Result C × World)
    → SameRun r t
    → SameRun s t
    → SameRun r s
meeting r s t a b = (a.0 ∙ sym b.0, a.1 ∙ sym b.1)

joined : (a b ab x : String) → a ++ b ≡ ab → a ++ (b ++ x) ≡ ab ++ x
joined a b ab x e = sym (append_assoc a b x) ∙ ap (λ s. s ++ x) e

tenants_path : (x : String) → "/" ++ "v1" ++ "/" ++ "tenants" ++ "/" ++ x ≡ "/v1/tenants/" ++ x
tenants_path x =
    joined "/" "v1" "/v1" ("/" ++ "tenants" ++ "/" ++ x) refl
    ∙ joined "/v1" "/" "/v1/" ("tenants" ++ "/" ++ x) refl
    ∙ joined "/v1/" "tenants" "/v1/tenants" ("/" ++ x) refl
    ∙ joined "/v1/tenants" "/" "/v1/tenants/" x refl

pub endpoints_path :
    (t : String) → path_of (pattern_of creates_endpoint) t ≡ "/v1/tenants/" ++ t ++ "/endpoints"
unfolding pattern_of
endpoints_path t = tenants_path (t ++ "/endpoints")

pub subscriptions_path :
    (t : String)
    → path_of (pattern_of creates_subscription) t ≡ "/v1/tenants/" ++ t ++ "/subscriptions"
unfolding pattern_of
subscriptions_path t = tenants_path (t ++ "/subscriptions")

pub events_path :
    (t : String) → path_of (pattern_of publishes) t ≡ "/v1/tenants/" ++ t ++ "/events:publish"
unfolding pattern_of
events_path t = tenants_path (t ++ "/events:publish")

-- the JSON names of the strings and of the structs that the request of a route has in its body
abbrev pub string_fields : Route → List String
string_fields creates_endpoint = "url" ∷ "secret" ∷ []
string_fields creates_subscription = "eventType" ∷ "endpointId" ∷ []
string_fields publishes = "eventType" ∷ "idempotencyKey" ∷ []
string_fields replays = "reason" ∷ []
string_fields _ = []

abbrev pub struct_fields : Route → List String
struct_fields publishes = "payload" ∷ []
struct_fields _ = []

-- A body that is encoded, decoded, and read by the JSON names of its fields, sent to a URL that is reached
-- and that the mux gives to the route with the value.
pub record Reaches (l : Links) (rt : Runtime) (k : Kit) (server : String) (route : Route)
    (value : String) (body : Fields) : Type 0 where
  pub reads :
      All (λ key. rt.read body key ≡ text_of (as_string (value_of key body))) (string_fields route)
  pub reads_struct :
      All (λ key. rt.read_struct body key ≡ as_document (value_of key body)) (struct_fields route)
  pub url_of : String
  pub url_is : url_of ≡ "https://" ++ server ++ path_of (pattern_of route) value
  pub marshals : k.marshal_error body ≡ none
  pub creates : k.new_request_error url_of ≡ none
  pub decodes : rt.decode_error body ≡ none
  pub routes : rt.route (pattern_of route).method url_of ≡ some (route, value)
  pub arrives : l.https url_of ≡ ok tt

module _ {A : Type 0} (rt : Runtime) (message : A → Message) (m : Exec World A) (w : World) where
  -- What the command makes of the gateway's answer to `m` depends on `m` alone.
  pub http-SameRun :
      (l : Links) (c : Context) (k : Kit) (g : Options) (method path : String)
      (body : Option Fields)
      → ((e : String) → rt.error_status e ≢ 200)
      → make_http_request (service rt c l) k g method path body w ≡ forwarded rt message m w
      → (r : Result A × World) → m w ≡ r
      → SameRun (http_command (service rt c l) k g method path body w) r
  unfolding http_command explained forwarded ◌>>=◌ raise pure branch
  http-SameRun l c k g method path body bad e (ok a, v) same = rw (e, same) (refl, refl)
  http-SameRun l c k g method path body bad e (err x, v) same =
      let other : eqb (rt.error_status x) 200 ≡ false = ground (arith, bad x) in
      rw (e, same, other) (refl, refl)

module _ {A : Type 0} (m : Exec World A) (w : World) where
  pub grpc-SameRun :
      (label : String) (f : A → Output) (r : Result A × World)
      → m w ≡ r
      → SameRun ((explained label m >>= λ a. pure (f a)) w) r
  unfolding explained ◌>>=◌ pure
  grpc-SameRun label f (ok a, v) same = rw same (refl, refl)
  grpc-SameRun label f (err x, v) same = rw same (refl, refl)

pub sent :
    (l : Links) (rt : Runtime) (c : Context) (k : Kit) (g : Options) (route : Route)
    (value path : String) (body : Fields) (w : World)
    → path_of (pattern_of route) value ≡ path
    → (pattern_of route).method ≡ "POST"
    → Reaches l rt k g.server_addr route value body
    → (make_http_request (service rt c l) k g "POST" path (some body) w
        ≡ gateway rt c (request_for g "POST" path (some body)) w)
      × (rt.route "POST" ("https://" ++ g.server_addr ++ path) ≡ some (route, value))
unfolding make_http_request build_request ◌>>=◌
sent l rt c k g route value path body w at post h =
    let url : h.url_of ≡ "https://" ++ g.server_addr ++ path =
      h.url_is ∙ ap (λ p. "https://" ++ g.server_addr ++ p) at in
    let fine = ap k.new_request_error (sym url) ∙ h.creates in
    let way =
      ap (λ p. rt.route p ("https://" ++ g.server_addr ++ path)) (sym post)
      ∙ ap (rt.route (pattern_of route).method) (sym url)
      ∙ h.routes in
    let reached = ap l.https (sym url) ∙ h.arrives in (rw (h.marshals, fine, reached) refl, way)

-- A field that is left out where it is empty reads as the text that it was made of.
pub optional_read : (key s : String) → text_of (as_string (value_of key (optional key s end))) ≡ s
unfolding value_of
optional_read key s = elim (Bool-cases (s == "")) [
  | inl e ↦ rw e (sym ((eq_iff s "").0 e))
  | inr e ↦ rw (e, eq_refl key) refl
]

abbrev pub over_http : Options → Options
over_http g = record g { use_http = true }

abbrev pub over_grpc : Options → Options
over_grpc g = record g { use_http = false }
