-- ===== src/Examples/Commanding.antt =====
-- The theorems on cmd/harborctl/cmd against the webhook service and its gateway, on the tables of the tenant
-- acme.
use harbor_hook.Common.{
  Option, Result, String, [], err, false, if◌then◌else◌, none, ok, refl, some, true, ◌==◌, ◌∷◌, ◌≡◌,
}
use harbor_hook.Common.Exec.{branch, ◌>>=◌}
use harbor_hook.Examples.{acme_world, context}
use harbor_hook.Harborctl.{Kit}
use harbor_hook.Harborctl.ConfigFile.{Machine, Stored, config_set, flag}
use harbor_hook.Harborctl.ConfigFile.Saved.{as_flag, init_config-config_set, no_flags}
use harbor_hook.Harborctl.Gateway.{Links, Route, Runtime, creates_endpoint, publishes, service}
use harbor_hook.Harborctl.Gateway.Modes.{as_document, text_of}
use harbor_hook.Harborctl.Json.{as_string, end, value_of}
use harbor_hook.Harborctl.Output.{setup, shows_message}
use harbor_hook.Harborctl.Quick.{Shown, quick_setup}
use harbor_hook.Harborctl.Quick.Subscribed.{Untouched, quick_setup-Subscribed}
use harbor_hook.Harborctl.Quick.Tables.{Subscribed}
use harbor_hook.Harborctl.Settings.{Options, Viper, init_config}
use harbor_hook.Ingest.Endpoints.{create_endpoint, create_subscription}
use harbor_hook.Store.Inserts.{insert_endpoint, insert_subscription}
use harbor_hook.Store.Queries.{endpoint_exists}
use harbor_hook.World.{World, query, run}

abbrev pub kit : Kit
kit = record {
  marshal_error = λ fs. none;
  new_request_error = λ url. none;
  unmarshal = λ text. ok text;
  parse_time = λ text. err "no time";
  encode_values = λ values. "";
  format_time = λ t. "";
}

abbrev pub options : Options
options = record {
  server_addr = "localhost:8443";
  timeout = 30;
  use_http = false;
  output_json = false;
  pretty_json = false;
  jwt_token = "";
}

-- the mux, for the tenant acme
abbrev route_of : String → Option (Route × String)
route_of url =
    if url == "https://localhost:8443/v1/tenants/acme/endpoints"
    then some (creates_endpoint, "acme")
    else if url == "https://localhost:8443/v1/tenants/acme/events:publish"
    then some (publishes, "acme")
    else none

abbrev pub runtime : Runtime
runtime = record {
  route = λ method url. route_of url;
  read = λ fs key. text_of (as_string (value_of key fs));
  read_struct = λ fs key. as_document (value_of key fs);
  decode_error = λ fs. none;
  populate_status = λ url. err "no query";
  populate_dlq = λ url. err "no query";
  document_of = λ message. end;
  error_status = λ e. 503;
}

-- everything is reached
abbrev pub links : Links
links = record { dial = ok tt; plaintext = λ method. ok tt; https = λ url. ok tt }

abbrev pub json_options : Options
json_options = record options { output_json = true }

abbrev pub setup_run : Result Shown × World
setup_run =
    quick_setup (service runtime context links) kit json_options "acme" "http://acme.test/new"
      "order.sent" "s3cret" acme_world

abbrev pub setup_shown : Shown
setup_shown = record {
  progress =
      "Creating endpoint for http://acme.test/new..." ∷ "✅ Created endpoint: u"
      ∷ "Creating subscription for event type order.sent..." ∷ "✅ Created subscription: uu" ∷ [];
  result = shows_message (
      setup (record { id = "u"; tenant_id = "acme"; url = "http://acme.test/new"; created_at = 9 })
        (record {
          id = "uu";
          tenant_id = "acme";
          endpoint_id = "u";
          event_type = "order.sent";
          created_at = 9;
        }));
}

quick_setup-Subscribed_example :
    Subscribed "acme" "order.sent" "http://acme.test/new" "s3cret" setup_run.1.db
    × Untouched acme_world.db.events acme_world.db.deliveries acme_world.queue setup_run.1.db
        setup_run.1.queue
unfolding quick_setup ◌>>=◌ create_endpoint run insert_endpoint create_subscription query
    endpoint_exists insert_subscription
quick_setup-Subscribed_example =
    quick_setup-Subscribed links runtime context kit json_options "acme" "http://acme.test/new"
      "order.sent" "s3cret" acme_world setup_run.1 setup_shown refl

abbrev machine : Machine
machine = record {
  home = ok "/root";
  write_error = λ path. none;
  parse_duration = λ text. err "no duration";
  jq_available = false;
}

abbrev stored : Stored
stored = record { settings = λ key. flag (key == "json"); file = none }

abbrev saved : Stored
saved = (config_set machine "http" "on" stored).1

-- viper over the settings that config set wrote
abbrev viper : Viper
viper = record {
  get_string = λ key. "";
  get_duration = λ key. 0;
  get_bool = λ key. as_flag (saved.settings key);
}

init_config-config_set_example :
    ((init_config viper (λ name. "") no_flags options).use_http ≡ true)
    × ((init_config viper (λ name. "") no_flags options).output_json ≡ true)
    × ((init_config viper (λ name. "") no_flags options).pretty_json ≡ false)
unfolding config_set branch ◌>>=◌
init_config-config_set_example =
    init_config-config_set machine "on" "/root/.harborctl.yaml" stored saved viper (λ name. "")
      options refl (λ key. refl)
