-- ===== src/Harborctl/Output.antt =====
-- What the commands of cmd/harborctl/cmd print, and printOutput of cmd/harborctl/cmd/root.go.
use Prim.Native.String.{◌++◌}
use harbor_hook.Common.{String, List, Option, none, some, Result, ok, err, if◌then◌else◌}
use harbor_hook.Ingest.{EndpointReply, SubscriptionReply, PublishEventReply}
use harbor_hook.Ingest.Attempts.{DeliveryAttempt}
use harbor_hook.Harborctl.Json.{Fields}
use harbor_hook.Harborctl.Settings.{Options}

-- the messages that are printed as JSON
pub data Message : Type 0 where
  pong : String → Message
  endpoint : EndpointReply → Message
  subscription : SubscriptionReply → Message
  published : PublishEventReply → Message
  attempts : List DeliveryAttempt → Message
  replayed : DeliveryAttempt → Message
  setup : EndpointReply → SubscriptionReply → Message
  tested : PublishEventReply → List DeliveryAttempt → Message

-- A call of printOutput on a map or on a message, or lines of text.
pub data Output : Type 0 where
  shows_map : Fields → Output
  shows_message : Message → Output
  lines : List String → Output

-- The encoding of a value on several lines and on one, the text of %+v, and what formatWithJQ makes of a
-- text; encoding fails or not whatever its layout.
pub record Renderer (V : Type 0) : Type 0 where
  pub indented : V → String
  pub compact : V → String
  pub marshal_error : V → Option String
  pub verbose : V → String
  pub format_with_jq : String → Result String

-- standard output and standard error
pub record Streams : Type 0 where
  pub stdout : String
  pub stderr : String

module _ {V : Type 0} (r : Renderer V) where
  abbrev through_jq : V → Result String → Streams
  through_jq v (ok text) = record { stdout = text; stderr = "" }
  through_jq v (err e) = record {
    stdout = r.indented v ++ "\n";
    stderr = "Warning: " ++ e ++ ", falling back to standard formatting\n";
  }

  abbrev encoded : Options → V → Option String → Streams
  encoded g v (some e) = record { stdout = ""; stderr = "Error marshaling to JSON: " ++ e ++ "\n" }
  encoded g v none =
      if g.pretty_json
      then through_jq v (r.format_with_jq (r.compact v))
      else record { stdout = r.indented v ++ "\n"; stderr = "" }

  -- printOutput
  unfoldable pub print_output : Options → V → Streams
  print_output g v =
      if g.output_json
      then encoded g v (r.marshal_error v)
      else record { stdout = r.verbose v ++ "\n"; stderr = "" }
