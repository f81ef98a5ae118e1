-- ===== src/Harborctl/Settings.antt =====
-- The global flags of cmd/harborctl/cmd/root.go and initConfig, over viper as a parameter.
use harbor_hook.Common.{ℕ, String, Bool, ◌==◌, ltb, if◌then◌else◌}

-- the variables that the flags set
pub record Options : Type 0 where
  pub server_addr : String
  pub timeout : ℕ
  pub use_http : Bool
  pub output_json : Bool
  pub pretty_json : Bool
  pub jwt_token : String

-- the flags that the command line changed
pub record Changed : Type 0 where
  pub server : Bool
  pub timeout : Bool
  pub http : Bool
  pub json : Bool
  pub pretty : Bool
  pub token : Bool

-- viper.GetString, GetDuration (in nanoseconds) and GetBool
pub record Viper : Type 0 where
  pub get_string : String → String
  pub get_duration : String → ℕ
  pub get_bool : String → Bool

abbrev non_empty : String → String → String
non_empty s old = if s == "" then old else s

-- the part of initConfig behind the reading of the file; `env` is os.Getenv
unfoldable pub init_config : Viper → (String → String) → Changed → Options → Options
init_config v env changed g = record {
  server_addr =
      if changed.server then g.server_addr else non_empty (v.get_string "server") g.server_addr;
  timeout =
      if changed.timeout
      then g.timeout
      else if ltb 0 (v.get_duration "timeout")
      then v.get_duration "timeout"
      else g.timeout;
  use_http = if changed.http then g.use_http else v.get_bool "http";
  output_json = if changed.json then g.output_json else v.get_bool "json";
  pretty_json = if changed.pretty then g.pretty_json else v.get_bool "pretty";
  jwt_token =
      if changed.token
      then g.jwt_token
      else non_empty (v.get_string "token") (non_empty (env "JWT_TOKEN") g.jwt_token);
}
