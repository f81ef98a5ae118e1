-- ===== src/Harborctl/ConfigFile/View.antt =====
-- config view and config check of cmd/harborctl/cmd/config.go. The warning signs of the source stand without
-- their variation selector.
use Prim.Native.String.{◌++◌}
use harbor_hook.Common.{
  Bool, List, Result, String, [], err, if◌then◌else◌, not, ok, ℕ, ◌&&◌, ◌==◌, ◌∷◌,
}
use harbor_hook.Common.Exec.{◌>>=◌, ◌>>◌, Exec, pure}
use harbor_hook.Harborctl.{Remote, caught, explained}
use harbor_hook.Harborctl.Json.{Fields, bool, end, field, str}
use harbor_hook.Harborctl.Output.{Output, lines, shows_map}
use harbor_hook.Harborctl.Settings.{Options, Viper}
use harbor_hook.World.{answer}

-- viper with viper.ConfigFileUsed, the text of a duration, and checkJQAvailable
pub record Setup : Type 0 where
  pub viper : Viper
  pub config_file_used : String
  pub duration_text : ℕ → String
  pub jq_available : Bool

abbrev yes_no : Bool → String
yes_no b = if b then "true" else "false"

abbrev line_if : Bool → String → List String → List String
line_if b line rest = if b then line ∷ rest else rest

module _ (p : Setup) where
  abbrev viewed : Fields
  viewed = field "server" (str (p.viper.get_string "server")) (
      field "timeout" (str (p.duration_text (p.viper.get_duration "timeout"))) (
        field "http" (bool (p.viper.get_bool "http")) (
          field "json" (bool (p.viper.get_bool "json"))
            (field "pretty" (bool (p.viper.get_bool "pretty")) end))))

  abbrev lacks_jq : Bool
  lacks_jq = p.viper.get_bool "pretty" && not p.jq_available

  abbrev view_lines : List String
  view_lines =
      "Current configuration:"
      ∷ ("  Server: " ++ p.viper.get_string "server")
      ∷ ("  Timeout: " ++ p.duration_text (p.viper.get_duration "timeout"))
      ∷ ("  Use HTTP: " ++ yes_no (p.viper.get_bool "http"))
      ∷ ("  JSON Output: " ++ yes_no (p.viper.get_bool "json"))
      ∷ ("  Pretty JSON: " ++ yes_no (p.viper.get_bool "pretty"))
      ∷ line_if lacks_jq "  ⚠  Warning: pretty=true but jq not found in PATH" (
          if p.config_file_used == ""
          then "  Config file: none (using defaults)" ∷ []
          else ("  Config file: " ++ p.config_file_used) ∷ [])

  -- configViewCmd
  unfoldable pub config_view : Options → Output
  config_view g = if g.output_json then shows_map viewed else lines view_lines

  abbrev reached : Result String → String
  reached (ok message) = "  ✅ Server connectivity: OK"
  reached (err e) = "  ❌ Server connectivity: " ++ e

  abbrev check_lines : String → Result String → List String
  check_lines version answer =
      "Configuration check:"
      ∷ ("  ✅ harborctl version: " ++ version)
      ∷ (if p.config_file_used == ""
          then "  ⚠  Config file: not found (using defaults)"
          else "  ✅ Config file: " ++ p.config_file_used)
      ∷ (if p.jq_available then "  ✅ jq: available" else "  ❌ jq: not found in PATH")
      ∷ line_if (not p.jq_available) "     Install from: https://jqlang.github.io/jq/download/" (
          ("  ✅ Server: " ++ p.viper.get_string "server")
          ∷ line_if lacks_jq "  ⚠  Pretty formatting enabled but jq not available"
              ("" ∷ "Testing server connectivity..." ∷ reached answer ∷ []))

  -- configCheckCmd
  unfoldable pub config_check : {S : Type 0} → Remote S → String → Exec S Output
  unfolding explained
  config_check r version = do
    answer ← caught (explained "failed to connect: " r.dial >> r.call_ping)
    pure (lines (check_lines version answer))
