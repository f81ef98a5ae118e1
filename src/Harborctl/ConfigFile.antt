-- ===== src/Harborctl/ConfigFile.antt =====
-- config set and config init of cmd/harborctl/cmd/config.go, on viper's settings and the file that they
-- are written to.
pub mod Saved
pub mod View
use Prim.Native.String.{◌++◌}
use harbor_hook.Common.{
  ℕ, String, List, [], ◌∷◌, Bool, true, false, not, ◌||◌, ◌&&◌, ◌==◌, Option, none, some, Result,
  ok, err, wrap, if◌then◌else◌, ◌≡◌, ◌≢◌, refl, sym, subst, ap, ◌∙◌, Bool-cases, inl, inr, eq_iff,
  eq_false, eq_refl, ne_of_eq_false,
}
use harbor_hook.Common.Exec.{Exec, pure, raise, branch, ◌>>=◌, ◌>>◌}
use harbor_hook.Harborctl.Settings.{Options, Changed, Viper, init_config}

pub data Value : Type 0 where
  text : String → Value
  flag : Bool → Value
  duration : ℕ → Value

-- viper's settings by key, and the contents of the file ~/.harborctl.yaml if it is there
pub record Stored : Type 0 where
  pub settings : String → Value
  pub file : Option (String → Value)

-- os.UserHomeDir, WriteConfigAs (the error, if there is one), time.ParseDuration, and whether jq is in PATH
pub record Machine : Type 0 where
  pub home : Result String
  pub write_error : String → Option String
  pub parse_duration : String → Result ℕ
  pub jq_available : Bool

-- viper.Set
abbrev pub put : String → Value → (String → Value) → String → Value
put key v settings k = if k == key then v else settings k

abbrev pub set : String → Value → Exec Stored (Unit {0})
set key v s = (ok tt, record s { settings = put key v s.settings })

-- validKeys
abbrev pub is_valid_key : String → Bool
is_valid_key key =
    key == "server" || key == "timeout" || key == "http" || key == "json" || key == "pretty"

abbrev pub is_flag : String → Bool
is_flag key = key == "http" || key == "json" || key == "pretty"

abbrev pub is_true_word : String → Bool
is_true_word w = w == "true" || w == "1" || w == "yes" || w == "on"

abbrev pub is_false_word : String → Bool
is_false_word w = w == "false" || w == "0" || w == "no" || w == "off"

abbrev parsed_duration : Result ℕ → String → Value
parsed_duration (ok d) w = duration d
parsed_duration (err e) w = text w

-- the value that is stored, or why there is none
unfoldable pub value_for : Machine → String → String → Result Value
value_for m key w =
    if is_flag key
    then (if is_true_word w
        then ok (flag true)
        else if is_false_word w
        then ok (flag false)
        else err ("invalid boolean value for " ++ key ++ ": " ++ w ++ " (use true/false)"))
    else if key == "timeout"
    then ok (parsed_duration (m.parse_duration w) w)
    else ok (text w)

abbrev config_path : String → String
config_path home = home ++ "/.harborctl.yaml"

abbrev pub given : {A : Type 0} → Result A → Exec Stored A
given (ok a) s = (ok a, s)
given (err e) s = (err e, s)

abbrev pub written : String → Option String → Exec Stored (Unit {0})
written label none s = (ok tt, record s { file = some s.settings })
written label (some e) s = (err (label ++ e), s)

module _ (m : Machine) where
  -- configSetCmd behind the check of the key
  unfoldable pub store_value : String → Result Value → Exec Stored String
  store_value key (err e) = raise e
  store_value key (ok v) = do
    set key v
    home ← given (wrap "failed to get home directory: " m.home)
    written "failed to write config file: " (m.write_error (config_path home))
    pure (config_path home)

  -- configSetCmd: the path of the file
  unfoldable pub config_set : String → String → Exec Stored String
  unfolding value_for store_value
  config_set key w = branch (is_valid_key key) (store_value key (value_for m key w)) (
      raise (
        "invalid configuration key: " ++ key
        ++ ". Valid keys are: server, timeout, http, json, pretty"))

  abbrev exists : Option (String → Value) → Bool
  exists none = false
  exists (some f) = true

  -- configInitCmd; `force` is its flag
  unfoldable pub config_init : Bool → Exec Stored String
  config_init force s =
      (do
        home ← given (wrap "failed to get home directory: " m.home)
        branch (exists s.file && not force)
            (raise (
              "config file already exists at "
              ++ config_path home
              ++ " (use --force to overwrite)"))
            (do
              set "server" (text "localhost:8080")
              set "timeout" (text "30s")
              set "http" (flag false)
              set "json" (flag false)
              set "pretty" (flag false)
              written "failed to create config file: " (m.write_error (config_path home))
              pure (config_path home)))
        s
