-- ===== src/Harborctl/Traffic/Command.antt =====
-- runGenerateTraffic and generateTrafficWithProgress of cmd/harborctl/cmd/traffic.go, without what they print.
pub mod Runs
use harbor_hook.Common.{ℕ, String, Bool, true, false, Option, none, some, Result, ok, err}
use harbor_hook.Common.Exec.{Exec, pure, raise, branch, ◌>>=◌, ◌>>◌}
use harbor_hook.Harborctl.{Remote, Kit, explained}
use harbor_hook.Harborctl.Settings.{Options}
use harbor_hook.Harborctl.Traffic.{TrafficConfig, Rates, TrafficSummary, combine_traffic_summaries}
use harbor_hook.Harborctl.Traffic.Collect.{Console, collect_traffic_parameters, confirm_parameters}
use harbor_hook.Harborctl.Traffic.Endpoints.{TrafficIds, get_jwt_token, setup_traffic_endpoints}
use harbor_hook.Harborctl.Traffic.Phase.{Clock, normal, burst, generate_traffic_phase}

-- what the command ends with
pub data Finish (F : Type 0) : Type 0 where
  cancelled : Finish F
  generated : TrafficIds → TrafficSummary F → Finish F
  out_of_fuel : Finish F

-- exec.LookPath of a program
abbrev pub LookPath : Type 0
LookPath = String → Bool

module _ {F S : Type 0} (rates : Rates F) (clocks : Clock × Clock) (r : Remote S) (k : Kit)
    (g : Options) (fuel : ℕ) where
  abbrev pub combined :
      TrafficConfig F → TrafficSummary F → Option (TrafficSummary F) → Option (TrafficSummary F)
  combined config n none = none
  combined config n (some b) = some (combine_traffic_summaries rates n (some b) config.burst)

  -- the second phase
  unfoldable pub burst_phase :
      TrafficConfig F → String → Option (TrafficSummary F) → Exec S (Option (TrafficSummary F))
  unfolding generate_traffic_phase combine_traffic_summaries
  burst_phase config token none = pure none
  burst_phase config token (some n) =
      branch config.burst
        (do
          b ←
              generate_traffic_phase rates clocks.1 r k g config token config.burst_volume
                config.burst_duration burst fuel
          pure (combined config n b))
        (pure (some (combine_traffic_summaries rates n none config.burst)))

  -- generateTrafficWithProgress
  unfoldable pub generate_traffic_with_progress :
      TrafficConfig F → String → Exec S (Option (TrafficSummary F))
  unfolding generate_traffic_phase burst_phase
  generate_traffic_with_progress config token = do
    n ←
        generate_traffic_phase rates clocks.0 r k g config token config.volume config.duration
          normal fuel
    burst_phase config token n

  abbrev pub finished : TrafficIds → Option (TrafficSummary F) → Finish F
  finished ids none = out_of_fuel
  finished ids (some s) = generated ids s

  -- the steps behind the confirmation
  unfoldable pub run_confirmed : LookPath → TrafficConfig F → Exec S (Finish F)
  unfolding explained get_jwt_token setup_traffic_endpoints generate_traffic_with_progress
  run_confirmed look_path config =
      branch (look_path "curl")
        (branch (look_path "jq")
          (do
            token ←
                explained "failed to get JWT token: "
                  (get_jwt_token r k config.jwks_host config.tenant_id)
            ids ← explained "failed to setup endpoints: " (
                setup_traffic_endpoints r k (record g { jwt_token = token; use_http = true }) config
                  rates)
            summary ← generate_traffic_with_progress config token
            pure (finished ids summary))
          (raise "jq is required but not installed"))
        (raise "curl is required but not installed")

  -- runGenerateTraffic
  unfoldable pub run_generate_traffic : LookPath → Console → Exec S (Finish F)
  unfolding run_confirmed collect_traffic_parameters confirm_parameters
  run_generate_traffic look_path con =
      let (config, con') = collect_traffic_parameters rates con in
      branch (confirm_parameters con').0 (run_confirmed look_path config) (pure cancelled)
