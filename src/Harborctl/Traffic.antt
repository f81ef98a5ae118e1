-- ===== src/Harborctl/Traffic.antt =====
-- cmd/harborctl/cmd/traffic.go: the configuration and the statistics of the traffic generator. Collect has
-- the dialogue, Endpoints what is set up, Phase the loop of requests, and Command the whole command.
pub mod Collect
pub mod Endpoints
pub mod Phase
pub mod Combined
pub mod Command
use harbor_hook.Common.{
  ℕ, ◌+◌, ◌-◌, String, Bool, true, false, ltb, if◌then◌else◌, Option, none, some, Result,
}

-- The failure rate is a float64, of the type `F`.
pub record TrafficConfig (F : Type 0) : Type 0 where
  pub duration : ℕ
  pub volume : ℕ
  pub tenant_id : String
  pub webhook_url : String
  pub event_type : String
  pub server_host : String
  pub jwks_host : String
  pub mode : String
  pub failure_rate : F
  pub burst : Bool
  pub burst_volume : ℕ
  pub burst_duration : ℕ

-- The numbers 0 and 5, strconv.ParseFloat, the tests `rate > 0` and `0 <= rate && rate <= 100`, the test
-- of a random number of the round against the rate, requests per second of a duration in nanoseconds, and
-- `int(n * (rate / 100))`.
pub record Rates (F : Type 0) : Type 0 where
  pub zero_rate : F
  pub five : F
  pub parse_float : String → Result F
  pub is_positive : F → Bool
  pub in_range : F → Bool
  pub draws_below : ℕ → F → Bool
  pub per_second : ℕ → ℕ → F
  pub share_of : ℕ → F → ℕ

-- Durations in nanoseconds.
pub record TrafficSummary (F : Type 0) : Type 0 where
  pub total_requests : ℕ
  pub success_requests : ℕ
  pub failed_requests : ℕ
  pub good_endpoint_reqs : ℕ
  pub bad_endpoint_reqs : ℕ
  pub normal_requests : ℕ
  pub burst_requests : ℕ
  pub total_duration : ℕ
  pub normal_duration : ℕ
  pub burst_duration : ℕ
  pub normal_rps : F
  pub burst_rps : F
  pub overall_rps : F
  pub had_burst : Bool

abbrev added : {F : Type 0} → TrafficSummary F → TrafficSummary F → TrafficSummary F
added c b = record c {
  total_requests = c.total_requests + b.total_requests;
  success_requests = c.success_requests + b.success_requests;
  failed_requests = c.failed_requests + b.failed_requests;
  good_endpoint_reqs = c.good_endpoint_reqs + b.good_endpoint_reqs;
  bad_endpoint_reqs = c.bad_endpoint_reqs + b.bad_endpoint_reqs;
  burst_requests = b.burst_requests;
  burst_duration = b.burst_duration;
  burst_rps = b.burst_rps;
  total_duration = c.total_duration + b.total_duration;
}

abbrev with_burst :
    {F : Type 0} → Bool → TrafficSummary F → Option (TrafficSummary F) → TrafficSummary F
with_burst true c (some b) = added c b
with_burst _ c _ = c

-- combineTrafficSummaries
unfoldable pub combine_traffic_summaries :
    {F : Type 0} → Rates F → TrafficSummary F → Option (TrafficSummary F) → Bool → TrafficSummary F
combine_traffic_summaries r normal burst had_burst =
    let start = record normal {
      burst_requests = 0;
      burst_duration = 0;
      burst_rps = r.zero_rate;
      overall_rps = r.zero_rate;
      had_burst = had_burst;
    } in
    let c = with_burst had_burst start burst in
    if ltb 0 c.total_duration
    then record c { overall_rps = r.per_second c.total_requests c.total_duration }
    else c
