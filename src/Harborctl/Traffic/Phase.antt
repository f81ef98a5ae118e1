-- ===== src/Harborctl/Traffic/Phase.antt =====
-- generateTrafficPhase of cmd/harborctl/cmd/traffic.go. A division by zero is an error that names the panic;
-- `none` means that the fuel of the loop ran out.
pub mod Counting
pub mod Pacing
use Prim.Native.String.{◌++◌}
use harbor_hook.Common.{
  ℕ, zero, suc, ◌+◌, ◌-◌, ◌*◌, ◌/◌, ◌%◌, ◌^◌, String, Bool, true, false, ◌&&◌, ◌==◌, eqb, ltb,
  Option, none, some, Result, ok, err, if◌then◌else◌,
}
use harbor_hook.Common.Exec.{Exec, pure, raise, branch, ◌>>=◌}
use harbor_hook.Encoding.Decimal.{decimal}
use harbor_hook.Harborctl.{HttpResponse, Remote, Kit, caught, make_http_request}
use harbor_hook.Harborctl.Json.{Fields, end, field, str, bool, object}
use harbor_hook.Harborctl.Settings.{Options}
use harbor_hook.Harborctl.Traffic.{TrafficConfig, Rates, TrafficSummary}

-- The clock in nanoseconds at the test of each round, numbered from 0, its text at the event of the round,
-- and the time that the loop took for a number of rounds.
pub record Clock : Type 0 where
  pub start : ℕ
  pub at : ℕ → ℕ
  pub stamp : ℕ → String
  pub elapsed : ℕ → ℕ

pub data Name : Type 0 where
  normal burst : Name

pub record Counts : Type 0 where
  pub requests : ℕ
  pub success : ℕ
  pub good : ℕ
  pub bad : ℕ

abbrev pub no_counts : Counts
no_counts = record { requests = 0; success = 0; good = 0; bad = 0 }

-- startTime.Add(time.Duration(duration) * time.Second), with the wrap-around of int64
unfoldable pub end_time : ℕ → ℕ → ℕ
end_time start duration =
    let d = (duration * 1_000_000_000) % 2 ^ 64 in
    if ltb d (2 ^ 63) then start + d else start - (2 ^ 64 - d)

-- time.Second / time.Duration(volume)
abbrev pub sleep_duration : ℕ → ℕ
sleep_duration volume = 1_000_000_000 / volume

-- the modulus of the progress display, `volume * 10` in an int64
abbrev pub modulus : ℕ → ℕ
modulus volume = (volume * 10) % 2 ^ 64

module _ {F : Type 0} where
  -- whether the event of a round is to fail
  abbrev pub should_fail : Rates F → TrafficConfig F → ℕ → Bool
  should_fail rates config i =
      if config.mode == "good" && rates.is_positive config.failure_rate
      then rates.draws_below i config.failure_rate
      else false

  abbrev pub event_payload : Clock → TrafficConfig F → ℕ → Bool → Fields
  event_payload clock config i fails = field "demo" (bool true) (
      field "type" (str "traffic_test") (
        field "timestamp" (str (clock.stamp i)) (
          field "request_id" (str ("req-" ++ decimal i))
            (field "mode" (str config.mode) (field "should_fail" (bool fails) end)))))

  abbrev pub event_of : TrafficConfig F → Bool → String
  event_of config fails = if fails then config.event_type ++ ".fail" else config.event_type

abbrev pub accepted : Result HttpResponse → Bool
accepted (ok resp) = eqb resp.status_code 200
accepted (err e) = false

abbrev one_if : Bool → ℕ
one_if b = if b then 1 else 0

-- the counters behind a round
abbrev pub counted : Counts → Bool → Result HttpResponse → Counts
counted c fails answer = record {
  requests = c.requests + 1;
  success = c.success + one_if (accepted answer);
  good = if fails then c.good else c.good + 1;
  bad = if fails then c.bad + 1 else c.bad;
}

module _ {F S : Type 0} (rates : Rates F) (clock : Clock) (r : Remote S) (k : Kit)
    (g : Options) where
  -- the request of a round
  unfoldable pub traffic_request : TrafficConfig F → ℕ → Exec S HttpResponse
  unfolding make_http_request
  traffic_request config i =
      let fails = should_fail rates config i in
      make_http_request r k g "POST" ("/v1/tenants/" ++ config.tenant_id ++ "/events:publish") (
        some (
          field "eventType" (str (event_of config fails))
            (field "payload" (object (event_payload clock config i fails)) end)))

  abbrev pub publish_traffic : TrafficConfig F → ℕ → Exec S (Result HttpResponse)
  publish_traffic config i = caught (traffic_request config i)

  -- the body of the loop
  unfoldable pub round : TrafficConfig F → ℕ → Counts → Exec S Counts
  unfolding traffic_request
  round config volume c = do
    answer ← publish_traffic config c.requests
    branch (eqb (modulus volume) 0) (raise "integer divide by zero")
        (pure (counted c (should_fail rates config c.requests) answer))

  -- the loop until the end time
  unfoldable pub rounds : TrafficConfig F → ℕ → ℕ → ℕ → Counts → Exec S (Option Counts)
  unfolding round
  rounds config volume deadline zero c = pure none
  rounds config volume deadline (suc fuel) c =
      branch (ltb (clock.at c.requests) deadline)
        (do c' ← round config volume c; rounds config volume deadline fuel c') (pure (some c))

abbrev pub summary_of : {F : Type 0} → Rates F → Clock → Name → Counts → TrafficSummary F
summary_of {F} rates clock name c =
    let d = clock.elapsed c.requests in
    let rps = rates.per_second c.requests d in
    let plain : TrafficSummary F = record {
      total_requests = c.requests;
      success_requests = c.success;
      failed_requests = c.requests - c.success;
      good_endpoint_reqs = c.good;
      bad_endpoint_reqs = c.bad;
      normal_requests = 0;
      burst_requests = 0;
      total_duration = d;
      normal_duration = 0;
      burst_duration = 0;
      normal_rps = rates.zero_rate;
      burst_rps = rates.zero_rate;
      overall_rps = rps;
      had_burst = false;
    } in
    elim name [
      | normal ↦ record plain {
        normal_requests = c.requests;
        normal_duration = d;
        normal_rps = rps;
      }
      | burst ↦ record plain { burst_requests = c.requests; burst_duration = d; burst_rps = rps }
    ]

abbrev pub summarized :
    {F : Type 0} → Rates F → Clock → Name → Option Counts → Option (TrafficSummary F)
summarized rates clock name none = none
summarized rates clock name (some c) = some (summary_of rates clock name c)

module _ {F S : Type 0} (rates : Rates F) (clock : Clock) (r : Remote S) (k : Kit)
    (g : Options) where
  -- generateTrafficPhase, with the token and the mode of HTTP for its calls
  unfoldable pub generate_traffic_phase :
      TrafficConfig F → String → ℕ → ℕ → Name → ℕ → Exec S (Option (TrafficSummary F))
  unfolding rounds end_time
  generate_traffic_phase config token volume duration name fuel =
      branch (eqb volume 0) (raise "integer divide by zero") do
        counts ←
            rounds rates clock r k (record g { jwt_token = token; use_http = true }) config volume
              (end_time clock.start duration) fuel no_counts
        pure (summarized rates clock name counts)
