-- ===== src/Examples/Generating.antt =====
-- The theorems on cmd/harborctl/cmd/traffic.go, with numbers of percents in the place of float64 and a
-- service that counts the requests it gets.
use harbor_hook.Common.{
  [], arith, err, if◌then◌else◌, ltb, ok, refl, some, true, ℕ, ◌%◌, ◌*◌, ◌+◌, ◌/◌, ◌<◌, ◌∷◌, ◌≡◌,
}
use harbor_hook.Common.Exec.{Exec, ◌>>=◌}
use harbor_hook.Examples.Commanding.{kit, options}
use harbor_hook.Harborctl.{HttpResponse, Remote}
use harbor_hook.Harborctl.Json.{end}
use harbor_hook.Harborctl.Traffic.{Rates, TrafficConfig, TrafficSummary}
use harbor_hook.Harborctl.Traffic.Collect.{Console, collect_traffic_parameters, defaults}
use harbor_hook.Harborctl.Traffic.Collect.Usable.{IsUsable, collect_traffic_parameters-IsUsable}
use harbor_hook.Harborctl.Traffic.Command.{
  cancelled, generate_traffic_with_progress, run_generate_traffic,
}
use harbor_hook.Harborctl.Traffic.Command.Runs.{
  generate_traffic_with_progress-IsConsistent, run_generate_traffic_piped,
}
use harbor_hook.Harborctl.Traffic.Phase.{Clock, generate_traffic_phase, normal}
use harbor_hook.Harborctl.Traffic.Phase.Counting.{IsConsistent}
use harbor_hook.Harborctl.Traffic.Phase.Pacing.{generate_traffic_phase_paced}

abbrev rates : Rates ℕ
rates = record {
  zero_rate = 0;
  five = 5;
  parse_float = λ text. err "no number";
  is_positive = ltb 0;
  in_range = λ rate. ltb rate 101;
  draws_below = λ i rate. ltb (i * 50) rate;
  per_second = λ n d. n * 1_000_000_000 / d;
  share_of = λ n rate. n * rate / 100;
}

abbrev unanswered : {A : Type 0} → Exec ℕ A
unanswered n = (err "unavailable", n)

-- every second request is refused
abbrev status_after : ℕ → HttpResponse
status_after n = record {
  status_code = if ltb 0 (n % 2) then 503 else 200;
  status = "";
  document = ok end;
}

abbrev counting : Remote ℕ
counting = record {
  dial = unanswered;
  call_ping = unanswered;
  call_create_endpoint = λ req. unanswered;
  call_create_subscription = λ req. unanswered;
  call_publish_event = λ req. unanswered;
  call_get_delivery_status = λ req. unanswered;
  call_replay_delivery = λ req. unanswered;
  call_list_dlq = λ req. unanswered;
  send = λ req n. (ok (status_after n), n + 1);
}

-- a round lasts a second
abbrev clock : Clock
clock = record {
  start = 0;
  at = λ i. i * 1_000_000_000;
  stamp = λ i. "";
  elapsed = λ n. n * 1_000_000_000;
}

abbrev config : TrafficConfig ℕ
config = record (defaults rates "good") {
  duration = 3;
  volume = 1;
  burst = true;
  burst_volume = 1;
  burst_duration = 2;
}

generate_traffic_phase_paced_example :
    (summary : TrafficSummary ℕ) × (v : ℕ) × (generate_traffic_phase rates clock counting kit
        options config "token" 1 3 normal 4 0
      ≡ (ok (some summary), v))
    × (summary.total_requests * 1_000_000_000 < 3_000_000_000 + 1_000_000_000)
generate_traffic_phase_paced_example =
    generate_traffic_phase_paced rates clock counting kit options config "token" 1 3 normal 4 0
      (omega arith, omega arith) (omega arith) (omega arith)
      (record { starts = omega arith; sleeps = λ i. omega arith }) (omega arith)

abbrev summary : TrafficSummary ℕ
summary = record {
  total_requests = 5;
  success_requests = 3;
  failed_requests = 2;
  good_endpoint_reqs = 3;
  bad_endpoint_reqs = 2;
  normal_requests = 3;
  burst_requests = 2;
  total_duration = 5_000_000_000;
  normal_duration = 3_000_000_000;
  burst_duration = 2_000_000_000;
  normal_rps = 1;
  burst_rps = 1;
  overall_rps = 1;
  had_burst = true;
}

generate_traffic_with_progress-IsConsistent_example : IsConsistent summary
unfolding generate_traffic_with_progress ◌>>=◌
generate_traffic_with_progress-IsConsistent_example =
    generate_traffic_with_progress-IsConsistent rates (clock, clock) counting kit options 4 config
      "token" 0 5 summary refl

abbrev typed : Console
typed = record {
  stdin =
      ("good\n" ∷ [])
      ∷ ("60\n" ∷ "-4\n" ∷ [])
      ∷ ("\n" ∷ "\n" ∷ "\n" ∷ "\n" ∷ "\n" ∷ [])
      ∷ ("500\n" ∷ "yes\n" ∷ "0\n" ∷ "12\n" ∷ [])
      ∷ [];
  buffered = [];
}

collect_traffic_parameters-IsUsable_example :
    IsUsable rates (collect_traffic_parameters rates typed).0
collect_traffic_parameters-IsUsable_example =
    collect_traffic_parameters-IsUsable rates typed refl refl

run_generate_traffic_piped_example :
    run_generate_traffic rates
      (clock, clock)
      counting
      kit
      options
      4
      (λ program. true)
      (record {
        stdin = ("bad\n" ∷ "\n" ∷ "\n" ∷ "\n" ∷ "\n" ∷ "\n" ∷ "\n" ∷ "\n" ∷ "yes\n" ∷ []) ∷ [];
        buffered = [];
      })
      0
    ≡ (ok cancelled, 0)
run_generate_traffic_piped_example =
    run_generate_traffic_piped rates (clock, clock) counting kit options 4 (λ program. true)
      ("bad\n" ∷ "\n" ∷ "\n" ∷ "\n" ∷ "\n" ∷ "\n" ∷ "\n" ∷ "\n" ∷ "yes\n" ∷ []) 0
