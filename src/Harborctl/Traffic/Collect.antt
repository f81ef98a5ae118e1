-- ===== src/Harborctl/Traffic/Collect.antt =====
-- collectTrafficParameters and confirmParameters of cmd/harborctl/cmd/traffic.go. A read of standard input
-- brings some whole lines at once: one at a terminal, all of them from a pipe. A bufio.Reader keeps the lines
-- that it has read ahead, and the two functions have a reader each.
pub mod Usable
pub mod Piped
use harbor_hook.Common.{
  ℕ, zero, suc, ◌+◌, ◌-◌, ◌*◌, String, List, [], ◌∷◌, Bool, true, false, ◌||◌, ◌==◌, Result, ok,
  err, if◌then◌else◌,
}
use harbor_hook.Common.Int.{ℤ, pos, negsuc}
use harbor_hook.Encoding.Words.{to_lower}
use harbor_hook.Encoding.Decimal.{parse_int}
use harbor_hook.Config.{trim_space}
use harbor_hook.Harborctl.Traffic.{TrafficConfig, Rates}

-- the reads to come, and the lines that the reader holds
pub record Console : Type 0 where
  pub stdin : List (List String)
  pub buffered : List String

abbrev pub Dialogue : Type 0 → Type 0
Dialogue A = Console → A × Console

infixl 10 ◌>>=◌
abbrev pub ◌>>=◌ : {A B : Type 0} → Dialogue A → (A → Dialogue B) → Dialogue B
◌>>=◌ m f con = let (a, con') = m con in f a con'

abbrev pub pure : {A : Type 0} → A → Dialogue A
pure a con = (a, con)

-- bufio.NewReader(os.Stdin)
abbrev pub new_reader : Console → Console
new_reader con = record con { buffered = [] }

-- reads until there is a line; at the end of the input, none
fill : List (List String) → String × Console
fill [] = ("", record { stdin = []; buffered = [] })
fill ([] ∷ reads) = fill reads
fill ((line ∷ lines) ∷ reads) = (line, record { stdin = reads; buffered = lines })

abbrev next_line : List String → List (List String) → String × Console
next_line [] reads = fill reads
next_line (line ∷ lines) reads = (line, record { stdin = reads; buffered = lines })

-- input, _ := reader.ReadString('\n')
unfoldable pub read_string : Dialogue String
unfolding fill
read_string con = next_line con.buffered con.stdin

-- the text of an answer that is not blank
unfoldable pub answered : String → String → String
unfolding trim_space
answered input def = if trim_space input == "" then def else trim_space input

-- a number that is accepted if it is greater than 0
abbrev pub positive : Result ℤ → ℕ → ℕ
positive (ok (pos (suc n))) def = suc n
positive _ def = def

-- strconv.Atoi of an answer that is not blank
unfoldable pub counted : String → ℕ → ℕ
unfolding trim_space parse_int
counted input def =
    if trim_space input == "" then def else positive (parse_int (trim_space input)) def

unfoldable pub mode_of : String → String
unfolding trim_space to_lower
mode_of input =
    let word = to_lower (trim_space input) in
    if trim_space input == ""
    then "good"
    else if word == "bad" || word == "dlq"
    then "bad"
    else "good"

unfoldable pub says_yes : String → Bool
unfolding trim_space to_lower
says_yes input = let word = to_lower (trim_space input) in word == "y" || word == "yes"

module _ {F : Type 0} (r : Rates F) where
  -- the defaults of a mode
  abbrev pub defaults : String → TrafficConfig F
  defaults mode =
      if mode == "bad"
      then record {
        duration = 30;
        volume = 5;
        tenant_id = "harborctl_badtraffic";
        webhook_url = "http://fake-receiver:8081/fail";
        event_type = "harborctl.traffic.failevent";
        server_host = "localhost:8443";
        jwks_host = "localhost:8082";
        mode = "bad";
        failure_rate = r.zero_rate;
        burst = false;
        burst_volume = 0;
        burst_duration = 0;
      }
      else record {
        duration = 120;
        volume = 10;
        tenant_id = "harborctl_traffic";
        webhook_url = "http://fake-receiver:8081/hook";
        event_type = "harborctl.traffic.successevent";
        server_host = "localhost:8443";
        jwks_host = "localhost:8082";
        mode = "good";
        failure_rate = r.five;
        burst = false;
        burst_volume = 25;
        burst_duration = 30;
      }

  abbrev pub accepted : Result F → F → F
  accepted (ok rate) def = if r.in_range rate then rate else def
  accepted (err e) def = def

  unfoldable pub rated : String → F → F
  unfolding trim_space
  rated input def =
      if trim_space input == "" then def else accepted (r.parse_float (trim_space input)) def

  -- the questions about bursts
  unfoldable pub ask_burst : TrafficConfig F → Dialogue (TrafficConfig F)
  unfolding read_string says_yes counted
  ask_burst config = do
    enabled ← read_string
    if says_yes enabled
        then (do
          volume ← read_string
          duration ← read_string
          pure (record config {
            burst = true;
            burst_volume = counted volume config.burst_volume;
            burst_duration = counted duration config.burst_duration;
          }))
        else pure config

  -- the questions that only good traffic has
  unfoldable pub ask_failures : TrafficConfig F → Dialogue (TrafficConfig F)
  unfolding read_string rated ask_burst
  ask_failures config =
      if config.mode == "good"
      then (do
        rate ← read_string
        ask_burst (record config { failure_rate = rated rate config.failure_rate }))
      else pure config

  -- the questions that both modes have
  unfoldable pub ask_common : TrafficConfig F → Dialogue (TrafficConfig F)
  unfolding read_string counted answered
  ask_common config = do
    duration ← read_string
    volume ← read_string
    tenant ← read_string
    url ← read_string
    event ← read_string
    server ← read_string
    jwks ← read_string
    pure (record config {
      duration = counted duration config.duration;
      volume = counted volume config.volume;
      tenant_id = answered tenant config.tenant_id;
      webhook_url = answered url config.webhook_url;
      event_type = answered event config.event_type;
      server_host = answered server config.server_host;
      jwks_host = answered jwks config.jwks_host;
    })

  -- collectTrafficParameters
  unfoldable pub collect_traffic_parameters : Dialogue (TrafficConfig F)
  unfolding read_string mode_of ask_common ask_failures
  collect_traffic_parameters start =
      (do mode ← read_string; config ← ask_common (defaults (mode_of mode)); ask_failures config)
        (new_reader start)

-- What confirmParameters announces: the requests of the first phase and of the burst, and, of traffic that is
-- not bad, how many of them are to fail.
pub record Forecast : Type 0 where
  pub normal_requests : ℕ
  pub burst_requests : ℕ
  pub total_requests : ℕ
  pub expected_failures : ℕ
  pub expected_successes : ℕ

unfoldable pub forecast : {F : Type 0} → Rates F → TrafficConfig F → Forecast
forecast r config =
    let normal = config.duration * config.volume in
    let burst = if config.burst then config.burst_duration * config.burst_volume else 0 in
    let failures = r.share_of (normal + burst) config.failure_rate in
    record {
      normal_requests = normal;
      burst_requests = burst;
      total_requests = normal + burst;
      expected_failures = failures;
      expected_successes = normal + burst - failures;
    }

-- confirmParameters: the answer that its own reader gets
unfoldable pub confirm_parameters : Dialogue Bool
unfolding read_string says_yes
confirm_parameters start = (do response ← read_string; pure (says_yes response)) (new_reader start)
