-- ===== src/Config/Schedule.antt =====
-- The schedule of internal/config/config.go and computeDelay of cmd/worker/main.go.
use harbor_hook.Common.{
  ℕ, ◌-◌, ◌≤◌, ◌<◌, String, List, [], ◌∷◌, length, Bool, true, false, ◌==◌, some, Result, ◌≡◌,
  arith, if◌then◌else◌,
}
use harbor_hook.Config.{
  parse_backoff_schedule, durations, split_commas, or_default, default_schedule,
}
use harbor_hook.Worker.Backoff.{Floats, get_elem?, jitter_factor, compute_delay}
use harbor_hook.Worker.Backoff.Index.{compute_delay_defined}

or_default-pos : (p : String → Result ℕ) (ds : List ℕ) → 0 < length (or_default p ds)
or_default-pos p [] = omega arith
or_default-pos p (d ∷ ds) = omega arith

pub parse_backoff_schedule-pos :
    (parse_duration : String → Result ℕ) (schedule : String)
    → 0 < length (parse_backoff_schedule parse_duration schedule)
unfolding parse_backoff_schedule
parse_backoff_schedule-pos p schedule = go (schedule == "")
  where
    go :
        (b : Bool)
        → 0
          < length
              (if b then default_schedule else or_default p (durations p (split_commas schedule)))
    go true = omega arith
    go false = or_default-pos p (durations p (split_commas schedule))

-- Under the schedule that parseBackoffSchedule reads from any text, computeDelay returns for every
-- attempt: it scales by the jitter an entry of the schedule, whose index is attempt - 1 where the
-- schedule is long enough and never lies past its end.
pub compute_delay-parse_backoff_schedule :
    {F : Type 0} (parse_duration : String → Result ℕ) (text : String) (fl : Floats F)
    (draw jitter : F) (attempt : ℕ)
    → (i base : ℕ) × (get_elem? (parse_backoff_schedule parse_duration text) i ≡ some base)
      × (i < length (parse_backoff_schedule parse_duration text))
      × (i ≤ attempt - 1)
      × (attempt ≤ length (parse_backoff_schedule parse_duration text) → i ≡ attempt - 1)
      × (compute_delay fl draw attempt (parse_backoff_schedule parse_duration text) jitter
          ≡ some (fl.to_duration (fl.mul (fl.of_duration base) (jitter_factor fl draw jitter))))
compute_delay-parse_backoff_schedule p text fl draw jitter attempt =
    compute_delay_defined fl draw jitter attempt (parse_backoff_schedule p text)
      (parse_backoff_schedule-pos p text)
