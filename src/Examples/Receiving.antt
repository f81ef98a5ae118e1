-- ===== src/Examples/Receiving.antt =====
-- The theorems on the receiver, and those on the schedule of delays.
use harbor_hook.Common.{
  ℕ, ◌-◌, ◌<◌, ◌≤◌, String, [], ◌∷◌, length, All, some, false, Result, ok, err, ◌≡◌, refl, arith,
  ne_of_eq_false,
}
use harbor_hook.Common.Int.{ℤ, pos, negsuc}
use harbor_hook.Encoding.Decimal.{parse_int}
use harbor_hook.Encoding.Hex.{decode}
use harbor_hook.Encoding.Words.{to_lower}
use harbor_hook.Receiver.{Settings, Reply, handle_hook}
use harbor_hook.Receiver.Signature.{verify_signature, split_once, subtract, abs64, exceeds}
use harbor_hook.Receiver.Acceptance.{Agrees, handle_hook-sign_request, abs64-subtract_overflow}
use harbor_hook.Receiver.Soundness.{verify_signature_sound}
use harbor_hook.Worker.{Request, replied}
use harbor_hook.Worker.Handler.{signed_request, sign_request}
use harbor_hook.Worker.Backoff.{get_elem?, jitter_factor, compute_delay}
use harbor_hook.Config.{parse_backoff_schedule}
use harbor_hook.Config.Schedule.{compute_delay-parse_backoff_schedule}
use harbor_hook.Jwks.{int_to_bytes}
use harbor_hook.Jwks.Bytes.{value_of, int_to_bytes-value}
use harbor_hook.Examples.{surroundings, paid_task, tenths}

abbrev receiver : Settings
receiver = record {
  fail_first_n = pos 1;
  endpoint_secret = "s3cret";
  leeway = 300;
  timestamp_header = "X-HarborHook-Timestamp";
  signature_header = "X-HarborHook-Signature";
}

agrees : Agrees (surroundings 6 (replied 204)) receiver 1_700_000_010
unfolding to_lower
agrees = record {
  timestamp_header = refl;
  signature_header = refl;
  apart = ne_of_eq_false "x-harborhook-signature" "x-harborhook-timestamp" refl;
  timestamp_untraced = ne_of_eq_false "x-trace-id" "x-harborhook-timestamp" refl;
  signature_untraced = ne_of_eq_false "x-trace-id" "x-harborhook-signature" refl;
  bytes = λ key text. (omega arith, (omega arith, (omega arith, tt)));
  late = omega arith;
  early = omega arith;
  representable = omega arith;
  clock = omega arith;
}

abbrev signed : Request
signed = signed_request (surroundings 6 (replied 204)) paid_task "s3cret"

handle_hook-sign_request_example :
    handle_hook receiver
      (surroundings 6 (replied 204)).hmac_sha256
      1_700_000_010
      1
      signed.headers
      signed.body
    ≡ (Reply.ok, 2)
unfolding sign_request
handle_hook-sign_request_example =
    handle_hook-sign_request (surroundings 6 (replied 204)) receiver 1_700_000_010 paid_task 1
      signed agrees refl

verify_signature_sound_example :
    (unix : ℤ) × (digits : String) × (parse_int "5" ≡ ok unix)
    × (exceeds (abs64 (subtract 5 unix)) 300 ≡ false)
    × (split_once "sha256=07ff" ≡ some ("sha256", digits))
    × (decode digits ≡ some (7 ∷ 255 ∷ []))
unfolding verify_signature
verify_signature_sound_example =
    verify_signature_sound (λ key text. 7 ∷ 255 ∷ []) "s3cret" "{}" "5" "sha256=07ff" 300 5 refl

abs64-subtract_overflow_example :
    exceeds (abs64 (subtract 1_700_000_000 (negsuc 9_223_372_035_154_775_807))) 300 ≡ false
abs64-subtract_overflow_example =
    abs64-subtract_overflow 1_700_000_000 9_223_372_035_154_775_807 300 refl

abbrev no_duration : String → Result ℕ
no_duration s = err "invalid duration"

compute_delay-parse_backoff_schedule_example :
    (i base : ℕ) × (get_elem? (parse_backoff_schedule no_duration "soon,later") i ≡ some base)
    × (i < length (parse_backoff_schedule no_duration "soon,later"))
    × (i ≤ 9 - 1)
    × (9 ≤ length (parse_backoff_schedule no_duration "soon,later") → i ≡ 9 - 1)
    × (compute_delay tenths 5 9 (parse_backoff_schedule no_duration "soon,later") 0
        ≡ some
            (tenths.to_duration (tenths.mul (tenths.of_duration base) (jitter_factor tenths 5 0))))
compute_delay-parse_backoff_schedule_example =
    compute_delay-parse_backoff_schedule no_duration "soon,later" tenths 5 0 9

int_to_bytes-value_example :
    All (λ b. b < 256) (int_to_bytes 65537) × (value_of (int_to_bytes 65537) 0 ≡ 65537)
int_to_bytes-value_example = int_to_bytes-value 65537
