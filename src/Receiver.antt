-- ===== src/Receiver.antt =====
-- cmd/fake-receiver/main.go: the signature check and the hook's handler, with the delay of a response and
-- truncate beside it. What it logs is left out. The clock is not before 1970, and the leeway is not negative.
pub mod Signature
pub mod RoundTrip
pub mod Acceptance
pub mod Soundness
use Prim.Native.String.{◌++◌, len, slice}
use harbor_hook.Common.{
  ℕ, ◌+◌, ◌-◌, ◌*◌, ◌^◌, String, List, Bool, true, false, ◌==◌, leb, ltb, if◌then◌else◌, Option,
  none, some,
}
use harbor_hook.Common.Int.{ℤ, pos, negsuc}
use harbor_hook.Http.{Headers, get_header}
use harbor_hook.Receiver.Signature.{Verdict, valid, invalid, verify_signature}

-- the fields of config.FakeReceiver and config.NSQ that the handler reads
pub record Settings : Type 0 where
  pub fail_first_n : ℤ
  pub endpoint_secret : String
  pub leeway : ℕ
  pub timestamp_header : String
  pub signature_header : String

pub data Reply : Type 0 where
  ok internal_server_error : Reply
  unauthorized : String → Reply

-- n <= int64(cfg.FakeReceiver.FailFirstN)
abbrev within : ℕ → ℤ → Bool
within n (pos first) = leb n first
within n (negsuc m) = false

abbrev pub after_check : Settings → ℕ → Verdict → Reply
after_check s n (invalid msg) = Reply.unauthorized ("invalid signature: " ++ msg)
after_check s n valid = if within n s.fail_first_n then Reply.internal_server_error else Reply.ok

-- handleHook: the counter of requests, and the reply
unfoldable pub handle_hook :
    Settings → (String → String → List ℕ) → ℕ → ℕ → Headers → String → Reply × ℕ
handle_hook s hmac now count headers body =
    let n = count + 1 in
    let checked =
      verify_signature hmac s.endpoint_secret body (get_header s.timestamp_header headers)
        (get_header s.signature_header headers) s.leeway now in
    (after_check s n (if s.endpoint_secret == "" then valid else checked), n)

-- time.Duration(cfg.FakeReceiver.ResponseDelayMS) * time.Millisecond before a reply to a request that is
-- accepted; a delay that is not positive is none
abbrev pub delay_of : ℤ → Reply → ℕ
delay_of (pos ms) Reply.ok = ms * 1_000_000
delay_of _ _ = 0

-- truncate
unfoldable pub truncate : String → ℕ → String
truncate s n = if leb (len s) n then s else slice s 0 n ++ "..."
