-- ===== src/Receiver/Acceptance.antt =====
-- What the hook of cmd/fake-receiver/main.go makes of requests: those that cmd/worker/main.go signs, and
-- others.
use Prim.Native.String.{◌++◌}
use harbor_hook.Common.{
  some, subst, ℕ, ◌+◌, ◌-◌, ◌^◌, ◌≤◌, ◌<◌, String, [], Bool, true, false, ◌==◌, ltb, eqb, All,
  if◌then◌else◌, ◌≡◌, refl, ◌∙◌, arith, Bool-cases, inl, inr,
}
use harbor_hook.Common.Int.{negsuc}
use harbor_hook.Encoding.Decimal.{decimal}
use harbor_hook.Encoding.Hex.{encode}
use harbor_hook.Http.{Headers, Differ, get_header, set_header, get_header-same, get_header-other}
use harbor_hook.Receiver.{Settings, Reply, handle_hook, after_check}
use harbor_hook.Receiver.Signature.{Verdict, valid, subtract, abs64, exceeds}
use harbor_hook.Receiver.RoundTrip.{verify_signature-signature}
use harbor_hook.Delivery.{Task}
use harbor_hook.Worker.{Surroundings, Request}
use harbor_hook.Worker.Handler.{signed_request, sign_request, set_trace}

get_header-trace :
    (name id : String) (headers : Headers)
    → Differ "X-Trace-Id" name
    → get_header name (set_trace id headers) ≡ get_header name headers
get_header-trace name id headers d = elim (Bool-cases (id == "")) [
  | inl e ↦ rw e refl
  | inr e ↦ rw e (get_header-other name "X-Trace-Id" id headers d)
]

-- The receiver has the endpoint's secret and the worker's header names, which are three headers with that
-- of the trace; its clock is within the leeway of the worker's.
pub record Agrees {F : Type 0} (s : Surroundings F) (r : Settings) (now : ℕ) : Type 0 where
  pub timestamp_header : r.timestamp_header ≡ s.settings.timestamp_header
  pub signature_header : r.signature_header ≡ s.settings.signature_header
  pub apart : Differ s.settings.signature_header s.settings.timestamp_header
  pub timestamp_untraced : Differ "X-Trace-Id" s.settings.timestamp_header
  pub signature_untraced : Differ "X-Trace-Id" s.settings.signature_header
  pub bytes : (key text : String) → All (λ b. b < 256) (s.hmac_sha256 key text)
  pub late : now ≤ s.unix + r.leeway
  pub early : s.unix ≤ now + r.leeway
  pub representable : s.unix < 2 ^ 63
  pub clock : now < 2 ^ 63

module _ {F : Type 0} (s : Surroundings F) (r : Settings) (now : ℕ) (t : Task) where
  abbrev request : Request
  request = signed_request s t r.endpoint_secret

  checked_or_unchecked :
      (b : Bool) (v : Verdict) {n : ℕ}
      → v ≡ valid
      → Path (Reply × ℕ) (after_check r n (if b then valid else v), n) (after_check r n valid, n)
  checked_or_unchecked true v h = refl
  checked_or_unchecked false v h = rw h refl

  handle_hook-signed_request :
      (count : ℕ)
      → Agrees s r now
      → handle_hook r s.hmac_sha256 now count request.headers request.body
        ≡ (after_check r (count + 1) valid, count + 1)
  unfolding handle_hook
  handle_hook-signed_request count a =
      let ts = decimal s.unix in
      let sig = "sha256=" ++ encode (s.hmac_sha256 r.endpoint_secret (t.payload ++ ts)) in
      let plain =
        set_header s.settings.timestamp_header ts
          (set_header "Content-Type" "application/json" []) in
      let signed = set_header s.settings.signature_header sig plain in
      let time : get_header s.settings.timestamp_header (set_trace s.trace_id signed) ≡ ts =
        get_header-trace s.settings.timestamp_header s.trace_id signed a.timestamp_untraced
        ∙ get_header-other s.settings.timestamp_header s.settings.signature_header sig plain a.apart
        ∙ get_header-same s.settings.timestamp_header ts
            (set_header "Content-Type" "application/json" []) in
      let mac : get_header s.settings.signature_header (set_trace s.trace_id signed) ≡ sig =
        get_header-trace s.settings.signature_header s.trace_id signed a.signature_untraced
        ∙ get_header-same s.settings.signature_header sig plain in
      let verified =
        verify_signature-signature s.hmac_sha256 r.endpoint_secret t.payload s.unix now r.leeway
          a.bytes a.late a.early a.representable a.clock in
      checked_or_unchecked (r.endpoint_secret == "") _
        (rw (a.timestamp_header, a.signature_header, time, mac) verified)

  -- The receiver accepts the requests that the worker signs: where the task makes a request, with
  -- the endpoint's secret, the worker's header names, which differ from each other and from the
  -- trace header, an HMAC in bytes, and clocks within the leeway of each other, the hook passes the
  -- signature check and its reply depends on the count of requests alone.
  pub handle_hook-sign_request :
      (count : ℕ) (q : Request)
      → Agrees s r now
      → sign_request s t r.endpoint_secret ≡ some q
      → handle_hook r s.hmac_sha256 now count q.headers q.body
        ≡ (after_check r (count + 1) valid, count + 1)
  unfolding sign_request
  handle_hook-sign_request count q a made = elim (Bool-cases (s.takes_url t.endpoint_url)) [
    | inl h ↦
        let same : request ≡ q = cc (rw h at made) in
        subst
          (λ (x : Request).
            handle_hook r s.hmac_sha256 now count x.headers x.body
            ≡ (after_check r (count + 1) valid, count + 1))
          same (handle_hook-signed_request count a)
    | inr h ↦ absurd (cc (rw h at made))
  ]

-- A timestamp that lies 2^63 seconds before the clock is never outside the leeway: the difference
-- overflows int64 to its least value, which abs64 leaves negative.
pub abs64-subtract_overflow :
    (now m leeway : ℕ)
    → now + m + 1 ≡ 2 ^ 63
    → exceeds (abs64 (subtract now (negsuc m))) leeway ≡ false
unfolding abs64 subtract
abs64-subtract_overflow now m leeway h =
    let wraps : ltb (now + m + 1) (2 ^ 63) ≡ false = ground arith in
    let least : eqb (2 ^ 64 - (now + m + 1) - 1 + 1) (2 ^ 63) ≡ true = ground arith in
    rw (wraps, least) refl
