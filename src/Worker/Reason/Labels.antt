-- ===== src/Worker/Reason/Labels.antt =====
-- The labels that classifyReason of cmd/worker/main.go gives to the metrics.
use harbor_hook.Common.{
  ℕ, ◌≤◌, ◌<◌, String, Bool, true, false, ◌||◌, leb, eqb, if◌then◌else◌, ◌≡◌, refl, ◌≢◌, arith,
  subst,
}
use harbor_hook.Encoding.Words.{to_lower, contains}
use harbor_hook.Worker.{Answer, failed, replied}
use harbor_hook.Worker.Reason.{classify_reason}

-- what a label says of the answer
pub data Explains : String → Answer → Type 0 where
  timeout : {e : String} → contains (to_lower e) "timeout" ≡ true → Explains "timeout" (failed e)
  connection_refused :
      {e : String}
      → contains (to_lower e) "timeout" ≡ false
      → contains (to_lower e) "connection refused" ≡ true
      → Explains "connection_refused" (failed e)
  dns_error :
      {e : String}
      → contains (to_lower e) "timeout" ≡ false
      → contains (to_lower e) "connection refused" ≡ false
      → (contains (to_lower e) "no such host" || contains (to_lower e) "dns") ≡ true
      → Explains "dns_error" (failed e)
  network :
      {e : String}
      → contains (to_lower e) "timeout" ≡ false
      → contains (to_lower e) "connection refused" ≡ false
      → (contains (to_lower e) "no such host" || contains (to_lower e) "dns") ≡ false
      → Explains "network" (failed e)
  server_error : {s : ℕ} → 500 ≤ s → Explains "http_5xx" (replied s)
  too_many : Explains "http_429" (replied 429)
  client_error : {s : ℕ} → 400 ≤ s → s < 500 → s ≢ 429 → Explains "http_4xx" (replied s)
  other : {s : ℕ} → s < 400 → Explains "other" (replied s)

error_label :
    (e : String) (a b c : Bool)
    → contains (to_lower e) "timeout" ≡ a
    → contains (to_lower e) "connection refused" ≡ b
    → (contains (to_lower e) "no such host" || contains (to_lower e) "dns") ≡ c
    → Explains
        (if a
          then "timeout"
          else if b
          then "connection_refused"
          else if c
          then "dns_error"
          else "network")
        (failed e)
error_label e true b c h k l = timeout h
error_label e false true c h k l = connection_refused h k
error_label e false false true h k l = dns_error h k l
error_label e false false false h k l = network h k l

status_label :
    (s : ℕ) (a b c : Bool)
    → leb 500 s ≡ a
    → eqb s 429 ≡ b
    → leb 400 s ≡ c
    → Explains
        (if a then "http_5xx" else if b then "http_429" else if c then "http_4xx" else "other")
        (replied s)
status_label s true b c h k l = server_error (ground arith)
status_label s false true c h k l =
    let same : 429 ≡ s = ground arith in subst (λ n. Explains "http_429" (replied n)) same too_many
status_label s false false true h k l =
    client_error (ground arith) (ground arith) (λ e. absurd (ground arith))
status_label s false false false h k l = other (ground arith)

-- The label of classifyReason is one of eight and explains the answer: for an error, what its text
-- in lower case contains, in the order of the tests, or network where it contains none of that; for
-- a status, its range, with 429 apart from the other client errors, and other below 400.
pub classify_reason-Explains : (a : Answer) → Explains (classify_reason a) a
unfolding classify_reason
classify_reason-Explains (failed e) = error_label e _ _ _ refl refl refl
classify_reason-Explains (replied s) = status_label s _ _ _ refl refl refl
