-- ===== src/Config.antt =====
-- internal/config/config.go: getenv and its variants over the environment as a function, with the parsers
-- of time.Duration, bool and float64 as parameters, and parseBackoffSchedule.
pub mod Schedule
pub mod Loading
use Prim.Native.String.{[], ◌∷◌, ◌++◌, len, slice}
use Prim.Native.Char.{code}
use harbor_hook.Common.{
  ℕ, zero, suc, ◌*◌, String, List, [], ◌∷◌, Bool, true, false, ◌||◌, ◌==◌, eqb, if◌then◌else◌,
  Option, none, some, Result, ok, err,
}
use harbor_hook.Common.Int.{ℤ, pos, negsuc}
use harbor_hook.Encoding.Decimal.{parse_int}

-- os.Getenv
abbrev pub Environment : Type 0
Environment = String → String

-- getenv
unfoldable pub getenv : Environment → String → String → String
getenv env key def = if env key == "" then def else env key

-- getenvInt, getenvFloat, getenvBool and getenvDuration, which differ in the parser alone
unfoldable pub getenv_parsed : {A : Type 0} → (String → Result A) → Environment → String → A → A
getenv_parsed parse env key def =
    if env key == "" then def else elim (parse (env key)) [ ok a ↦ a | err e ↦ def ]

-- getenvInt
abbrev pub getenv_int : Environment → String → ℤ → ℤ
getenv_int = getenv_parsed parse_int

abbrev attach : List String → String → List String
attach [] piece = piece ∷ []
attach (p ∷ ps) piece = (piece ++ p) ∷ ps

-- strings.Split(s, ",")
unfoldable pub split_commas : String → List String
split_commas [] = "" ∷ []
split_commas (c ∷ s) =
    let rest = split_commas s in if eqb (code c) 44 then "" ∷ rest else attach rest (c ∷ [])

-- the white space of ASCII
abbrev is_space : ℕ → Bool
is_space n = eqb n 32 || eqb n 9 || eqb n 10 || eqb n 11 || eqb n 12 || eqb n 13

trim_left : String → String
trim_left [] = []
trim_left (c ∷ s) = let rest = trim_left s in if is_space (code c) then rest else c ∷ s

trim_right : String → String
trim_right [] = []
trim_right (c ∷ s) =
    let rest = trim_right s in
    if is_space (code c) then (if rest == "" then "" else c ∷ rest) else c ∷ rest

-- strings.TrimSpace
unfoldable pub trim_space : String → String
unfolding trim_left trim_right
trim_space s = trim_right (trim_left s)

-- in nanoseconds: 1s, 4s, 16s, 1m, 4m, 10m
abbrev pub default_schedule : List ℕ
default_schedule =
    1_000_000_000 ∷ 4_000_000_000 ∷ 16_000_000_000 ∷ 60_000_000_000 ∷ 240_000_000_000
    ∷ 600_000_000_000 ∷ []

abbrev kept : Result ℕ → List ℕ → List ℕ
kept (ok d) rest = d ∷ rest
kept (err e) rest = rest

module _ (parse_duration : String → Result ℕ) where
  -- the loop of parseBackoffSchedule over the parts
  unfoldable pub durations : List String → List ℕ
  unfolding trim_space
  durations [] = []
  durations (part ∷ parts) = kept (parse_duration (trim_space part)) (durations parts)

  abbrev pub or_default : List ℕ → List ℕ
  or_default [] = default_schedule
  or_default (d ∷ ds) = d ∷ ds

  -- parseBackoffSchedule
  unfoldable pub parse_backoff_schedule : String → List ℕ
  unfolding durations split_commas
  parse_backoff_schedule schedule =
      if schedule == "" then default_schedule else or_default (durations (split_commas schedule))
