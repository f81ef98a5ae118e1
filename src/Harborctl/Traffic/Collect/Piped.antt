-- ===== src/Harborctl/Traffic/Collect/Piped.antt =====
-- The two readers of cmd/harborctl/cmd/traffic.go on input that comes in one read.
use harbor_hook.Common.{String, List, [], ◌∷◌, false, ◌==◌, ◌≡◌, refl, Bool-cases, inl, inr}
use harbor_hook.Harborctl.Traffic.{TrafficConfig, Rates}
use harbor_hook.Harborctl.Traffic.Collect.{
  Console, fill, next_line, read_string, mode_of, says_yes, ask_burst, ask_common, ask_failures,
  collect_traffic_parameters, confirm_parameters, defaults, rated,
}

-- No read brings a line any more.
abbrev Drained : Console → Type 0
Drained con = con.stdin ≡ []

next_line-Drained : (lines : List String) → Drained (next_line lines []).1
unfolding fill
next_line-Drained [] = refl
next_line-Drained (line ∷ lines) = refl

read_string-Drained : (con : Console) → Drained con → Drained (read_string con).1
unfolding read_string
read_string-Drained con h = rw h (next_line-Drained con.buffered)

one_read : (lines : List String) → Drained (next_line [] (lines ∷ [])).1
unfolding fill
one_read [] = refl
one_read (line ∷ lines) = refl

module _ {F : Type 0} (r : Rates F) where
  ask_common-Drained :
      (config : TrafficConfig F) (con : Console) → Drained con → Drained (ask_common r config con).1
  unfolding ask_common
  ask_common-Drained config con h =
      let next = λ (c : Console). (read_string c).1 in
      let keep = read_string-Drained in
      let c1 = next con in
      let c2 = next c1 in
      let c3 = next c2 in
      let c4 = next c3 in
      let c5 = next c4 in
      keep (next c5) (keep c5 (keep c4 (keep c3 (keep c2 (keep c1 (keep con h))))))

  ask_burst-Drained :
      (config : TrafficConfig F) (con : Console) → Drained con → Drained (ask_burst r config con).1
  unfolding ask_burst
  ask_burst-Drained config con h = elim (Bool-cases (says_yes (read_string con).0)) [
    | inl e ↦
        let c1 = (read_string con).1 in
        let c2 = (read_string c1).1 in
        rw e (read_string-Drained c2 (read_string-Drained c1 (read_string-Drained con h)))
    | inr e ↦ rw e (read_string-Drained con h)
  ]

  ask_failures-Drained :
      (config : TrafficConfig F) (con : Console)
      → Drained con
      → Drained (ask_failures r config con).1
  unfolding ask_failures
  ask_failures-Drained config con h = elim (Bool-cases (config.mode == "good")) [
    | inl e ↦ rw e (
        ask_burst-Drained
          (record config { failure_rate = rated r (read_string con).0 config.failure_rate })
          (read_string con).1 (read_string-Drained con h))
    | inr e ↦ rw e h
  ]

  pub confirm_parameters_piped :
      (lines : List String)
      → (confirm_parameters
          (collect_traffic_parameters r (record { stdin = lines ∷ []; buffered = [] })).1).0
        ≡ false
  unfolding confirm_parameters collect_traffic_parameters read_string
  confirm_parameters_piped lines =
      let first = next_line [] (lines ∷ []) in
      let config = defaults r (mode_of first.0) in
      let common = ask_common r config first.1 in
      let rest =
        ask_failures-Drained common.0 common.1
          (ask_common-Drained config first.1 (one_read lines)) in
      rw rest refl
