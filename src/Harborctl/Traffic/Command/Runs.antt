-- ===== src/Harborctl/Traffic/Command/Runs.antt =====
-- Whole runs of cmd/harborctl/cmd/traffic.go: what is printed at the end, and input that comes from a pipe.
use harbor_hook.Common.{
  ℕ, String, List, [], ◌∷◌, Bool, true, false, Option, none, some, ok, ◌≡◌, refl, sym, subst, ap,
  ◌∙◌, Bool-cases, inl, inr,
}
use harbor_hook.Common.Exec.{Exec, pure, branch}
use harbor_hook.Harborctl.{Remote, Kit}
use harbor_hook.Harborctl.Settings.{Options}
use harbor_hook.Harborctl.Traffic.{TrafficConfig, Rates, TrafficSummary, combine_traffic_summaries}
use harbor_hook.Harborctl.Traffic.Collect.Piped.{confirm_parameters_piped}
use harbor_hook.Harborctl.Traffic.Phase.{Clock, normal, burst, generate_traffic_phase}
use harbor_hook.Harborctl.Traffic.Phase.Counting.{
  IsConsistent, bind-eq-ok, phase-Ended, generate_traffic_phase-IsConsistent,
}
use harbor_hook.Harborctl.Traffic.Combined.{
  IsNormal, IsBurst, combine_traffic_summaries-IsConsistent, combine_traffic_summaries_alone,
}
use harbor_hook.Harborctl.Traffic.Command.{
  LookPath, cancelled, combined, burst_phase, generate_traffic_with_progress, run_generate_traffic,
}

module _ {S A : Type 0} where
  branch-true : (b : Bool) (m n : Exec S A) (s : S) → b ≡ true → branch b m n s ≡ m s
  unfolding branch
  branch-true true m n s h = refl
  branch-true false m n s h = absurd (cc h)

  branch-false : (b : Bool) (m n : Exec S A) (s : S) → b ≡ false → branch b m n s ≡ n s
  unfolding branch
  branch-false true m n s h = absurd (cc h)
  branch-false false m n s h = refl

module _ {F S : Type 0} (rates : Rates F) (clocks : Clock × Clock) (r : Remote S) (k : Kit)
    (g : Options) (fuel : ℕ) where
  -- Where all of standard input comes in one read, as from a pipe, the generation of traffic is
  -- cancelled and no request is sent, whatever the input answers to the last question: the reader of
  -- the parameters takes the whole input, and the reader of the confirmation finds none.
  pub run_generate_traffic_piped :
      (look_path : LookPath) (lines : List String) (s : S)
      → run_generate_traffic rates clocks r k g fuel look_path
          (record { stdin = lines ∷ []; buffered = [] })
          s
        ≡ (ok cancelled, s)
  unfolding run_generate_traffic branch pure
  run_generate_traffic_piped look_path lines s = rw (confirm_parameters_piped rates lines) refl

  normal-IsNormal :
      (config : TrafficConfig F) (token : String) (s v : S) (n : TrafficSummary F)
      → generate_traffic_phase rates clocks.0 r k g config token config.volume config.duration
          normal fuel s
        ≡ (ok (some n), v)
      → IsNormal n
  normal-IsNormal config token s v n e =
      let (c, t, ran, same) =
        phase-Ended rates clocks.0 r k g config token config.volume config.duration normal fuel s v
          n e in
      subst IsNormal (sym same) (refl, refl)

  burst-IsBurst :
      (config : TrafficConfig F) (token : String) (s v : S) (b : TrafficSummary F)
      → generate_traffic_phase rates clocks.1 r k g config token config.burst_volume
          config.burst_duration burst fuel s
        ≡ (ok (some b), v)
      → IsBurst b
  burst-IsBurst config token s v b e =
      let (c, t, ran, same) =
        phase-Ended rates clocks.1 r k g config token config.burst_volume config.burst_duration
          burst fuel s v b e in
      subst IsBurst (sym same) (refl, refl)

  with_burst-IsConsistent :
      (config : TrafficConfig F) (n : TrafficSummary F) (o : Option (TrafficSummary F)) (t v : S)
      (summary : TrafficSummary F)
      → config.burst ≡ true
      → IsConsistent n
      → IsNormal n
      → ((b : TrafficSummary F) → o ≡ some b → IsConsistent b × IsBurst b)
      → pure {S = S} (combined rates clocks r k g fuel config n o) t ≡ (ok (some summary), v)
      → IsConsistent summary
  unfolding pure
  with_burst-IsConsistent config n none t v summary on h quiet loud e = absurd (cc e)
  with_burst-IsConsistent config n (some b) t v summary on h quiet loud e =
      let same : combine_traffic_summaries rates n (some b) config.burst ≡ summary = cc e in
      let (hb, is_burst) = loud b refl in
      subst IsConsistent (ap (combine_traffic_summaries rates n (some b)) (sym on) ∙ same)
        (combine_traffic_summaries-IsConsistent rates n b h hb quiet is_burst).0

  burst_phase-IsConsistent :
      (config : TrafficConfig F) (token : String) (o : Option (TrafficSummary F)) (s v : S)
      (summary : TrafficSummary F)
      → ((n : TrafficSummary F) → o ≡ some n → IsConsistent n × IsNormal n)
      → burst_phase rates clocks r k g fuel config token o s ≡ (ok (some summary), v)
      → IsConsistent summary
  unfolding burst_phase pure
  burst_phase-IsConsistent config token none s v summary known e = absurd (cc e)
  burst_phase-IsConsistent config token (some n) s v summary known e =
      let (h, quiet) = known n refl in
      elim (Bool-cases config.burst) [
        | inl on ↦
            let (o, t, ran, left) =
              bind-eq-ok
                (generate_traffic_phase rates clocks.1 r k g config token config.burst_volume
                  config.burst_duration burst fuel)
                (λ b. pure (combined rates clocks r k g fuel config n b)) s v (some summary)
                (sym (branch-true config.burst _ _ s on) ∙ e) in
            with_burst-IsConsistent config n o t v summary on h quiet
              (λ b is_b.
                let ended = ran ∙ ap (λ x. (ok x, t)) is_b in
                (
                  generate_traffic_phase-IsConsistent rates clocks.1 r k g config token
                      config.burst_volume config.burst_duration burst fuel s t b ended,
                  burst-IsBurst config token s t b ended,
                ))
              left
        | inr off ↦
            let left = sym (branch-false config.burst _ _ s off) ∙ e in
            let same : combine_traffic_summaries rates n none config.burst ≡ summary = cc left in
            subst IsConsistent same (combine_traffic_summaries_alone rates n config.burst h quiet)
      ]

  -- The summary that a generation of traffic returns is consistent, whatever the service answers,
  -- with or without a burst: the requests to the good and to the bad endpoint, those that succeeded
  -- and those that failed, and those of the two phases each add up to the total, and the durations
  -- of the phases to the total duration.
  pub generate_traffic_with_progress-IsConsistent :
      (config : TrafficConfig F) (token : String) (s v : S) (summary : TrafficSummary F)
      → generate_traffic_with_progress rates clocks r k g fuel config token s
        ≡ (ok (some summary), v)
      → IsConsistent summary
  unfolding generate_traffic_with_progress
  generate_traffic_with_progress-IsConsistent config token s v summary e =
      let (o, t, ran, left) =
        bind-eq-ok
          (generate_traffic_phase rates clocks.0 r k g config token config.volume config.duration
            normal fuel)
          (burst_phase rates clocks r k g fuel config token) s v (some summary) e in
      burst_phase-IsConsistent config token o t v summary
        (λ n is_n.
          let ended = ran ∙ ap (λ x. (ok x, t)) is_n in
          (
            generate_traffic_phase-IsConsistent rates clocks.0 r k g config token config.volume
                config.duration normal fuel s t n ended,
            normal-IsNormal config token s t n ended,
          ))
        left
