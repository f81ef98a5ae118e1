-- ===== src/Harborctl/Traffic/Combined.antt =====
-- combineTrafficSummaries of cmd/harborctl/cmd/traffic.go.
use harbor_hook.Common.{
  ◌+◌, Bool, true, false, ltb, none, some, ◌≡◌, refl, arith, Bool-cases, inl, inr,
}
use harbor_hook.Harborctl.Traffic.{Rates, TrafficSummary, combine_traffic_summaries}
use harbor_hook.Harborctl.Traffic.Phase.Counting.{IsConsistent}

-- the summary of a phase of normal traffic, and that of a burst
abbrev pub IsNormal : {F : Type 0} → TrafficSummary F → Type 0
IsNormal s = (s.burst_requests ≡ 0) × (s.burst_duration ≡ 0)

abbrev pub IsBurst : {F : Type 0} → TrafficSummary F → Type 0
IsBurst s = (s.normal_requests ≡ 0) × (s.normal_duration ≡ 0)

-- a summary with no burst
alone :
    {F : Type 0} {n : TrafficSummary F} (flag : Bool) {x y : F}
    → IsConsistent n
    → IsNormal n
    → IsConsistent (record n {
      burst_requests = 0;
      burst_duration = 0;
      burst_rps = x;
      overall_rps = y;
      had_burst = flag;
    })
alone flag h quiet = record {
  endpoints = h.endpoints;
  answers = h.answers;
  phases = omega (arith, h.phases, quiet.0);
  durations = omega (arith, h.durations, quiet.1);
}

module _ {F : Type 0} (r : Rates F) (n b : TrafficSummary F) where
  pub combine_traffic_summaries-IsConsistent :
      IsConsistent n
      → IsConsistent b
      → IsNormal n
      → IsBurst b
      → IsConsistent (combine_traffic_summaries r n (some b) true)
        × ((combine_traffic_summaries r n (some b) true).total_requests
            ≡ n.total_requests + b.total_requests)
  unfolding combine_traffic_summaries
  combine_traffic_summaries-IsConsistent hn hb quiet loud =
      elim (Bool-cases (ltb 0 (n.total_duration + b.total_duration))) [
        | inl e ↦ rw e (
          record {
            endpoints = omega (arith, hn.endpoints, hb.endpoints);
            answers = omega (arith, hn.answers, hb.answers);
            phases = omega (arith, hn.phases, hb.phases);
            durations = omega (arith, hn.durations, hb.durations);
          },
          refl,
        )
        | inr e ↦ rw e (
          record {
            endpoints = omega (arith, hn.endpoints, hb.endpoints);
            answers = omega (arith, hn.answers, hb.answers);
            phases = omega (arith, hn.phases, hb.phases);
            durations = omega (arith, hn.durations, hb.durations);
          },
          refl,
        )
      ]

module _ {F : Type 0} (r : Rates F) (n : TrafficSummary F) where
  pub combine_traffic_summaries_alone :
      (flag : Bool)
      → IsConsistent n
      → IsNormal n
      → IsConsistent (combine_traffic_summaries r n none flag)
  unfolding combine_traffic_summaries
  combine_traffic_summaries_alone true h quiet = elim (Bool-cases (ltb 0 n.total_duration)) [
    | inl e ↦ rw e (alone true h quiet)
    | inr e ↦ rw e (alone true h quiet)
  ]
  combine_traffic_summaries_alone false h quiet = elim (Bool-cases (ltb 0 n.total_duration)) [
    | inl e ↦ rw e (alone false h quiet)
    | inr e ↦ rw e (alone false h quiet)
  ]
