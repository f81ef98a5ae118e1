-- ===== src/Metrics/Gauges.antt =====
-- Reading a gauge of internal/metrics/metrics.go behind a Set.
use harbor_hook.Common.{
  ℕ, String, List, [], ◌∷◌, Option, none, some, Bool, true, false, ◌&&◌, ◌==◌, if◌then◌else◌, ◌≡◌,
  refl, sym, ◌∙◌, Bool-cases, inl, inr, eq_iff,
}
use harbor_hook.Metrics.{set_gauge}

-- the value of a gauge for a pair of labels
abbrev pub gauge : String → String → List (String × String × ℕ) → Option ℕ
gauge topic channel [] = none
gauge topic channel ((t, c, d) ∷ rest) =
    if t == topic && c == channel then some d else gauge topic channel rest

abbrev pub is_labelled : String → String → String → String → Bool
is_labelled topic channel t c = t == topic && c == channel

and_true : (a b : Bool) → (a && b) ≡ true → (a ≡ true) × (b ≡ true)
and_true true b h = (refl, h)
and_true false b h = absurd (cc h)

-- the labels that a pair of tests found
labels_found : (u e t c : String) → (u == t && e == c) ≡ true → (u ≡ t) × (e ≡ c)
labels_found u e t c h =
    let (x, y) = and_true (u == t) (e == c) h in ((eq_iff u t).0 x, (eq_iff e c).0 y)

labels_agree : (u e t c : String) → u ≡ t → e ≡ c → (u == t && e == c) ≡ true
labels_agree u e t c x y = rw ((eq_iff u t).1 x, (eq_iff e c).1 y) refl

swapped :
    (p q : Bool) (a b : ℕ) (g : Option ℕ)
    → (p ≡ true → q ≡ true → Path Bool true false)
    → (if q then some a else if p then some b else g)
      ≡ (if p then some b else if q then some a else g)
swapped true true a b g h = absurd (cc (h refl refl))
swapped true false a b g h = refl
swapped false q a b g h = refl

twice :
    (p : Bool) (a b : ℕ) (g : Option ℕ)
    → (if p then some b else g) ≡ (if p then some b else if p then some a else g)
twice true a b g = refl
twice false a b g = refl

pub gauge-set_gauge :
    (topic channel t c : String) (depth : ℕ) (g : List (String × String × ℕ))
    → gauge topic channel (set_gauge t c depth g)
      ≡ (if t == topic && c == channel then some depth else gauge topic channel g)
gauge-set_gauge topic channel t c depth [] = refl
gauge-set_gauge topic channel t c depth ((u, e, d) ∷ rest) = elim (Bool-cases (u == t && e == c)) [
  | inl same ↦
      let (x, y) = labels_found u e t c same in
      rw (same, x, y) (twice (t == topic && c == channel) d depth (gauge topic channel rest))
  | inr other ↦
      rw (other, gauge-set_gauge topic channel t c depth rest)
        (swapped (t == topic && c == channel) (u == topic && e == channel) d depth
          (gauge topic channel rest)
          λ p q.
            let (x, y) = labels_found t c topic channel p in
            let (z, w) = labels_found u e topic channel q in
            sym (labels_agree u e t c (z ∙ sym x) (w ∙ sym y)) ∙ other)
]
