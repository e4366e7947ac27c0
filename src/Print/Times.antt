-- ===== src/Print/Times.antt =====
-- src/print.cpp `collectPerf`: what several times do to one line of the summary.
use dpcpp_trace.Prelude.{
  ℕ, ◌+◌, ◌^◌, ◌≤◌, ◌<◌, ◌≡◌, refl, ◌∙◌, ◌⊎◌, inl, inr, Bool, true, false, List, [], ◌∷◌, arith,
  ltb, if◌then◌else◌, length, All,
}
use dpcpp_trace.Print.{PerformanceSummary, fresh, add_duration}

abbrev pub total : List ℕ → ℕ
total [] = 0
total (d ∷ ds) = d + total ds

abbrev pub Among : ℕ → List ℕ → Type 0
Among x [] = ⊥
Among x (d ∷ ds) = (x ≡ d) ⊎ Among x ds

-- The times, one after the other.
unfoldable pub added : List ℕ → PerformanceSummary → PerformanceSummary
added [] ps = ps
added (d ∷ ds) ps = added ds (add_duration d ps)

-- What a line and more times make together.
pub record Extends (ds : List ℕ) (ps ps' : PerformanceSummary) : Type 0 where
  pub counted : ps'.total_calls ≡ ps.total_calls + length ds
  pub summed : ps'.total_duration ≡ ps.total_duration + total ds
  pub lower : ps'.min_duration ≤ ps.min_duration
  pub least : All (λ d. ps'.min_duration ≤ d) ds
  pub least_met : (ps'.min_duration ≡ ps.min_duration) ⊎ Among ps'.min_duration ds
  pub upper : ps.max_duration ≤ ps'.max_duration
  pub greatest : All (λ d. d ≤ ps'.max_duration) ds
  pub greatest_met : (ps'.max_duration ≡ ps.max_duration) ⊎ Among ps'.max_duration ds

either : (b : Bool) (x y : ℕ) → ((if b then x else y) ≡ y) ⊎ Among (if b then x else y) (x ∷ [])
either true x y = inr (inl refl)
either false x y = inl refl

-- One time more.
pub add_duration_parts :
    (d : ℕ) (ps : PerformanceSummary)
    → ps.total_calls + 1 < 2 ^ 64
    → ps.total_duration + d < 2 ^ 64
    → Extends (d ∷ []) ps (add_duration d ps)
unfolding add_duration
add_duration_parts d ps few short = record {
  counted = omega arith;
  summed = omega arith;
  lower = ground arith;
  least = ground arith;
  least_met = either (ltb d ps.min_duration) d ps.min_duration;
  upper = ground arith;
  greatest = ground arith;
  greatest_met = either (ltb ps.max_duration d) d ps.max_duration;
}

-- A value that was met among one more time.
met :
    {x y z d : ℕ} (ds : List ℕ)
    → (y ≡ x) ⊎ Among y (d ∷ [])
    → (z ≡ y) ⊎ Among z ds
    → (z ≡ x) ⊎ Among z (d ∷ ds)
met ds first (inr later) = inr (inr later)
met ds (inl e) (inl e') = inl (e' ∙ e)
met ds (inr (inl e)) (inl e') = inr (inl (e' ∙ e))
met ds (inr (inr e)) (inl e') = absurd e

Extends-cons :
    (d : ℕ) (ds : List ℕ) (p q r : PerformanceSummary)
    → Extends (d ∷ []) p q
    → Extends ds q r
    → Extends (d ∷ ds) p r
Extends-cons d ds p q r a b = record {
  counted = omega (arith, a.counted, b.counted);
  summed = omega (arith, a.summed, b.summed);
  lower = omega (arith, a.lower, b.lower);
  least = (omega (arith, a.least.0, b.lower), b.least);
  least_met = met ds a.least_met b.least_met;
  upper = omega (arith, a.upper, b.upper);
  greatest = (omega (arith, a.greatest.0, b.upper), b.greatest);
  greatest_met = met ds a.greatest_met b.greatest_met;
}

pub added-Extends :
    (ds : List ℕ) (ps : PerformanceSummary)
    → ps.total_calls + length ds < 2 ^ 64
    → ps.total_duration + total ds < 2 ^ 64
    → Extends ds ps (added ds ps)
unfolding added
added-Extends [] ps few short = record {
  counted = omega arith;
  summed = omega arith;
  lower = omega arith;
  least = tt;
  least_met = inl refl;
  upper = omega arith;
  greatest = tt;
  greatest_met = inl refl;
}
added-Extends (d ∷ ds) ps few short =
    let first = add_duration_parts d ps (omega arith) (omega arith) in
    Extends-cons d ds ps (add_duration d ps) (added ds (add_duration d ps)) first (
      added-Extends ds (add_duration d ps) (omega (arith, first.counted))
        (omega (arith, first.summed)))

-- The first time of a function is its least and its greatest.
pub fresh_parts :
    (d : ℕ)
    → d < 2 ^ 64
    → ((add_duration d fresh).min_duration ≡ d) × ((add_duration d fresh).max_duration ≡ d)
unfolding add_duration
fresh_parts d small = ground arith
