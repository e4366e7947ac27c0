-- ===== src/Print/Columns.antt =====
-- src/print.cpp `collectPerf`: each line of the summary is about the calls of one function.
use dpcpp_trace.Prelude.{
  ℕ, ◌^◌, ◌≤◌, ◌<◌, ◌≡◌, refl, ◌∙◌, ◌⊎◌, inl, inr, Option, none, some, List, [], ◌∷◌, arith, ◌==◌,
  if◌then◌else◌, ==_iff, Bool-cases, length, All,
}
use mathlib.Core.Path.{subst}
use dpcpp_trace.Trace.Api.{ApiCall}
use dpcpp_trace.Print.{
  PerformanceSummary, fresh, duration, add_duration, collect_perf, collect_all, average,
}
use dpcpp_trace.Print.Times.{total, Among, added, add_duration_parts, added-Extends, fresh_parts}
use dpcpp_trace.Print.Summary.{
  sum_calls, sum_durations, all_durations, Bounded, duration_small, average-Bounded,
  collect_all-sums,
}

-- The times of the calls of one function, in order.
abbrev pub times_of : ℕ → List ApiCall → List ℕ
times_of f [] = []
times_of f (r ∷ rs) =
    let rest = times_of f rs in if r.function_id == f then duration r ∷ rest else rest

-- The line of a function.
abbrev pub line_of : ℕ → List (ℕ × PerformanceSummary) → Option PerformanceSummary
line_of f [] = none
line_of f ((g, ps) ∷ m) = if g == f then some ps else line_of f m

-- The line tells how many times there are, their sum, the least and the greatest of them, and an
-- average between these two.
pub record Summarises (ds : List ℕ) (ps : PerformanceSummary) : Type 0 where
  pub counted : ps.total_calls ≡ length ds
  pub summed : ps.total_duration ≡ total ds
  pub least : Among ps.min_duration ds × All (λ d. ps.min_duration ≤ d) ds
  pub greatest : Among ps.max_duration ds × All (λ d. d ≤ ps.max_duration) ds
  pub between : (ps.min_duration ≤ average ps) × (average ps ≤ ps.max_duration)

-- A function that was called has its line, and no other has one.
abbrev pub IsLineOf : List ℕ → Option PerformanceSummary → Type 0
IsLineOf [] line = line ≡ none
IsLineOf (d ∷ ds) line = (ps : PerformanceSummary) × (line ≡ some ps) × Summarises (d ∷ ds) ps

-- What the times of a function make of its line.
or_fresh : Option PerformanceSummary → PerformanceSummary
or_fresh none = fresh
or_fresh (some ps) = ps

added_to : List ℕ → Option PerformanceSummary → Option PerformanceSummary
added_to [] line = line
added_to (d ∷ ds) line = some (added (d ∷ ds) (or_fresh line))

line_of-collect_perf :
    (f g d : ℕ) (m : List (ℕ × PerformanceSummary))
    → line_of f (collect_perf g d m)
      ≡ (if g == f then some (add_duration d (or_fresh (line_of f m))) else line_of f m)
unfolding collect_perf or_fresh
line_of-collect_perf f g d [] = refl
line_of-collect_perf f g d ((h, ps) ∷ m) =
    ground (arith, ==_iff h g, ==_iff h f, ==_iff g f, line_of-collect_perf f g d m)

line_of-collect_all :
    (f : ℕ) (rs : List ApiCall) (m : List (ℕ × PerformanceSummary))
    → line_of f (collect_all rs m) ≡ added_to (times_of f rs) (line_of f m)
unfolding collect_all added_to added or_fresh
line_of-collect_all f [] m = refl
line_of-collect_all f (r ∷ rs) m =
    let ih = line_of-collect_all f rs (collect_perf r.function_id (duration r) m) in
    let step = line_of-collect_perf f r.function_id (duration r) m in
    elim (Bool-cases (r.function_id == f)) [
      | inl e ↦ rw e (
          ih
          ∙ rw (step, e)
              (added_to-some (times_of f rs) (add_duration (duration r) (or_fresh (line_of f m)))))
      | inr e ↦ rw e (ih ∙ rw (step, e) refl)
    ]
  where
    added_to-some :
        (ds : List ℕ) (ps : PerformanceSummary) → added_to ds (some ps) ≡ some (added ds ps)
    added_to-some [] ps = refl
    added_to-some (d ∷ ds) ps = refl

times_of_bounds :
    (f : ℕ) (rs : List ApiCall)
    → (length (times_of f rs) ≤ length rs) × (total (times_of f rs) ≤ all_durations rs)
times_of_bounds f [] = omega arith
times_of_bounds f (r ∷ rs) = ground (arith, times_of_bounds f rs)

times_of_small : (f : ℕ) (rs : List ApiCall) → All (λ d. d < 2 ^ 64) (times_of f rs)
times_of_small f [] = tt
times_of_small f (r ∷ rs) = elim (Bool-cases (r.function_id == f)) [
  | inl e ↦ rw e (duration_small r, times_of_small f rs)
  | inr e ↦ rw e (times_of_small f rs)
]

Bounded-line_of :
    (f : ℕ) (m : List (ℕ × PerformanceSummary)) (ps : PerformanceSummary)
    → All Bounded m
    → line_of f m ≡ some ps
    → Bounded (f, ps)
Bounded-line_of f [] ps h e = absurd (cc)
Bounded-line_of f ((g, qs) ∷ m) ps (h, hs) e = elim (Bool-cases (g == f)) [
  | inl same ↦ let found : qs ≡ ps = ground arith in subst (λ q. Bounded (f, q)) found h
  | inr other ↦ Bounded-line_of f m ps hs (rw other at e)
]

IsLineOf-added :
    (ds : List ℕ) (line : Option PerformanceSummary)
    → line ≡ added_to ds none
    → length ds < 2 ^ 64
    → total ds < 2 ^ 64
    → All (λ d. d < 2 ^ 64) ds
    → ((ps : PerformanceSummary)
        → line ≡ some ps
        → (ps.min_duration ≤ average ps) × (average ps ≤ ps.max_duration))
    → IsLineOf ds line
unfolding added_to or_fresh added
IsLineOf-added [] line e few short small h = e
IsLineOf-added (d ∷ ds) line e few short (small, _) h =
    let first = add_duration_parts d fresh (omega arith) (omega arith) in
    let (lo, hi) = fresh_parts d small in
    let all =
      added-Extends ds (add_duration d fresh) (omega (arith, first.counted))
        (omega (arith, first.summed)) in
    (
      added ds (add_duration d fresh),
      e,
      record {
        counted = omega (arith, first.counted, all.counted);
        summed = omega (arith, first.summed, all.summed);
        least = (either_met ds lo all.least_met, (omega (arith, all.lower, lo), all.least));
        greatest =
            (either_met ds hi all.greatest_met, (omega (arith, all.upper, hi), all.greatest));
        between = h (added ds (add_duration d fresh)) e;
      },
    )
  where
    either_met : {x y d : ℕ} (ds : List ℕ) → x ≡ d → (y ≡ x) ⊎ Among y ds → Among y (d ∷ ds)
    either_met ds e (inl e') = inl (e' ∙ e)
    either_met ds e (inr later) = inr later

-- Of fewer than 2 ^ 64 records, whose times add up to less than 2 ^ 64, the summary counts every one
-- once and all of their time. A function has a line if and only if it was called; and its line tells
-- the number of its calls, the sum of their times, the least and the greatest of these times, and an
-- average that lies between the two.
pub collect_all-IsLineOf :
    (rs : List ApiCall) (f : ℕ)
    → length rs < 2 ^ 64
    → all_durations rs < 2 ^ 64
    → (sum_calls (collect_all rs []) ≡ length rs)
      × (sum_durations (collect_all rs []) ≡ all_durations rs)
      × IsLineOf (times_of f rs) (line_of f (collect_all rs []))
collect_all-IsLineOf rs f few short =
    let (calls, times, bounds) = collect_all-sums rs few short in
    let (fewer, shorter) = times_of_bounds f rs in
    (
      calls,
      times,
      IsLineOf-added (times_of f rs) (line_of f (collect_all rs [])) (line_of-collect_all f rs [])
          (omega arith) (omega arith) (times_of_small f rs)
          (λ ps e. average-Bounded (f, ps) (Bounded-line_of f (collect_all rs []) ps bounds e)),
    )
