-- ===== src/Print/Summary.antt =====
-- The sums of the summary's columns, and how they bound each other.
use dpcpp_trace.Prelude.{
  ℕ, ◌+◌, ◌*◌, ◌%◌, ◌^◌, ◌≤◌, ◌<◌, ◌≡◌, refl, inl, inr, List, [], ◌∷◌, arith, ltb, ◌==◌,
  if◌then◌else◌, lt→ltb, le→ltb, Bool-cases, length, All,
}
use native.Mathlib.Decide.{dec_le}
use native.Mathlib.Nat.{mul-le-mul_left, le-div_iff_mul-le, div-le_of_le-mul}
use dpcpp_trace.Trace.Api.{ApiCall}
use dpcpp_trace.Print.{
  PerformanceSummary, fresh, duration, add_duration, collect_perf, collect_all, average,
}

abbrev pub sum_calls : List (ℕ × PerformanceSummary) → ℕ
sum_calls [] = 0
sum_calls ((g, ps) ∷ m) = ps.total_calls + sum_calls m

abbrev pub sum_durations : List (ℕ × PerformanceSummary) → ℕ
sum_durations [] = 0
sum_durations ((g, ps) ∷ m) = ps.total_duration + sum_durations m

abbrev pub all_durations : List ApiCall → ℕ
all_durations [] = 0
all_durations (r ∷ rs) = duration r + all_durations rs

-- There were calls, and their times lie between the least and the greatest.
abbrev pub Bounded : ℕ × PerformanceSummary → Type 0
Bounded (g, ps) =
    (0 < ps.total_calls)
    × (ps.total_calls * ps.min_duration ≤ ps.total_duration)
    × (ps.total_duration ≤ ps.total_calls * ps.max_duration)

pub duration_small : (r : ApiCall) → duration r < 2 ^ 64
unfolding duration
duration_small r = omega arith

times_least : (c t m d : ℕ) → c * m ≤ t → (c + 1) * (if ltb d m then d else m) ≤ t + d
times_least c t m d h = elim (dec_le m d) [
  | yes p ↦
      let step : (c + 1) * m ≡ c * m + m = omega arith in rw (le→ltb d m p, step) (omega arith)
  | no p ↦
      let step : (c + 1) * d ≡ c * d + d = omega arith in
      let less : c * d ≤ c * m = mul-le-mul_left c (omega arith) in
      rw (lt→ltb d m (omega arith), step) (omega arith)
]

times_greatest : (c t m d : ℕ) → t ≤ c * m → t + d ≤ (c + 1) * (if ltb m d then d else m)
times_greatest c t m d h = elim (dec_le d m) [
  | yes p ↦
      let step : (c + 1) * m ≡ c * m + m = omega arith in rw (le→ltb m d p, step) (omega arith)
  | no p ↦
      let step : (c + 1) * d ≡ c * d + d = omega arith in
      let less : c * m ≤ c * d = mul-le-mul_left c (omega arith) in
      rw (lt→ltb m d (omega arith), step) (omega arith)
]

fresh-Bounded : (f d : ℕ) → d < 2 ^ 64 → Bounded (f, add_duration d fresh)
unfolding add_duration
fresh-Bounded f d h = ground arith

add_duration-Bounded :
    (g d : ℕ) (ps : PerformanceSummary)
    → ps.total_calls + 1 < 2 ^ 64
    → ps.total_duration + d < 2 ^ 64
    → Bounded (g, ps)
    → Bounded (g, add_duration d ps)
unfolding add_duration
add_duration-Bounded g d ps few short (some_calls, least, greatest) =
    let calls : (ps.total_calls + 1) % 2 ^ 64 ≡ ps.total_calls + 1 = omega arith in
    let total : (ps.total_duration + d) % 2 ^ 64 ≡ ps.total_duration + d = omega arith in
    rw (calls, total)
      (
        omega arith,
        times_least ps.total_calls ps.total_duration ps.min_duration d least,
        times_greatest ps.total_calls ps.total_duration ps.max_duration d greatest,
      )

-- The map after `n` calls of `used` microseconds in all.
abbrev pub Counts : ℕ → ℕ → List (ℕ × PerformanceSummary) → Type 0
Counts n used m = (sum_calls m ≡ n) × (sum_durations m ≡ used) × All Bounded m

added :
    (d : ℕ) (ps : PerformanceSummary)
    → ps.total_calls + 1 < 2 ^ 64
    → ps.total_duration + d < 2 ^ 64
    → ((add_duration d ps).total_calls ≡ ps.total_calls + 1)
      × ((add_duration d ps).total_duration ≡ ps.total_duration + d)
unfolding add_duration
added d ps few short = (omega arith, omega arith)

collect_perf-Counts :
    (f d n used : ℕ) (m : List (ℕ × PerformanceSummary))
    → n + 1 < 2 ^ 64
    → used + d < 2 ^ 64
    → Counts n used m
    → Counts (n + 1) (used + d) (collect_perf f d m)
unfolding collect_perf
collect_perf-Counts f d n used [] few short (c, t, b) =
    let (calls, total) = added d fresh (omega arith) (omega arith) in
    (omega (arith, c, calls), omega (arith, t, total), (fresh-Bounded f d (omega arith), tt))
collect_perf-Counts f d n used ((g, ps) ∷ m) few short (c, t, (b, bs)) =
    let (calls, total) = added d ps (omega (arith, c)) (omega (arith, t)) in
    let (later, time, bounds) =
      collect_perf-Counts f d (sum_calls m) (sum_durations m) m (omega (arith, c))
        (omega (arith, t)) (refl, refl, bs) in
    elim (Bool-cases (g == f)) [
      | inl e ↦ rw e (
        omega (arith, c, calls),
        omega (arith, t, total),
        (add_duration-Bounded g d ps (omega (arith, c)) (omega (arith, t)) b, bs),
      )
      | inr e ↦ rw e (omega (arith, c, later), omega (arith, t, time), (b, bounds))
    ]

collect_all-Counts :
    (rs : List ApiCall) (n used : ℕ) (m : List (ℕ × PerformanceSummary))
    → n + length rs < 2 ^ 64
    → used + all_durations rs < 2 ^ 64
    → Counts n used m
    → Counts (n + length rs) (used + all_durations rs) (collect_all rs m)
unfolding collect_all
collect_all-Counts [] n used m few short (c, t, b) = (omega arith, omega arith, b)
collect_all-Counts (r ∷ rs) n used m few short h =
    let first =
      collect_perf-Counts r.function_id (duration r) n used m (omega arith) (omega arith) h in
    let (c, t, b) =
      collect_all-Counts rs (n + 1) (used + duration r) (collect_perf r.function_id (duration r) m)
        (omega arith) (omega arith) first in
    (omega (arith, c), omega (arith, t), b)

pub average-Bounded :
    (e : ℕ × PerformanceSummary)
    → Bounded e
    → (e.1.min_duration ≤ average e.1) × (average e.1 ≤ e.1.max_duration)
unfolding average
average-Bounded (g, ps) (some_calls, least, greatest) = (
  (le-div_iff_mul-le some_calls).1 (omega (arith, least)),
  div-le_of_le-mul ps.total_calls greatest,
)

-- The sums of all columns.
pub collect_all-sums :
    (rs : List ApiCall)
    → length rs < 2 ^ 64
    → all_durations rs < 2 ^ 64
    → (sum_calls (collect_all rs []) ≡ length rs)
      × (sum_durations (collect_all rs []) ≡ all_durations rs)
      × All Bounded (collect_all rs [])
collect_all-sums rs few short =
    let (c, t, b) = collect_all-Counts rs 0 0 [] (omega arith) (omega arith) (refl, refl, tt) in
    (omega (arith, c), omega (arith, t), b)
