-- ===== src/Print.antt =====
-- src/print.cpp: the summary of the calls' times, by function.
pub mod Args
pub mod Image
pub mod Summary
pub mod Times
pub mod Columns
pub mod Order
pub mod Groups
pub mod Call
pub mod Flags
pub mod Directory
pub mod Described
pub mod Shown
pub mod Recorded
use dpcpp_trace.Prelude.{ℕ, ◌+◌, ◌-◌, ◌/◌, ◌%◌, ◌^◌, List, [], ◌∷◌, ltb, ◌==◌, if◌then◌else◌}
use dpcpp_trace.Trace.Api.{ApiCall}

-- `PerformanceSummary`
pub record PerformanceSummary : Type 0 where
  pub total_calls : ℕ
  pub max_duration : ℕ
  pub min_duration : ℕ
  pub total_duration : ℕ

abbrev pub fresh : PerformanceSummary
fresh = record { total_calls = 0; max_duration = 0; min_duration = 2 ^ 64 - 1; total_duration = 0 }

-- `time_end() - time_start()`
unfoldable pub duration : ApiCall → ℕ
duration call = (call.time_end + 2 ^ 64 - call.time_start) % 2 ^ 64

unfoldable pub add_duration : ℕ → PerformanceSummary → PerformanceSummary
add_duration d ps = record {
  total_calls = (ps.total_calls + 1) % 2 ^ 64;
  total_duration = (ps.total_duration + d) % 2 ^ 64;
  max_duration = if ltb ps.max_duration d then d else ps.max_duration;
  min_duration = if ltb d ps.min_duration then d else ps.min_duration;
}

-- `collectPerf`; the map's entries stand in the order in which they came.
unfoldable pub collect_perf : ℕ → ℕ → List (ℕ × PerformanceSummary) → List (ℕ × PerformanceSummary)
collect_perf f d [] = (f, add_duration d fresh) ∷ []
collect_perf f d ((g, ps) ∷ perf_map) =
    if g == f then (g, add_duration d ps) ∷ perf_map else (g, ps) ∷ collect_perf f d perf_map

-- The records in the order in which they are printed.
unfoldable pub collect_all :
    List ApiCall → List (ℕ × PerformanceSummary) → List (ℕ × PerformanceSummary)
collect_all [] perf_map = perf_map
collect_all (r ∷ rs) perf_map = collect_all rs (collect_perf r.function_id (duration r) perf_map)

-- The last column of `printPerformanceSummary`.
unfoldable pub average : PerformanceSummary → ℕ
average ps = ps.total_duration / ps.total_calls
