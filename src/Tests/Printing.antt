-- ===== src/Tests/Printing.antt =====
-- The summary of three calls of two functions, and calls of two threads.
use dpcpp_trace.Prelude.{ℕ, ◌≡◌, refl, true, none, some, List, [], ◌∷◌, arith, codes}
use dpcpp_trace.Trace.Api.{ApiCall}
use dpcpp_trace.Print.{duration, collect_all}
use dpcpp_trace.Print.Summary.{sum_calls, sum_durations}
use dpcpp_trace.Print.Columns.{line_of, IsLineOf, collect_all-IsLineOf}
use dpcpp_trace.Print.Order.{TraceRecord, print_grouped}
use dpcpp_trace.Print.Groups.{read_groups, read_groups-print_grouped}
use dpcpp_trace.Tests.Fixtures.{sample}

abbrev timed : ℕ → ℕ → ℕ → ApiCall
timed f begin end = record (sample f 0) { time_start = begin; time_end = end }

abbrev three_calls : List ApiCall
three_calls = timed 1 10 14 ∷ timed 2 20 21 ∷ timed 1 30 37 ∷ []

collect_all-IsLineOf_example :
    (sum_calls (collect_all three_calls []) ≡ 3)
    × (sum_durations (collect_all three_calls []) ≡ 12)
    × IsLineOf (4 ∷ 7 ∷ []) (line_of 1 (collect_all three_calls []))
unfolding duration
collect_all-IsLineOf_example = collect_all-IsLineOf three_calls 1 (omega arith) (omega arith)

-- Two threads in turn.
abbrev turns : List TraceRecord
turns =
    (codes "main", timed 1 10 14)
    ∷ (codes "main_0", timed 2 20 21)
    ∷ (codes "main", timed 1 30 37)
    ∷ []

read_groups-print_grouped_example : read_groups none (print_grouped true turns) ≡ some turns
read_groups-print_grouped_example =
    read_groups-print_grouped true (codes "main", timed 1 10 14)
      ((codes "main_0", timed 2 20 21) ∷ (codes "main", timed 1 30 37) ∷ [])
      (refl, (refl, (refl, tt)))
