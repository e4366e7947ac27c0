-- ===== src/Print/Order.antt =====
-- src/print.cpp `printTrace`: the lines of the output, and which call stands under which thread.
use dpcpp_trace.Prelude.{ℕ, Bool, List, [], ◌∷◌, ◌++◌, if◌then◌else◌, Bytes, same_text}
use dpcpp_trace.Trace.Api.{ApiCall}
use dpcpp_trace.Options.{is_empty}
use dpcpp_trace.Print.{PerformanceSummary, collect_all}

-- The heads of threads, what `printRecord` prints of a call, and the performance summary.
pub data Line : Type 0 where
  start_thread : Bytes → Line
  end_thread : Bytes → Line
  thread : Bytes → Line
  call : ApiCall → Line
  summary : List (ℕ × PerformanceSummary) → Line

abbrev pub TraceRecord : Type 0
TraceRecord = Bytes × ApiCall

-- The head of a thread, with the end of the last one if there was one.
unfoldable pub change_thread : Bytes → Bytes → List Line
change_thread last next =
    if is_empty last then start_thread next ∷ [] else end_thread last ∷ start_thread next ∷ []

-- The loop over the records in groups: the lines, and `lastThread` after them.
unfoldable pub grouped_loop : Bytes → List TraceRecord → List Line × Bytes
grouped_loop last [] = ([], last)
grouped_loop last ((name, c) ∷ records) =
    let (lines, end) = grouped_loop name records in
    ((if same_text last name then [] else change_thread last name) ++ (call c ∷ lines), end)

unfoldable pub sorted_loop : List TraceRecord → List Line
sorted_loop [] = []
sorted_loop ((name, c) ∷ records) = thread name ∷ call c ∷ sorted_loop records

-- The calls of the records.
abbrev pub calls : List TraceRecord → List ApiCall
calls [] = []
calls ((name, c) ∷ records) = c ∷ calls records

unfoldable pub print_summary : Bool → List TraceRecord → List Line
print_summary wanted records = if wanted then summary (collect_all (calls records) []) ∷ [] else []

-- Both ways to print; `sort` is `std::sort` by the time of the start.
unfoldable pub print_grouped : Bool → List TraceRecord → List Line
print_grouped wanted records =
    let (lines, last) = grouped_loop [] records in
    lines ++ (print_summary wanted records ++ end_thread last ∷ [])

unfoldable pub print_sorted :
    (List TraceRecord → List TraceRecord) → Bool → List TraceRecord → List Line
print_sorted sort wanted records = sorted_loop (sort records) ++ print_summary wanted (sort records)
