-- ===== src/Print/Shown.antt =====
-- src/print.cpp `printTrace`: what a reader of the records' lines gets, grouped or not.
use dpcpp_trace.Prelude.{
  ℕ, ◌≤◌, ◌≡◌, refl, ap, ◌∙◌, inl, inr, Bool, true, false, Option, none, some, List, [], ◌∷◌, ◌++◌,
  append-nil, if◌then◌else◌, Bool-cases, Bytes, All, same_text,
}
use mathlib.Core.List.{Perm}
use dpcpp_trace.Options.{PrintGroupBy, none_group, thread_group}
use dpcpp_trace.Print.{PerformanceSummary, collect_all}
use dpcpp_trace.Print.Order.{
  Line, start_thread, end_thread, thread, call, summary, TraceRecord, change_thread, grouped_loop,
  sorted_loop, calls, print_summary, print_grouped, print_sorted,
}
use dpcpp_trace.Print.Groups.{read_groups, Named, read_groups-print_grouped}
use dpcpp_trace.Print.Directory.{Printer, print_lines}

-- A reader who wants a thread's name before each call, and the summary anywhere.
unfoldable pub read_sorted : List Line → Option (List TraceRecord)
read_sorted [] = some []
read_sorted (thread name ∷ call c ∷ lines) = elim (read_sorted lines) [
  | none ↦ none
  | some records ↦ some ((name, c) ∷ records)
]
read_sorted (summary _ ∷ lines) = read_sorted lines
read_sorted (thread _ ∷ []) = none
read_sorted (thread _ ∷ start_thread _ ∷ _) = none
read_sorted (thread _ ∷ end_thread _ ∷ _) = none
read_sorted (thread _ ∷ thread _ ∷ _) = none
read_sorted (thread _ ∷ summary _ ∷ _) = none
read_sorted (start_thread _ ∷ _) = none
read_sorted (end_thread _ ∷ _) = none
read_sorted (call _ ∷ _) = none

-- The summaries that stand anywhere.
unfoldable pub summaries : List Line → List (List (ℕ × PerformanceSummary))
summaries [] = []
summaries (summary m ∷ lines) = m ∷ summaries lines
summaries (start_thread _ ∷ lines) = summaries lines
summaries (end_thread _ ∷ lines) = summaries lines
summaries (thread _ ∷ lines) = summaries lines
summaries (call _ ∷ lines) = summaries lines

-- No call starts before one that stands in front of it.
abbrev pub InOrder : List TraceRecord → Type 0
InOrder [] = Unit {0}
InOrder ((name, c) ∷ records) = All (λ r. c.time_start ≤ r.1.time_start) records × InOrder records

-- What is relied on of `std::sort`.
abbrev pub Sorts : (List TraceRecord → List TraceRecord) → Type 0
Sorts sort = (records : List TraceRecord) → Perm (sort records) records × InOrder (sort records)

-- The records as they were asked for: in groups as they are, and otherwise by their starts.
abbrev pub reads_as : PrintGroupBy → List Line → Option (List TraceRecord)
reads_as thread_group lines = read_groups none lines
reads_as none_group lines = read_sorted lines

abbrev pub Arranged : PrintGroupBy → List TraceRecord → List TraceRecord → Type 0
Arranged thread_group shown records = shown ≡ records
Arranged none_group shown records = Perm shown records × InOrder shown

-- A reader gets the records, so arranged; and there is one summary of them if it was wanted.
abbrev pub Shows : PrintGroupBy → Bool → List Line → List TraceRecord → Type 0
Shows group wanted lines records =
    (shown : List TraceRecord) × (reads_as group lines ≡ some shown)
    × Arranged group shown records
    × (summaries lines ≡ (if wanted then collect_all (calls shown) [] ∷ [] else []))

summaries-append : (xs ys : List Line) → summaries (xs ++ ys) ≡ summaries xs ++ summaries ys
unfolding summaries
summaries-append [] ys = refl
summaries-append (summary m ∷ xs) ys = ap (◌∷◌ m) (summaries-append xs ys)
summaries-append (start_thread _ ∷ xs) ys = summaries-append xs ys
summaries-append (end_thread _ ∷ xs) ys = summaries-append xs ys
summaries-append (thread _ ∷ xs) ys = summaries-append xs ys
summaries-append (call _ ∷ xs) ys = summaries-append xs ys

summaries-print_summary :
    (wanted : Bool) (records : List TraceRecord)
    → summaries (print_summary wanted records)
      ≡ (if wanted then collect_all (calls records) [] ∷ [] else [])
unfolding summaries print_summary
summaries-print_summary true records = refl
summaries-print_summary false records = refl

summaries-change_thread : (last next : Bytes) → summaries (change_thread last next) ≡ []
unfolding summaries change_thread
summaries-change_thread [] next = refl
summaries-change_thread (c ∷ last) next = refl

summaries-grouped_loop :
    (last : Bytes) (records : List TraceRecord) → summaries (grouped_loop last records).0 ≡ []
unfolding grouped_loop summaries
summaries-grouped_loop last [] = refl
summaries-grouped_loop last ((name, c) ∷ records) = elim (Bool-cases (same_text last name)) [
  | inl same ↦ rw same (summaries-grouped_loop name records)
  | inr other ↦ rw other (
      summaries-append (change_thread last name) (call c ∷ (grouped_loop name records).0)
      ∙ rw (summaries-change_thread last name) (summaries-grouped_loop name records))
]

summaries-sorted_loop : (records : List TraceRecord) → summaries (sorted_loop records) ≡ []
unfolding sorted_loop summaries
summaries-sorted_loop [] = refl
summaries-sorted_loop ((name, c) ∷ records) = summaries-sorted_loop records

read_sorted-sorted_loop :
    (records : List TraceRecord) (wanted : Bool) (all : List TraceRecord)
    → read_sorted (sorted_loop records ++ print_summary wanted all) ≡ some records
unfolding read_sorted sorted_loop print_summary
read_sorted-sorted_loop [] true all = refl
read_sorted-sorted_loop [] false all = refl
read_sorted-sorted_loop ((name, c) ∷ records) wanted all =
    rw (read_sorted, read_sorted-sorted_loop records wanted all) refl

grouped-Shows :
    (wanted : Bool) (r : TraceRecord) (records : List TraceRecord)
    → Named (r ∷ records)
    → Shows thread_group wanted (print_grouped wanted (r ∷ records)) (r ∷ records)
unfolding print_grouped summaries
grouped-Shows wanted r records named =
    let all : List TraceRecord = r ∷ records in
    let loop = grouped_loop [] all in
    (
      all,
      read_groups-print_grouped wanted r records named,
      refl,
      summaries-append loop.0 (print_summary wanted all ++ end_thread loop.1 ∷ [])
          ∙ rw
              (
                summaries-grouped_loop [] all,
                summaries-append (print_summary wanted all) (end_thread loop.1 ∷ []),
                append-nil,
              )
              (summaries-print_summary wanted all),
    )

sorted-Shows :
    (sort : List TraceRecord → List TraceRecord) (wanted : Bool) (records : List TraceRecord)
    → Sorts sort
    → Shows none_group wanted (print_sorted sort wanted records) records
unfolding print_sorted
sorted-Shows sort wanted records sorts = (
  sort records,
  read_sorted-sorted_loop (sort records) wanted (sort records),
  sorts records,
  summaries-append (sorted_loop (sort records)) (print_summary wanted (sort records))
      ∙ rw (summaries-sorted_loop (sort records)) (summaries-print_summary wanted (sort records)),
)

-- The lines of the records, whatever was asked for.
pub print_lines-Shows :
    (printer : Printer) (group : PrintGroupBy) (wanted : Bool) (r : TraceRecord)
    (records : List TraceRecord)
    → Named (r ∷ records)
    → Sorts printer.sort
    → Shows group wanted (print_lines printer group wanted (r ∷ records)) (r ∷ records)
print_lines-Shows printer none_group wanted r records named sorts =
    sorted-Shows printer.sort wanted (r ∷ records) sorts
print_lines-Shows printer thread_group wanted r records named sorts =
    grouped-Shows wanted r records named
