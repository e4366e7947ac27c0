-- ===== src/Print/Groups.antt =====
-- What a reader of the grouped output gets: each call under the thread that it was recorded on.
use dpcpp_trace.Prelude.{
  ◌≡◌, refl, ap, inl, inr, Bool, true, false, Option, none, some, List, [], ◌∷◌, ◌++◌, Bool-cases,
  Bytes, same_text, same_text_refl, same_text-eq,
}
use dpcpp_trace.Options.{is_empty}
use dpcpp_trace.Print.Order.{
  Line, start_thread, end_thread, thread, call, summary, TraceRecord, change_thread, grouped_loop,
  print_summary, print_grouped,
}

-- A reader who wants threads to begin and end in turn, calls only inside of a thread, and the summary
-- anywhere. `none` is an output that is not of that form.
unfoldable pub read_groups : Option Bytes → List Line → Option (List TraceRecord)
read_groups (some name) [] = none
read_groups none [] = some []
read_groups none (start_thread name ∷ lines) = read_groups (some name) lines
read_groups none (end_thread _ ∷ lines) = none
read_groups none (thread _ ∷ lines) = none
read_groups none (call _ ∷ lines) = none
read_groups none (summary _ ∷ lines) = read_groups none lines
read_groups (some name) (start_thread _ ∷ lines) = none
read_groups (some name) (end_thread other ∷ lines) = elim (same_text name other) [
  | true ↦ read_groups none lines
  | false ↦ none
]
read_groups (some name) (thread _ ∷ lines) = none
read_groups (some name) (summary _ ∷ lines) = read_groups (some name) lines
read_groups (some name) (call c ∷ lines) = elim (read_groups (some name) lines) [
  | none ↦ none
  | some records ↦ some ((name, c) ∷ records)
]

-- The threads have names.
abbrev pub Named : List TraceRecord → Type 0
Named [] = Unit {0}
Named ((name, c) ∷ records) = (is_empty name ≡ false) × Named records

summary_reads :
    (wanted : Bool) (all : List TraceRecord) (last : Bytes)
    → read_groups (some last) (print_summary wanted all ++ end_thread last ∷ []) ≡ some []
unfolding read_groups print_summary
summary_reads true all last = rw (read_groups, same_text_refl last) refl
summary_reads false all last = rw (read_groups, same_text_refl last) refl

module _ (wanted : Bool) (all : List TraceRecord) where
  abbrev ending : Bytes → List Line
  ending last = print_summary wanted all ++ end_thread last ∷ []

  ending_reads : (last : Bytes) → read_groups (some last) (ending last) ≡ some []
  ending_reads last = summary_reads wanted all last

  -- Inside of a thread.
  loop_reads :
      (last : Bytes) (records : List TraceRecord)
      → is_empty last ≡ false
      → Named records
      → read_groups
          (some last)
          ((grouped_loop last records).0 ++ ending (grouped_loop last records).1)
        ≡ some records
  unfolding read_groups grouped_loop change_thread
  loop_reads last [] h n = ending_reads last
  loop_reads last ((name, c) ∷ records) h (m, n) =
      let ih = loop_reads name records m n in
      elim (Bool-cases (same_text last name)) [
        | inl same ↦
            let e = same_text-eq last name same in
            rw (grouped_loop, same, e, ih) (ap (λ t. some ((t, c) ∷ records)) e)
        | inr other ↦
            rw (grouped_loop, other, change_thread, h, read_groups, same_text_refl last, ih) refl
      ]

-- If there are records, and every thread has a name, the grouped output can be read back: threads
-- begin and end in turn, and the calls under their threads, in order, are just the records, with the
-- performance summary or without it.
pub read_groups-print_grouped :
    (wanted : Bool) (r : TraceRecord) (records : List TraceRecord)
    → Named (r ∷ records)
    → read_groups none (print_grouped wanted (r ∷ records)) ≡ some (r ∷ records)
unfolding print_grouped grouped_loop change_thread read_groups
read_groups-print_grouped wanted ([], c) records (m, n) = absurd (cc)
read_groups-print_grouped wanted (x ∷ name, c) records (m, n) =
    rw (loop_reads wanted ((x ∷ name, c) ∷ records) (x ∷ name) records m n) refl
