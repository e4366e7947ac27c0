-- ===== src/Tests/Showing.antt =====
-- What is printed of a call, of a binary and of a whole directory.
use dpcpp_trace.Prelude.{
  ℕ, ◌+◌, ◌-◌, ◌%◌, ◌≤◌, ◌≡◌, refl, ap, ◌≢◌, ◌↔◌, inl, inr, true, none, some, List, [], ◌∷◌, arith,
  leb, ◌==◌, if◌then◌else◌, Bool-cases, Bytes, length, take, All, codes, negsuc,
}
use dpcpp_trace.Trace.Api.{Codec}
use dpcpp_trace.Trace.Stream.{unopened}
use dpcpp_trace.Record.Args.{lvalue, unsigned, collect_arg}
use dpcpp_trace.Record.Binaries.{DeviceBinary, PiBinary, binary_descriptor}
use dpcpp_trace.Options.{none_group}
use dpcpp_trace.Print.Args.{
  number, unknown, print_arg, value_shown, HasTopBit, print_arg-collect_arg, print_call_args,
}
use dpcpp_trace.Print.Call.{print_record}
use dpcpp_trace.Print.Image.{PropertyTypes, FitsDescriptor}
use dpcpp_trace.Print.Directory.{Printer, printed, print_trace}
use mathlib.Core.List.{Perm}
use mathlib.Core.List.Perm
use dpcpp_trace.Print.Order.{Line, TraceRecord}
use dpcpp_trace.Print.Shown.{InOrder, Sorts, Shows}
use dpcpp_trace.Print.Described.{Heading, behind}
use dpcpp_trace.Print.Recorded.{
  IsKept, kept_contents, Kept, thread_calls, binary_dump, other_file, kept_files, print_trace-kept,
}
use dpcpp_trace.Tests.Fixtures.{sample, sample_codec, sample_fits}
use dpcpp_trace.Tests.Recording.{environment, formats}

-- An unsigned word with the top bit set is shown as a negative number.
print_arg-collect_arg_example :
    (print_arg (collect_arg lvalue (unsigned 4 4294967295)) ≡ value_shown (unsigned 4 4294967295))
    ↔ (¬ HasTopBit (unsigned 4 4294967295))
print_arg-collect_arg_example =
    print_arg-collect_arg (unsigned 4 4294967295) (inr (inr (inl refl)), omega arith)

shown_negative : print_arg (collect_arg lvalue (unsigned 4 4294967295)) ≡ number unknown (negsuc 0)
unfolding print_arg collect_arg
shown_negative = refl

abbrev types : PropertyTypes
types = record { unknown_type = 0; uint32 = 1; byte_array = 2; string = 3 }

abbrev one_digit : ℕ → Bytes
one_digit n = (b'0' + n % 10) ∷ []

abbrev kernel : PiBinary
kernel = record {
  version = 0;
  kind = 0;
  format = 0;
  device_target_spec = some (codes "spir64");
  compile_options = none;
  link_options = none;
  entries = [];
  property_sets = [];
  manifest = none;
  image = [];
}

-- The serializer keeps the target only, behind its length.
abbrev target_codec : Codec DeviceBinary
target_codec = record { serialize = λ b. codes "spir64"; parse = λ bs. binary_descriptor kernel }

kernel-FitsDescriptor : FitsDescriptor target_codec (binary_descriptor kernel)
kernel-FitsDescriptor = record { parse-serialize = refl; size_fits = omega arith }

-- From the last dot on, and what stands before.
abbrev extension_of : Bytes → Bytes
extension_of [] = []
extension_of (c ∷ cs) =
    let rest = extension_of cs in
    if length rest == 0 then (if c == b'.' then c ∷ cs else []) else rest

-- A sort by the start.
insert : TraceRecord → List TraceRecord → List TraceRecord
insert r [] = r ∷ []
insert r (x ∷ xs) = if leb r.1.time_start x.1.time_start then r ∷ x ∷ xs else x ∷ insert r xs

insertion_sort : List TraceRecord → List TraceRecord
insertion_sort [] = []
insertion_sort (r ∷ rs) = insert r (insertion_sort rs)

insert-perm : (r : TraceRecord) (xs : List TraceRecord) → Perm (insert r xs) (r ∷ xs)
unfolding insert
insert-perm r [] = Perm.refl (r ∷ [])
insert-perm r (x ∷ xs) = elim (Bool-cases (leb r.1.time_start x.1.time_start)) [
  | inl e ↦ rw e (Perm.refl (r ∷ x ∷ xs))
  | inr e ↦ rw e (Perm.trans (Perm.cons x (insert-perm r xs)) (Perm.swap r x xs))
]

abbrev StartsBy : ℕ → List TraceRecord → Type 0
StartsBy t = All (λ r. t ≤ r.1.time_start)

StartsBy-trans : (t u : ℕ) (xs : List TraceRecord) → t ≤ u → StartsBy u xs → StartsBy t xs
StartsBy-trans t u [] h p = tt
StartsBy-trans t u (x ∷ xs) h (p, ps) = (omega arith, StartsBy-trans t u xs h ps)

insert-StartsBy :
    (t : ℕ) (r : TraceRecord) (xs : List TraceRecord)
    → t ≤ r.1.time_start
    → StartsBy t xs
    → StartsBy t (insert r xs)
unfolding insert
insert-StartsBy t r [] h p = (h, tt)
insert-StartsBy t r (x ∷ xs) h (p, ps) = elim (Bool-cases (leb r.1.time_start x.1.time_start)) [
  | inl e ↦ rw e (h, (p, ps))
  | inr e ↦ rw e (p, insert-StartsBy t r xs h ps)
]

insert-InOrder : (r : TraceRecord) (xs : List TraceRecord) → InOrder xs → InOrder (insert r xs)
unfolding insert
insert-InOrder r [] o = (tt, tt)
insert-InOrder r (x ∷ xs) (p, o) = elim (Bool-cases (leb r.1.time_start x.1.time_start)) [
  | inl e ↦
      let first : r.1.time_start ≤ x.1.time_start = ground arith in
      rw e ((first, StartsBy-trans r.1.time_start x.1.time_start xs first p), (p, o))
  | inr e ↦
      let second : x.1.time_start ≤ r.1.time_start = ground arith in
      rw e (insert-StartsBy x.1.time_start r xs second p, insert-InOrder r xs o)
]

insertion_sort-Sorts : Sorts insertion_sort
unfolding insertion_sort
insertion_sort-Sorts [] = (Perm.refl [], tt)
insertion_sort-Sorts (r ∷ rs) =
    let (p, o) = insertion_sort-Sorts rs in
    (
      Perm.trans (insert-perm r (insertion_sort rs)) (Perm.cons r p),
      insert-InOrder r (insertion_sort rs) o,
    )

abbrev printer : Printer
printer = record {
  codec = sample_codec;
  binary_codec = target_codec;
  to_string = one_digit;
  formats = formats;
  types = types;
  junk = 7;
  sort = insertion_sort;
  extension = extension_of;
  stem = λ p. take (length p - length (extension_of p)) p;
}

abbrev directory : List Kept
directory =
    thread_calls (codes "main.pi_trace") (sample 1 0 ∷ sample 4 5 ∷ [])
    ∷ other_file (codes "notes.md") unopened
    ∷ binary_dump (codes "0.desc") 0 kernel
    ∷ thread_calls (codes "main_0.pi_trace") (sample 4 9 ∷ [])
    ∷ []

not_trace : codes ".md" ≢ codes ".pi_trace"
not_trace e = absurd (omega (arith, ap (length {A = ℕ}) e))

not_image : codes ".md" ≢ codes ".desc"
not_image e = absurd (omega (arith, ap (length {A = ℕ}) e))

directory-IsKept : All (IsKept printer environment) directory
directory-IsKept = (
  (refl, (sample_fits 1 0, (sample_fits 4 5, tt))),
  ((not_trace, not_image), ((refl, kernel-FitsDescriptor), ((refl, (sample_fits 4 9, tt)), tt))),
)

abbrev directory_rest : List TraceRecord
directory_rest = (codes "main", sample 4 5) ∷ (codes "main_0", sample 4 9) ∷ []

print_trace-kept_example :
    (images : List Bytes) × (lines : List Line) × (print_trace printer true true none_group true
        (kept_files printer environment directory)
      ≡ printed images lines)
    × ((h : Heading) → behind h images ≡ kept_contents printer environment h directory)
    × Shows none_group true lines ((codes "main", sample 1 0) ∷ directory_rest)
print_trace-kept_example =
    print_trace-kept printer environment none_group true directory (codes "main", sample 1 0)
      directory_rest directory-IsKept refl (refl, (refl, (refl, tt))) insertion_sort-Sorts

-- The verbose output of a call without arguments.
verbose_call : length (print_record one_digit (λ id. none) true (codes "main", sample 4 5)) ≡ 11
unfolding print_record print_call_args
verbose_call = refl
