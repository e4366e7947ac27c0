-- ===== src/Print/Directory.antt =====
-- src/print.cpp `printTrace`: from the directory of a trace to all that is printed.
use dpcpp_trace.Prelude.{
  ℕ, Bool, not, Option, none, some, List, [], ◌∷◌, ◌++◌, if◌then◌else◌, Bytes, same_text, codes,
}
use dpcpp_trace.Trace.Api.{ApiCall, Codec}
use dpcpp_trace.Trace.Stream.{Stream}
use dpcpp_trace.Trace.Read.{Parsed, records, fault, stuck, parse_trace_file}
use dpcpp_trace.Options.{PrintGroupBy, none_group, thread_group}
use dpcpp_trace.Record.Binaries.{DeviceBinary, Formats}
use dpcpp_trace.Record.Threads.{trace_ext}
use dpcpp_trace.Print.Order.{Line, TraceRecord, print_grouped, print_sorted}
use dpcpp_trace.Print.Image.{PropertyTypes, print_image_desc}

abbrev pub desc_ext : Bytes
desc_ext = codes ".desc"

-- What the printer takes from outside: the two generated parsers, the runtime's numbers, what the
-- uninitialised sizes hold, `std::sort` by the start, and the parts of a path.
pub record Printer : Type 0 where
  pub codec : Codec ApiCall
  pub binary_codec : Codec DeviceBinary
  pub to_string : ℕ → Bytes
  pub formats : Formats
  pub types : PropertyTypes
  pub junk : ℕ
  pub sort : List TraceRecord → List TraceRecord
  pub extension : Bytes → Bytes
  pub stem : Bytes → Bytes

-- The files of the directory with their paths, in the order of the iterator.
abbrev pub Files : Type 0
Files = List (Bytes × Stream)

-- The images and then the records; `exit(-1)`; a write past a buffer; a loop that does not end.
pub data Printed : Type 0 where
  printed : List Bytes → List Line → Printed
  exit_failure : Printed
  faulted : Printed
  endless : Printed

module _ (printer : Printer) where
  open printer use {codec, binary_codec, to_string, formats, types, junk, sort, extension, stem}

  abbrev pub image_text : Bytes → Stream → Option (List Bytes)
  image_text = print_image_desc to_string formats types binary_codec junk

  -- The first loop over the directory.
  unfoldable pub print_images : Files → Option (List Bytes)
  print_images [] = some []
  print_images ((path, s) ∷ files) =
      let rest = print_images files in
      if same_text (extension path) desc_ext
      then elim (image_text path s) [
        | none ↦ none
        | some lines ↦ elim rest [ none ↦ none | some more ↦ some (lines ++ more) ]
      ]
      else rest

  -- The second loop; every file appends to the vector.
  unfoldable pub parse_files : Files → Parsed TraceRecord
  parse_files [] = records []
  parse_files ((path, s) ∷ files) =
      let rest = parse_files files in
      if same_text (extension path) trace_ext
      then elim (parse_trace_file codec junk (stem path) s) [
        | records rs ↦ elim rest [
          | records more ↦ records (rs ++ more)
          | fault ↦ fault
          | stuck ↦ stuck
        ]
        | fault ↦ fault
        | stuck ↦ stuck
      ]
      else rest

  abbrev pub print_lines : PrintGroupBy → Bool → List TraceRecord → List Line
  print_lines none_group wanted rs = print_sorted sort wanted rs
  print_lines thread_group wanted rs = print_grouped wanted rs

  -- `printTrace`: whether the path exists and is a directory, the options, and its files.
  unfoldable pub print_trace : Bool → Bool → PrintGroupBy → Bool → Files → Printed
  print_trace exists is_directory group wanted files =
      if not exists
      then exit_failure
      else if not is_directory
      then exit_failure
      else elim (print_images files) [
        | none ↦ faulted
        | some images ↦ elim (parse_files files) [
          | records rs ↦ printed images (print_lines group wanted rs)
          | fault ↦ faulted
          | stuck ↦ endless
        ]
      ]
