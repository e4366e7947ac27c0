-- ===== src/Print/Recorded.antt =====
-- src/print.cpp `printTrace` on a directory that the recorder filled.
use dpcpp_trace.Prelude.{
  ℕ, ◌≡◌, refl, ◌∙◌, ◌≢◌, inl, inr, Bool, true, false, some, List, [], ◌∷◌, ◌++◌, map, arith,
  Bool-cases, Bytes, All, same_text, same_text-eq,
}
use dpcpp_trace.Trace.Api.{ApiCall, Fits}
use dpcpp_trace.Trace.Stream.{Stream, opened}
use dpcpp_trace.Trace.Read.{records, write_frames}
use dpcpp_trace.Trace.Read.Complete.{parse_trace_file-write_frames}
use dpcpp_trace.Options.{PrintGroupBy}
use dpcpp_trace.Record.Recorder.{Environment}
use dpcpp_trace.Record.Binaries.{PiBinary, binary_descriptor, dump_binary_descriptor}
use dpcpp_trace.Record.Threads.{trace_ext}
use dpcpp_trace.Print.Order.{Line, TraceRecord}
use dpcpp_trace.Print.Groups.{Named}
use dpcpp_trace.Print.Shown.{Sorts, Shows, print_lines-Shows}
use dpcpp_trace.Print.Described.{Heading, content, behind, behind-append, behind-image_lines}
use dpcpp_trace.Print.Image.{FitsDescriptor, image_lines, print_image_desc-dump}
use dpcpp_trace.Print.Directory.{
  Printer, Files, printed, desc_ext, print_images, parse_files, print_lines, print_trace,
}

-- A file of a trace by its path: the calls of a thread, a binary with its number, any other file.
pub data Kept : Type 0 where
  thread_calls : Bytes → List ApiCall → Kept
  binary_dump : Bytes → ℕ → PiBinary → Kept
  other_file : Bytes → Stream → Kept

module _ (printer : Printer) (env : Environment) where
  open printer use {codec, binary_codec, to_string, formats, types, junk, extension, stem}

  -- The files as they lie in the directory.
  abbrev pub kept_files : List Kept → Files
  kept_files [] = []
  kept_files (thread_calls path cs ∷ ks) = (path, opened (write_frames codec cs)) ∷ kept_files ks
  kept_files (binary_dump path idx b ∷ ks) =
      (path, opened (dump_binary_descriptor env formats binary_codec b idx).1) ∷ kept_files ks
  kept_files (other_file path s ∷ ks) = (path, s) ∷ kept_files ks

  -- Each file has its ending, and what it holds is given back by its serializer.
  abbrev pub IsKept : Kept → Type 0
  IsKept (thread_calls path cs) = (extension path ≡ trace_ext) × All (Fits codec) cs
  IsKept (binary_dump path idx b) =
      (extension path ≡ desc_ext) × FitsDescriptor binary_codec (binary_descriptor b)
  IsKept (other_file path s) = (extension path ≢ trace_ext) × (extension path ≢ desc_ext)

  -- The descriptions of the binaries, and the calls with their threads.
  abbrev pub kept_images : List Kept → List Bytes
  kept_images [] = []
  kept_images (thread_calls path cs ∷ ks) = kept_images ks
  kept_images (binary_dump path idx b ∷ ks) =
      image_lines to_string formats types path (binary_descriptor b) ++ kept_images ks
  kept_images (other_file path s ∷ ks) = kept_images ks

  -- The dumped binaries' texts for a heading.
  abbrev pub kept_contents : Heading → List Kept → List Bytes
  kept_contents h [] = []
  kept_contents h (thread_calls path cs ∷ ks) = kept_contents h ks
  kept_contents h (binary_dump path idx b ∷ ks) =
      content h path (binary_descriptor b) ∷ kept_contents h ks
  kept_contents h (other_file path s ∷ ks) = kept_contents h ks

  abbrev pub kept_records : List Kept → List TraceRecord
  kept_records [] = []
  kept_records (thread_calls path cs ∷ ks) = map (λ c. (stem path, c)) cs ++ kept_records ks
  kept_records (binary_dump path idx b ∷ ks) = kept_records ks
  kept_records (other_file path s ∷ ks) = kept_records ks

  ne→same_text : (s t : Bytes) → s ≢ t → same_text s t ≡ false
  ne→same_text s t ne = elim (Bool-cases (same_text s t)) [
    | inl same ↦ absurd (ne (same_text-eq s t same))
    | inr apart ↦ apart
  ]

  print_images-kept :
      (ks : List Kept)
      → All IsKept ks
      → print_images printer (kept_files ks) ≡ some (kept_images ks)
  unfolding print_images
  print_images-kept [] h = refl
  print_images-kept (thread_calls path cs ∷ ks) ((e, fit), h) = rw e (print_images-kept ks h)
  print_images-kept (binary_dump path idx b ∷ ks) ((e, fit), h) =
      rw
        (
          e,
          print_image_desc-dump to_string formats types binary_codec env junk idx path b fit,
          print_images-kept ks h,
        )
        refl
  print_images-kept (other_file path s ∷ ks) ((no_trace, no_image), h) =
      rw (ne→same_text _ _ no_image) (print_images-kept ks h)

  parse_files-kept :
      (ks : List Kept)
      → All IsKept ks
      → parse_files printer (kept_files ks) ≡ records (kept_records ks)
  unfolding parse_files
  parse_files-kept [] h = refl
  parse_files-kept (thread_calls path cs ∷ ks) ((e, fit), h) =
      rw (e, parse_trace_file-write_frames codec junk (stem path) cs fit, parse_files-kept ks h)
        refl
  parse_files-kept (binary_dump path idx b ∷ ks) ((e, fit), h) = rw e (parse_files-kept ks h)
  parse_files-kept (other_file path s ∷ ks) ((no_trace, no_image), h) =
      rw (ne→same_text _ _ no_trace) (parse_files-kept ks h)

  -- What a reader of the descriptions finds behind a heading.
  behind-kept_images :
      (h : Heading) (ks : List Kept) → behind h (kept_images ks) ≡ kept_contents h ks
  unfolding behind
  behind-kept_images h [] = refl
  behind-kept_images h (thread_calls path cs ∷ ks) = behind-kept_images h ks
  behind-kept_images h (other_file path s ∷ ks) = behind-kept_images h ks
  behind-kept_images h (binary_dump path idx b ∷ ks) =
      behind-append h (image_lines to_string formats types path (binary_descriptor b))
        (kept_images ks)
      ∙ rw
          (
            behind-image_lines to_string formats types h path (binary_descriptor b),
            behind-kept_images h ks,
          )
          refl

  lines-kept :
      (group : PrintGroupBy) (wanted : Bool) (ks : List Kept)
      → All IsKept ks
      → print_trace printer true true group wanted (kept_files ks)
        ≡ printed (kept_images ks) (print_lines printer group wanted (kept_records ks))
  unfolding print_trace
  lines-kept group wanted ks h = ground (arith, print_images-kept ks h, parse_files-kept ks h)

  -- Take a directory of any number of thread files, dumped binaries and files of neither ending, in
  -- any order, where the calls and the descriptions are given back by their serializers and leave room
  -- for their sizes, some call was recorded, and no call's thread file has an empty stem. It is printed
  -- without a fault. Behind each of the headings of a description (its path, its target and its two
  -- kinds of options) a reader finds what the dumped binaries hold there, in the order of the files.
  -- From the lines behind the descriptions a reader gets the calls with the stems of their files: in
  -- groups, exactly those of all thread files in their order; else the same calls by the times of their
  -- starts, if `std::sort` sorts. And the summary of just these calls is printed once if it was asked
  -- for, and else not.
  pub print_trace-kept :
      (group : PrintGroupBy) (wanted : Bool) (ks : List Kept) (r : TraceRecord)
      (others : List TraceRecord)
      → All IsKept ks
      → kept_records ks ≡ r ∷ others
      → Named (r ∷ others)
      → Sorts printer.sort
      → (images : List Bytes) × (lines : List Line) × (print_trace printer true true group wanted
            (kept_files ks)
          ≡ printed images lines)
        × ((h : Heading) → behind h images ≡ kept_contents h ks)
        × Shows group wanted lines (r ∷ others)
  print_trace-kept group wanted ks r others h e named sorts = (
    kept_images ks,
    print_lines printer group wanted (r ∷ others),
    lines-kept group wanted ks h ∙ rw e refl,
    λ heading. behind-kept_images heading ks,
    print_lines-Shows printer group wanted r others named sorts,
  )
