-- ===== src/Tests/Commands.antt =====
-- A command line, and an archive of a directory with a file.
use dpcpp_trace.Prelude.{◌≡◌, refl, false, some, List, [], ◌∷◌, arith, Bytes, drop, All, codes}
use dpcpp_trace.Options.{parsed, options}
use dpcpp_trace.Options.Words.{Word, input_word, output_word, no_fork_word, line, said}
use dpcpp_trace.Options.Record.{recorded, options-line}
use dpcpp_trace.Archive.{
  Entry, directory, regular_file, special_file, Compression, create_directory, write_file, unpacked,
  pack_archive, unpack,
}
use dpcpp_trace.Archive.RoundTrip.{Fits, unpack-pack_archive}

-- A compressor that marks what it compressed.
abbrev marking : Compression
marking = record { compress = λ bs. 7 ∷ bs; uncompress = λ bs. drop 1 bs }

abbrev entries : List Entry
entries =
    directory (codes "buffers")
    ∷ special_file (codes "fifo")
    ∷ regular_file (codes "buffers/1.mem") (1 ∷ 2 ∷ [])
    ∷ []

entries-Fits : All (Fits marking) entries
entries-Fits = (omega arith, (tt, ((omega arith, omega arith, refl), tt)))

unpack-pack_archive_example :
    unpack marking (some (pack_archive marking entries)) false
    ≡ unpacked (
        create_directory []
        ∷ create_directory (codes "buffers")
        ∷ write_file (codes "buffers/1.mem") (1 ∷ 2 ∷ [])
        ∷ [])
unpack-pack_archive_example = unpack-pack_archive marking entries entries-Fits

abbrev program_arguments : List Bytes
program_arguments = codes "--output" ∷ codes "x" ∷ []

-- The order of the usage text: `-o trace --no-fork app`.
abbrev usual : List Word
usual = output_word false (codes "trace") ∷ no_fork_word ∷ input_word (codes "app") ∷ []

options-line_example :
    options
      (codes "record" ∷ line usual (some program_arguments))
      []
      (some (codes "/bin/dpcpp_trace"))
    ≡ parsed (recorded (said usual) program_arguments (codes "/bin/dpcpp_trace") [])
options-line_example =
    options-line usual (some program_arguments) [] (codes "/bin/dpcpp_trace")
      (refl, (tt, ((refl, refl), tt)))
      ((omega arith, (omega arith, tt)), ((omega arith, tt), (tt, tt))) refl refl
