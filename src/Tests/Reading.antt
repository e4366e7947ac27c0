-- ===== src/Tests/Reading.antt =====
-- The readers of a trace at small files.
use dpcpp_trace.Prelude.{◌≡◌, refl, [], ◌∷◌, ◌++◌, arith, Bytes, All, codes}
use dpcpp_trace.Trace.Api.{Fits}
use dpcpp_trace.Trace.Stream.{opened, unopened, read, read_u32, fill}
use dpcpp_trace.Trace.Frame.{write_frame, read_frame}
use dpcpp_trace.Trace.Read.{write_frames, records, fault, stuck, parse_trace_loop, parse_trace_file}
use dpcpp_trace.Trace.Read.Complete.{parse_trace_file-write_frames, parse_trace_file_cut}
use dpcpp_trace.Trace.Read.Total.{Ends, parse_trace_file-Ends, unopened_never_ends}
use dpcpp_trace.Tests.Fixtures.{sample, sample_codec, sample_fits, two_records}

abbrev thread : Bytes
thread = codes "42"

abbrev two_fit : All (Fits sample_codec) two_records
two_fit = (sample_fits 1 0, (sample_fits 4 5, tt))

parse_trace_file-write_frames_example :
    parse_trace_file sample_codec 7 thread (opened (write_frames sample_codec two_records))
    ≡ records ((thread, sample 1 0) ∷ (thread, sample 4 5) ∷ [])
parse_trace_file-write_frames_example =
    parse_trace_file-write_frames sample_codec 7 thread two_records two_fit

parse_trace_file_cut_example :
    parse_trace_file sample_codec 7 thread
      (opened (write_frames sample_codec two_records ++ 2 ∷ 0 ∷ 0 ∷ 0 ∷ 4 ∷ []))
    ≡ records ((thread, sample 1 0) ∷ (thread, sample 4 5) ∷ [])
unfolding write_frame
parse_trace_file_cut_example =
    parse_trace_file_cut sample_codec 7 thread two_records (sample 4 9) (2 ∷ 0 ∷ 0 ∷ 0 ∷ 4 ∷ []) []
      9 two_fit (sample_fits 4 9) refl

parse_trace_file-Ends_example :
    Ends
      (255 ∷ 255 ∷ 255 ∷ 255 ∷ 0 ∷ [])
      (parse_trace_file sample_codec 7 thread (opened (255 ∷ 255 ∷ 255 ∷ 255 ∷ 0 ∷ [])))
parse_trace_file-Ends_example =
    parse_trace_file-Ends sample_codec 7 thread (255 ∷ 255 ∷ 255 ∷ 255 ∷ 0 ∷ []) (omega arith)

-- The fault does happen.
size_overflows :
    parse_trace_file sample_codec 7 thread (opened (255 ∷ 255 ∷ 255 ∷ 255 ∷ 0 ∷ [])) ≡ fault
unfolding parse_trace_file parse_trace_loop read_frame read_u32 read fill
size_overflows = refl

unopened_never_ends_example : parse_trace_loop sample_codec 1000 7 thread unopened [] ≡ stuck
unopened_never_ends_example = unopened_never_ends sample_codec 7 1000 thread []
