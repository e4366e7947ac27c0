-- ===== src/Trace/Read.antt =====
-- src/print.cpp `parseTraceFile`: all the records of one thread's file.
pub mod Complete
pub mod Rounds
pub mod Total
use dpcpp_trace.Prelude.{
  ℕ, zero, suc, List, Bytes, ◌≡◌, ◌+◌, ◌-◌, ◌%◌, ◌^◌, ◌<◌, ◌≤◌, refl, sym, ap, ◌∙◌, ◌≢◌, Bool, true,
  false, [], ◌∷◌, ◌++◌, Option, some, none, length, map, if◌then◌else◌, arith, All, append_assoc,
  append-nil, length-append, Bool-cases, Option-cases, inl, inr,
}
use dpcpp_trace.Trace.Api.{Codec, Fits}
use dpcpp_trace.Trace.Stream.{Stream, opened, unopened}
use dpcpp_trace.Trace.Frame.{write_frame, read_frame, read_frame-write_frame}

-- `fault` is a write past the buffer; `stuck` is no result of the program: the rounds ran out.
pub data Parsed (R : Type 0) : Type 0 where
  records : List R → Parsed R
  fault : Parsed R
  stuck : Parsed R

module _ {A : Type 0} (codec : Codec A) where
  -- What the file of a thread holds after `serialize` was called on these messages in turn.
  unfoldable pub write_frames : List A → Bytes
  write_frames [] = []
  write_frames (c ∷ cs) = write_frame codec c ++ write_frames cs

  -- The loop; the vector `records` is the last argument. `junk` is what `recordSize` holds before it is read.
  unfoldable pub parse_trace_loop : ℕ → ℕ → Bytes → Stream → List (Bytes × A) → Parsed (Bytes × A)
  parse_trace_loop zero junk thread_id s acc = stuck
  parse_trace_loop (suc fuel) junk thread_id s acc = elim s.eof [
    | true ↦ records acc
    | false ↦ elim (read_frame codec junk s) [
      | none ↦ fault
      | some (call, s') ↦ elim s'.eof [
        | true ↦ records acc
        | false ↦ parse_trace_loop fuel junk thread_id s' (acc ++ (thread_id, call) ∷ [])
      ]
    ]
  ]

  -- Each round but the last takes four bytes at least off an open file.
  unfoldable pub parse_trace_file : ℕ → Bytes → Stream → Parsed (Bytes × A)
  parse_trace_file junk thread_id s = parse_trace_loop (length s.rest + 2) junk thread_id s []
