-- ===== src/Trace/Read/Total.antt =====
-- The loop of `parseTraceFile` ends on every file that could be opened, and never on another.
use dpcpp_trace.Prelude.{
  ℕ, zero, suc, ◌+◌, ◌%◌, ◌^◌, ◌≤◌, ◌<◌, ◌≡◌, refl, ◌⊎◌, inl, inr, some, List, [], ◌∷◌, ◌++◌, arith,
  le→ltb, Bytes, length, drop, replicate, length-drop, AreBytes,
}
use dpcpp_trace.Trace.Api.{Codec}
use dpcpp_trace.Trace.Stream.{opened, unopened, read, read_u32, fill}
use dpcpp_trace.Trace.Frame.{read_frame, read_frame_step}
use dpcpp_trace.Trace.Read.Rounds.{HasMark, HasMark-drop, AreBytes-drop, sub_zero, Round, round}
use dpcpp_trace.Trace.Read.{Parsed, records, fault, stuck, parse_trace_loop, parse_trace_file}

-- Records, or a write past the buffer at the greatest size.
abbrev pub Ends : {R : Type 0} → Bytes → Parsed R → Type 0
Ends {R} bs p = ((rs : List R) × (p ≡ records rs)) ⊎ ((p ≡ fault) × HasMark bs)

module _ {A : Type 0} (codec : Codec A) (junk : ℕ) where
  loop-Ends :
      (fuel : ℕ) (thread_id bs : Bytes) (acc : List (Bytes × A))
      → AreBytes bs
      → length bs + 1 < fuel
      → Ends bs (parse_trace_loop codec fuel junk thread_id (opened bs) acc)
  unfolding parse_trace_loop Round
  loop-Ends zero t bs acc h enough = elim enough [ ]
  loop-Ends (suc fuel) t bs acc h enough = elim (round codec junk bs h) [
    | inl (c, s, r, e) ↦ inl (acc, rw (parse_trace_loop, r, e) refl)
    | inr (inr (r, m)) ↦ inr (rw (parse_trace_loop, r) refl, m)
    | inr (inl (c, n, r, four)) ↦
        let rest = drop n (drop 4 bs) in
        let shorter : length rest + 4 ≤ length bs =
          omega (arith, length-drop n (drop 4 bs), length-drop 4 bs) in
        elim (loop-Ends fuel t rest (acc ++ (t, c) ∷ [])
          (AreBytes-drop n (drop 4 bs) (AreBytes-drop 4 bs h)) (omega arith)) [
            | inl (rs, e) ↦ inl (rs, rw (parse_trace_loop, r) e)
            | inr (e, m) ↦
                inr (rw (parse_trace_loop, r) e, HasMark-drop 4 bs (HasMark-drop n (drop 4 bs) m))
          ]
  ]

  -- On every file of bytes that was opened, the loop ends within the given rounds. It returns records,
  -- or it writes past the buffer; and the latter happens only if four bytes 0xFF stand one behind the
  -- other in the file, which make a size to which no byte can be added in 32 bits.
  pub parse_trace_file-Ends :
      (thread_id bs : Bytes)
      → AreBytes bs
      → Ends bs (parse_trace_file codec junk thread_id (opened bs))
  unfolding parse_trace_file
  parse_trace_file-Ends t bs h = loop-Ends (length bs + 2) t bs [] h (omega arith)

  read_frame-unopened : (c : A) × (read_frame codec junk unopened ≡ some (c, unopened))
  unfolding read_u32 read fill
  read_frame-unopened =
      let n = (read_u32 junk unopened).0 in
      let raw : Bytes = replicate ((n + 1) % 2 ^ 32) 0 in
      (
        codec.parse raw,
        read_frame_step codec junk unopened {size = n} {got = []} {raw = raw} refl refl
            (rw (le→ltb ((n + 1) % 2 ^ 32) 0 (omega arith)) (rw sub_zero refl)),
      )

  -- On a file that could not be opened `eof` never comes: however many rounds are run, the loop has
  -- not ended.
  pub unopened_never_ends :
      (fuel : ℕ) (thread_id : Bytes) (acc : List (Bytes × A))
      → parse_trace_loop codec fuel junk thread_id unopened acc ≡ stuck
  unfolding parse_trace_loop
  unopened_never_ends zero t acc = refl
  unopened_never_ends (suc fuel) t acc =
      let (c, e) = read_frame-unopened in
      ground (arith, e, unopened_never_ends fuel t (acc ++ (t, c) ∷ []))
