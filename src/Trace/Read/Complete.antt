-- ===== src/Trace/Read/Complete.antt =====
-- A thread's file is read back record by record, also when its end is missing.
use dpcpp_trace.Prelude.{
  ℕ, zero, suc, ◌+◌, ◌-◌, ◌%◌, ◌^◌, ◌≤◌, ◌<◌, ◌≡◌, refl, sym, ap, ◌∙◌, true, some, List, [], ◌∷◌,
  ◌++◌, map, append-nil, append_assoc, arith, le→ltb, Bytes, length, take, drop, replicate, All,
  length-append, le_bytes, le_value,
}
use mathlib.Core.Path.{subst}
use dpcpp_trace.Trace.Api.{Codec, Fits}
use dpcpp_trace.Trace.Stream.{Stream, opened, read, read_u32, fill}
use dpcpp_trace.Trace.Frame.{
  write_frame, read_frame, read_frame-write_frame, write_frame_fits, read_u32-le_bytes,
  read_frame_step, length-write_frame,
}
use dpcpp_trace.Trace.Read.{records, write_frames, parse_trace_loop, parse_trace_file}

abbrev at_end : Stream
at_end = record { rest = []; eof = true; fail = true }

-- A short read ends the file, and what arrived is at hand.
read_short : (n : ℕ) (bs : Bytes) → length bs < n → read n (opened bs) ≡ (bs, at_end)
unfolding read
read_short n bs h = ground arith

read_ended : (n : ℕ) → read n (at_end) ≡ ([], at_end)
unfolding read
read_ended n = refl

-- A buffer of at least the size takes what arrived.
fill_total : (n : ℕ) (got : Bytes) → length got ≤ n → (raw : Bytes) × (fill n got ≡ some raw)
unfolding fill
fill_total n got h = (got ++ replicate (n - length got) 0, rw (le→ltb n (length got) h))

split_four :
    (n : ℕ) {a b c d : ℕ} {front tail : Bytes}
    → le_bytes 4 n ++ tail ≡ a ∷ b ∷ c ∷ d ∷ front
    → (le_bytes 4 n ≡ a ∷ b ∷ c ∷ d ∷ []) × (tail ≡ front)
split_four n e = (ap (take 4) e, ap (drop 4) e)

module _ {A : Type 0} (codec : Codec A) (junk : ℕ) where
  -- The stream has come to the end of its file in the middle of a frame.
  abbrev Cut : Bytes → Type 0
  Cut bs =
      (call : A) × (s : Stream) × (read_frame codec junk (opened bs) ≡ some (call, s))
      × (s.eof ≡ true)

  short_size : (bs : Bytes) → length bs < 4 → Cut bs
  short_size bs h =
      let e = read_short 4 bs h in
      let n = le_value (bs ++ drop (length bs) (le_bytes 4 junk)) in
      let (raw, filled) = fill_total ((n + 1) % 2 ^ 32) [] (omega arith) in
      (
        codec.parse raw,
        at_end,
        read_frame_step codec junk _ {s₁ = at_end} {size = n} (unfold read_u32 in rw e)
            (read_ended n) filled,
        refl,
      )

  short_body :
      (call : A) (front back : Bytes) (x : ℕ)
      → Fits codec call
      → codec.serialize call ≡ front ++ (x ∷ back)
      → Cut (le_bytes 4 (length (codec.serialize call)) ++ front)
  short_body call front back x f e =
      let n = length (codec.serialize call) in
      let shorter : length front < n = omega (arith, ap length e, length-append front (x ∷ back)) in
      let (raw, filled) = fill_total ((n + 1) % 2 ^ 32) front (omega (arith, f.size_fits)) in
      (
        codec.parse raw,
        _,
        read_frame_step codec junk _ (read_u32-le_bytes junk n front (omega (arith, f.size_fits)))
            (read_short n front shorter) filled,
        refl,
      )

  Cut-frame :
      (call : A) (front back : Bytes) (x : ℕ)
      → Fits codec call
      → write_frame codec call ≡ front ++ (x ∷ back)
      → Cut front
  Cut-frame call (a ∷ b ∷ c ∷ d ∷ front) back x f e =
      let n = length (codec.serialize call) in
      let same : le_bytes 4 n ++ codec.serialize call ≡ a ∷ b ∷ c ∷ d ∷ (front ++ (x ∷ back)) =
        sym (write_frame_fits codec call f) ∙ e in
      let (size, rest) = split_four n same in
      subst (λ bs. Cut (bs ++ front)) size (short_body call front back x f rest)
  Cut-frame call front back x f e = short_size front (omega arith)

module _ {A : Type 0} (codec : Codec A) (junk : ℕ) (thread_id : Bytes) where
  abbrev own : List A → List (Bytes × A)
  own = map λ c. (thread_id, c)

  loop-Cut :
      (fuel : ℕ) (tail : Bytes) (acc : List (Bytes × A))
      → Cut codec junk tail
      → parse_trace_loop codec (suc fuel) junk thread_id (opened tail) acc ≡ records acc
  unfolding parse_trace_loop
  loop-Cut fuel tail acc (call, s, e, ended) = ground (arith, e, ended)

  loop_frame :
      (fuel : ℕ) (c : A) (more : Bytes) (acc : List (Bytes × A))
      → Fits codec c
      → parse_trace_loop codec (suc fuel) junk thread_id (opened (write_frame codec c ++ more)) acc
        ≡ parse_trace_loop codec fuel junk thread_id (opened more) (acc ++ (thread_id, c) ∷ [])
  unfolding parse_trace_loop
  loop_frame fuel c more acc f = ground (arith, read_frame-write_frame codec junk c more f)

  loop_frames :
      (cs : List A) (tail : Bytes) (fuel : ℕ) (acc : List (Bytes × A))
      → All (Fits codec) cs
      → Cut codec junk tail
      → length cs < fuel
      → parse_trace_loop codec fuel junk thread_id (opened (write_frames codec cs ++ tail)) acc
        ≡ records (acc ++ own cs)
  unfolding write_frames
  loop_frames cs tail zero acc h cut enough = elim enough [ ]
  loop_frames [] tail (suc fuel) acc h cut enough = rw append-nil (loop-Cut fuel tail acc cut)
  loop_frames (c ∷ cs) tail (suc fuel) acc (f, h) cut enough = rw append_assoc (
      loop_frame fuel c (write_frames codec cs ++ tail) acc f
      ∙ loop_frames cs tail fuel (acc ++ (thread_id, c) ∷ []) h cut (omega arith)
      ∙ ap records (append_assoc acc ((thread_id, c) ∷ []) (own cs)))

  length-write_frames : (cs : List A) → length cs ≤ length (write_frames codec cs)
  unfolding write_frames
  length-write_frames [] = omega arith
  length-write_frames (c ∷ cs) = omega (
    arith,
    length-append (write_frame codec c) (write_frames codec cs),
    length-write_frame codec c,
    length-write_frames cs,
  )

  -- Whatever calls were recorded on a thread, and whatever the uninitialised size holds: if the
  -- serializer gives every message back, and every message leaves room in 32 bits for its size and
  -- one, the file they leave is parsed into those calls, in order, under the thread's name.
  pub parse_trace_file-write_frames :
      (cs : List A)
      → All (Fits codec) cs
      → parse_trace_file codec junk thread_id (opened (write_frames codec cs)) ≡ records (own cs)
  unfolding parse_trace_file
  parse_trace_file-write_frames cs h = rw append-nil at (
      loop_frames cs [] (length (write_frames codec cs) + 2) [] h
        (short_size codec junk [] (omega arith)) (omega (arith, length-write_frames cs)))

  -- If the file breaks off inside the frame of one more call, all the calls before it are parsed
  -- and that one is dropped. The messages, the last one among them, are given back by the
  -- serializer and leave room in 32 bits for their size and one.
  pub parse_trace_file_cut :
      (cs : List A) (c : A) (front back : Bytes) (x : ℕ)
      → All (Fits codec) cs
      → Fits codec c
      → write_frame codec c ≡ front ++ (x ∷ back)
      → parse_trace_file codec junk thread_id (opened (write_frames codec cs ++ front))
        ≡ records (own cs)
  unfolding parse_trace_file
  parse_trace_file_cut cs c front back x h f e =
      loop_frames cs front (length (write_frames codec cs ++ front) + 2) [] h
        (Cut-frame codec junk c front back x f e)
        (omega (arith, length-write_frames cs, length-append (write_frames codec cs) front))
