-- ===== src/Trace/Frame.antt =====
-- lib/plugin_record/record_handler.cpp `serialize`, and lib/plugin_replay/replay.cpp `getNextRecord`:
-- one message behind a 32-bit size.
use dpcpp_trace.Prelude.{
  ℕ, ◌+◌, ◌-◌, ◌%◌, ◌^◌, ◌≤◌, ◌<◌, ◌≡◌, ◌∙◌, Option, none, some, [], ◌∷◌, ◌++◌, append_assoc, arith,
  le→ltb, Bytes, length, take, take_all, le_bytes, le_value-le_bytes,
}
use dpcpp_trace.Trace.Api.{Codec, Fits}
use dpcpp_trace.Trace.Stream.{Stream, opened, read, read_u32, fill, read_whole}

mod_small : (n : ℕ) → n < 2 ^ 32 → n % 2 ^ 32 ≡ n
mod_small n h = omega arith

one_more : (n : ℕ) → n < 2 ^ 32 - 1 → (n + 1) % 2 ^ 32 ≡ n + 1
one_more n h = omega arith

-- The buffer is one byte longer than the message.
fill_one_more :
    (raw : Bytes)
    → length raw < 2 ^ 32 - 1
    → fill ((length raw + 1) % 2 ^ 32) raw ≡ some (raw ++ 0 ∷ [])
unfolding fill
fill_one_more raw h =
    rw (
      one_more (length raw) h,
      le→ltb (length raw + 1) (length raw) (omega arith),
      room (length raw),
    )
  where
    room : (n : ℕ) → n + 1 - n ≡ 1
    room n = omega arith

pub read_u32-le_bytes :
    (junk n : ℕ) (rest : Bytes)
    → n < 2 ^ 32
    → read_u32 junk (opened (le_bytes 4 n ++ rest)) ≡ (n, opened rest)
unfolding read_u32
read_u32-le_bytes junk n rest h =
    rw (read_whole (le_bytes 4 n) rest) (ground (arith, le_value-le_bytes 4 n h))

module _ {A : Type 0} (codec : Codec A) where
  open codec use {serialize, parse}

  -- The size goes through a `uint32_t`, and as many bytes are written.
  unfoldable pub write_frame : A → Bytes
  write_frame call =
      let out = codec.serialize call in
      let size = length out % 2 ^ 32 in le_bytes 4 size ++ take size out

  -- `junk` is what the uninitialised `size` holds. `size + 1` is a 32-bit sum.
  unfoldable pub read_frame : ℕ → Stream → Option (A × Stream)
  read_frame junk s =
      let (size, s₁) = read_u32 junk s in
      let (got, s₂) = read size s₁ in
      elim (fill ((size + 1) % 2 ^ 32) got) [ none ↦ none | some raw ↦ some (codec.parse raw, s₂) ]

  pub write_frame_fits :
      (call : A)
      → Fits codec call
      → write_frame call ≡ le_bytes 4 (length (codec.serialize call)) ++ codec.serialize call
  unfolding write_frame
  write_frame_fits call f = rw (
    mod_small (length (codec.serialize call)) (omega (arith, f.size_fits)),
    take_all (codec.serialize call),
  )

  pub read_frame_step :
      (junk : ℕ) (s : Stream) {s₁ s₂ : Stream} {size : ℕ} {got raw : Bytes}
      → read_u32 junk s ≡ (size, s₁)
      → read size s₁ ≡ (got, s₂)
      → fill ((size + 1) % 2 ^ 32) got ≡ some raw
      → read_frame junk s ≡ some (codec.parse raw, s₂)
  unfolding read_frame
  read_frame_step junk s e₁ e₂ e₃ = ground arith

  -- A frame that was written is read back, whatever follows it and whatever `size` held.
  pub read_frame-write_frame :
      (junk : ℕ) (call : A) (rest : Bytes)
      → Fits codec call
      → read_frame junk (opened (write_frame call ++ rest)) ≡ some (call, opened rest)
  read_frame-write_frame junk call rest f =
      let out = codec.serialize call in
      rw (write_frame_fits call f, append_assoc (le_bytes 4 (length out)) out rest)
        (read_frame_step junk _
            (read_u32-le_bytes junk (length out) (out ++ rest) (omega (arith, f.size_fits)))
            (read_whole out rest) (fill_one_more out f.size_fits)
          ∙ rw f.parse-serialize)

  pub length-write_frame : (call : A) → 1 ≤ length (write_frame call)
  unfolding write_frame
  length-write_frame call = omega arith
