-- ===== src/Archive/Total.antt =====
-- The loop over an archive ends, whatever the file holds.
use dpcpp_trace.Prelude.{
  ℕ, zero, suc, ◌+◌, ◌≤◌, ◌<◌, ◌≡◌, refl, ◌≢◌, inl, inr, Bool, true, false, Option, none, some,
  List, [], ◌∷◌, arith, ◌==◌, Bool-cases, Option-cases, Bytes, length, length-drop,
}
use dpcpp_trace.Archive.{
  Action, create_directory, Compression, Unpacked, unpacked, failed, fault, stuck, prepend,
  read_bytes, read_sized, read_entry, parse_v0, unpack,
}

module _ (comp : Compression) where
  read_bytes_shorter :
      (n : ℕ) (bs got rest : Bytes) → read_bytes n bs ≡ some (got, rest) → length rest ≤ length bs
  unfolding read_bytes
  read_bytes_shorter n bs got rest e = ground (arith, length-drop n bs)

  read_sized_shorter :
      (bs got rest : Bytes) → read_sized bs ≡ some (got, rest) → length rest ≤ length bs
  unfolding read_sized
  read_sized_shorter bs got rest e = grind (arith, read_bytes_shorter)

  read_entry_shorter :
      (kind : ℕ) (bs rest : Bytes) (done : List Action)
      → read_entry comp kind bs ≡ some (done, rest)
      → length rest ≤ length bs
  unfolding read_entry
  read_entry_shorter kind bs rest done e = grind (arith, read_sized_shorter)

  prepend-ne-stuck : (done : List Action) (u : Unpacked) → u ≢ stuck → prepend done u ≢ stuck
  prepend-ne-stuck done (unpacked later) h e = absurd cc
  prepend-ne-stuck done failed h e = absurd cc
  prepend-ne-stuck done fault h e = absurd cc
  prepend-ne-stuck done stuck h e = h refl

  parse_v0-ne-stuck : (fuel : ℕ) (bs : Bytes) → length bs < fuel → parse_v0 comp fuel bs ≢ stuck
  unfolding parse_v0
  parse_v0-ne-stuck zero bs h = absurd (omega arith)
  parse_v0-ne-stuck (suc fuel) [] h = λ e. cc
  parse_v0-ne-stuck (suc fuel) (kind ∷ bs) h = elim (Option-cases (read_entry comp kind bs)) [
    | inl e ↦ rw (parse_v0, e) (λ p. cc)
    | inr ((done, rest), e) ↦
        rw (parse_v0, e)
          (prepend-ne-stuck done (parse_v0 comp fuel rest) (
            parse_v0-ne-stuck fuel rest (omega (arith, h, read_entry_shorter kind bs rest done e))))
  ]

  -- Unpacking ends, whatever the input's bytes are and whether or not there is an output already.
  unpack-ne-stuck :
      (input : Option Bytes) (output_exists : Bool) → unpack comp input output_exists ≢ stuck
  unfolding unpack
  unpack-ne-stuck none output_exists = λ e. cc
  unpack-ne-stuck (some input) true = λ e. cc
  unpack-ne-stuck (some []) false = λ e. cc
  unpack-ne-stuck (some (version ∷ bs)) false = elim (Bool-cases (version == 0)) [
    | inl e ↦
        rw (unpack, e)
          (prepend-ne-stuck (create_directory [] ∷ []) (parse_v0 comp (length bs + 1) bs)
            (parse_v0-ne-stuck (length bs + 1) bs (omega arith)))
    | inr e ↦ rw (unpack, e) (λ p. cc)
  ]
