-- ===== src/Trace/Read/Rounds.antt =====
-- One round of the loop of `parseTraceFile` on a file that was opened.
use dpcpp_trace.Prelude.{
  ℕ, zero, suc, ◌+◌, ◌-◌, ◌%◌, ◌^◌, ◌≤◌, ◌<◌, ◌≡◌, refl, ◌⊎◌, inl, inr, true, none, some, [], ◌∷◌,
  ◌++◌, arith, lt→ltb, le→leb, le→ltb, lt→leb, Bytes, length, take, drop, replicate, le_value,
  AreBytes, drop-drop, length-take, length-take,
}
use dpcpp_trace.Trace.Api.{Codec}
use dpcpp_trace.Trace.Stream.{Stream, opened, read, read_u32, fill}
use native.Mathlib.Decide.{dec_le, dec_lt}
use dpcpp_trace.Trace.Frame.{read_frame, read_frame_step}

-- Four bytes 0xFF stand one behind the other.
abbrev pub HasMark : Bytes → Type 0
HasMark bs = (k : ℕ) × (take 4 (drop k bs) ≡ 255 ∷ 255 ∷ 255 ∷ 255 ∷ [])

pub HasMark-drop : (n : ℕ) (bs : Bytes) → HasMark (drop n bs) → HasMark bs
HasMark-drop n bs (k, e) = (n + k, rw (drop-drop n k bs) at e)

pub AreBytes-drop : (n : ℕ) (bs : Bytes) → AreBytes bs → AreBytes (drop n bs)
AreBytes-drop zero bs h = h
AreBytes-drop (suc n) [] h = h
AreBytes-drop (suc n) (b ∷ bs) (_, h) = AreBytes-drop n bs h

-- Four bytes of a number that is one below 2 ^ 32 are all 0xFF.
all_ones :
    (a b c d : ℕ)
    → AreBytes (a ∷ b ∷ c ∷ d ∷ [])
    → 2 ^ 32 ≤ le_value (a ∷ b ∷ c ∷ d ∷ []) + 1
    → a ∷ b ∷ c ∷ d ∷ [] ≡ 255 ∷ 255 ∷ 255 ∷ 255 ∷ []
all_ones a b c d (x, (y, (z, (w, _)))) h =
    let first : a ≡ 255 = omega arith in
    let second : b ≡ 255 = omega arith in
    let third : c ≡ 255 = omega arith in
    let fourth : d ≡ 255 = omega arith in rw (first, second, third, fourth) refl

pub sub_zero : (n : ℕ) → n - 0 ≡ n
sub_zero n = omega arith

-- A stream that met the end of its file.
abbrev at_end : Stream
at_end = record { rest = []; eof = true; fail = true }

module _ (junk : ℕ) where
  read_u32-short :
      (bs : Bytes)
      → length bs < 4
      → read_u32 junk (opened bs) ≡ ((read_u32 junk (opened bs)).0, at_end)
  unfolding read_u32 read
  read_u32-short bs h = rw (lt→leb 4 (length bs) h) refl

  read_u32-four :
      (a b c d : ℕ) (more : Bytes)
      → read_u32 junk (opened (a ∷ b ∷ c ∷ d ∷ more)) ≡ (le_value (a ∷ b ∷ c ∷ d ∷ []), opened more)
  unfolding read_u32 read
  read_u32-four a b c d more = rw (le→leb 4 (length (a ∷ b ∷ c ∷ d ∷ more)) (omega arith)) refl

read_within :
    (n : ℕ) (bs : Bytes) → n ≤ length bs → read n (opened bs) ≡ (take n bs, opened (drop n bs))
unfolding read
read_within n bs h = rw (le→leb n (length bs) h) refl

read_beyond : (n : ℕ) (bs : Bytes) → length bs < n → read n (opened bs) ≡ (bs, at_end)
unfolding read
read_beyond n bs h = rw (lt→leb n (length bs) h) refl

fill-nil : (n : ℕ) → fill n [] ≡ some (replicate n 0)
unfolding fill
fill-nil n = rw (le→ltb n 0 (omega arith), sub_zero n) refl

fill_cases :
    (n : ℕ) (got : Bytes)
    → (fill n got ≡ none) × (n < length got) ⊎ (raw : Bytes) × (fill n got ≡ some raw)
unfolding fill
fill_cases n got = elim (dec_lt n (length got)) [
  | yes h ↦ inl (rw (lt→ltb n (length got) h) refl, h)
  | no h ↦ inr (got ++ replicate (n - length got) 0, rw (le→ltb n (length got) (omega arith)) refl)
]

module _ {A : Type 0} (codec : Codec A) (junk : ℕ) where
  -- One round on an open file: it meets the end, it takes four bytes at least, or it writes past the
  -- buffer, since the size is 2 ^ 32 - 1.
  unfoldable pub Round : Bytes → Type 0
  Round bs =
      ((c : A) × (s : Stream) × (read_frame codec junk (opened bs) ≡ some (c, s)) × (s.eof ≡ true))
      ⊎ (((c : A) × (n : ℕ) × (read_frame codec junk (opened bs)
              ≡ some (c, opened (drop n (drop 4 bs))))
            × (4 ≤ length bs))
          ⊎ ((read_frame codec junk (opened bs) ≡ none) × HasMark bs))

  read_frame_fault :
      (s : Stream) {s₁ s₂ : Stream} {size : ℕ} {got : Bytes}
      → read_u32 junk s ≡ (size, s₁)
      → read size s₁ ≡ (got, s₂)
      → fill ((size + 1) % 2 ^ 32) got ≡ none
      → read_frame codec junk s ≡ none
  unfolding read_frame
  read_frame_fault s e₁ e₂ e₃ = ground arith

  short-Round : (bs : Bytes) → length bs < 4 → Round bs
  unfolding Round read
  short-Round bs h =
      let n = (read_u32 junk (opened bs)).0 in
      inl (
        codec.parse (replicate ((n + 1) % 2 ^ 32) 0),
        at_end,
        read_frame_step codec junk (opened bs) {size = n} (read_u32-short junk bs h) refl
            (fill-nil ((n + 1) % 2 ^ 32)),
        refl,
      )

  -- A size that does not fit the buffer is the greatest one.
  marked :
      (a b c d : ℕ) (more got : Bytes)
      → AreBytes (a ∷ b ∷ c ∷ d ∷ more)
      → length got ≤ le_value (a ∷ b ∷ c ∷ d ∷ [])
      → (le_value (a ∷ b ∷ c ∷ d ∷ []) + 1) % 2 ^ 32 < length got
      → HasMark (a ∷ b ∷ c ∷ d ∷ more)
  marked a b c d more got (x, (y, (z, (w, _)))) short over =
      (0, all_ones a b c d (x, (y, (z, (w, tt)))) (omega arith))

  long-Round :
      (a b c d : ℕ) (more : Bytes) → AreBytes (a ∷ b ∷ c ∷ d ∷ more) → Round (a ∷ b ∷ c ∷ d ∷ more)
  unfolding Round
  long-Round a b c d more h =
      let size = le_value (a ∷ b ∷ c ∷ d ∷ []) in
      let bs : Bytes = a ∷ b ∷ c ∷ d ∷ more in
      let first = read_u32-four junk a b c d more in
      elim (dec_le size (length more)) [
        | yes within ↦
            let second = read_within size more within in
            elim (fill_cases ((size + 1) % 2 ^ 32) (take size more)) [
              | inl (e, over) ↦ inr (
                  inr (
                    read_frame_fault (opened bs) first second e,
                    marked a b c d more (take size more) h
                        (omega (arith, length-take size more within)) over,
                  ))
              | inr (raw, e) ↦ inr (
                  inl (
                    codec.parse raw,
                    size,
                    read_frame_step codec junk (opened bs) first second e,
                    omega arith,
                  ))
            ]
        | no beyond ↦
            let second = read_beyond size more (omega arith) in
            elim (fill_cases ((size + 1) % 2 ^ 32) more) [
              | inl (e, over) ↦ inr (
                  inr (
                    read_frame_fault (opened bs) first second e,
                    marked a b c d more more h (omega arith) over,
                  ))
              | inr (raw, e) ↦ inl (
                codec.parse raw,
                at_end,
                read_frame_step codec junk (opened bs) first second e,
                refl,
              )
            ]
      ]

  pub round : (bs : Bytes) → AreBytes bs → Round bs
  round [] h = short-Round [] (omega arith)
  round (a ∷ []) h = short-Round (a ∷ []) (omega arith)
  round (a ∷ b ∷ []) h = short-Round (a ∷ b ∷ []) (omega arith)
  round (a ∷ b ∷ c ∷ []) h = short-Round (a ∷ b ∷ c ∷ []) (omega arith)
  round (a ∷ b ∷ c ∷ d ∷ more) h = long-Round a b c d more h
