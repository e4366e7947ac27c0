-- ===== src/Gdb/Hex/Numbers.antt =====
-- Numbers written as hexadecimal text are read back.
use Prim.Native.Nat.{bit_or}
use native.Mathlib.Decide.{ℕ_discrete}
use dpcpp_trace.Gdb.Hex.Texts.{==_no}
use dpcpp_trace.Prelude.{
  AreBytes, ℕ, ◌+◌, ◌*◌, ◌/◌, ◌%◌, ◌^◌, ◌≤◌, ◌<◌, ◌≡◌, refl, ap, ◌∙◌, false, [], ◌∷◌, ◌++◌, arith,
  ltb, le→ltb, Bytes, length, le_bytes, reverse,
}
use dpcpp_trace.Gdb.Hex.{
  hex_digit, encode, hex_digit_to_int, skip_zeros, trim, encode_int, parse_loop, parse_int,
  parse_u64,
}
use dpcpp_trace.Gdb.Hex.Bits.{bit_or_nibble}
use dpcpp_trace.Gdb.Hex.Texts.{hex_digit_to_int-hex_digit}

-- The number that bytes spell behind another, the highest byte first.
be_value : ℕ → Bytes → ℕ
be_value acc [] = acc
be_value acc (b ∷ bs) = be_value (acc * 256 + b) bs

be_value_grows : (acc : ℕ) (bs : Bytes) → acc ≤ be_value acc bs
unfolding be_value
be_value_grows acc [] = omega arith
be_value_grows acc (b ∷ bs) = omega (arith, be_value_grows (acc * 256 + b) bs)

be_value-append :
    (acc : ℕ) (bs : Bytes) (b : ℕ) → be_value acc (bs ++ b ∷ []) ≡ be_value acc bs * 256 + b
unfolding be_value
be_value-append acc [] b = refl
be_value-append acc (c ∷ bs) b = be_value-append (acc * 256 + c) bs b

digit_step :
    (acc d : ℕ)
    → d < 16
    → acc < 2 ^ 60
    → bit_or (acc * 2 ^ 4 % 2 ^ 64) (hex_digit_to_int (hex_digit d) % 256) ≡ 16 * acc + d
digit_step acc d h small =
    let shift : acc * 2 ^ 4 % 2 ^ 64 ≡ 16 * acc = omega arith in
    let low : d % 256 ≡ d = omega arith in
    rw (hex_digit_to_int-hex_digit d h, shift, low) (bit_or_nibble acc d h)

parse_loop-encode :
    (acc : ℕ) (bs : Bytes)
    → AreBytes bs
    → be_value acc bs < 2 ^ 64
    → parse_loop 64 acc (encode bs) ≡ be_value acc bs
unfolding parse_loop encode be_value
parse_loop-encode acc [] h small = refl
parse_loop-encode acc (b ∷ bs) (hb, h) small =
    let grows = be_value_grows (acc * 256 + b) bs in
    let high : bit_or (acc * 2 ^ 4 % 2 ^ 64) (hex_digit_to_int (hex_digit (b / 2 ^ 4 % 16)) % 256)
        ≡ 16 * acc + b / 2 ^ 4 % 16 =
      digit_step acc (b / 2 ^ 4 % 16) (omega arith) (omega arith) in
    let low : bit_or ((16 * acc + b / 2 ^ 4 % 16) * 2 ^ 4 % 2 ^ 64)
          (hex_digit_to_int (hex_digit (b % 16)) % 256)
        ≡ 16 * (16 * acc + b / 2 ^ 4 % 16) + b % 16 =
      digit_step (16 * acc + b / 2 ^ 4 % 16) (b % 16) (omega arith) (omega arith) in
    let both : 16 * (16 * acc + b / 2 ^ 4 % 16) + b % 16 ≡ acc * 256 + b = omega arith in
    rw (parse_loop, high, low, both) (parse_loop-encode (acc * 256 + b) bs h small)

parse_loop-skip_zeros : (text : Bytes) → parse_loop 64 0 (skip_zeros text) ≡ parse_loop 64 0 text
unfolding skip_zeros parse_loop hex_digit_to_int
parse_loop-skip_zeros [] = refl
parse_loop-skip_zeros (c ∷ cs) = elim (ℕ_discrete c b'0') [
  | yes zero_digit ↦ rw zero_digit (parse_loop-skip_zeros cs)
  | no other ↦ rw (==_no c b'0' other) refl
]

length-skip_zeros : (text : Bytes) → length (skip_zeros text) ≤ length text
unfolding skip_zeros
length-skip_zeros [] = omega arith
length-skip_zeros (c ∷ cs) = ground (arith, length-skip_zeros cs)

parse_trimmed :
    (text rest : Bytes)
    → skip_zeros text ≡ rest
    → length text ≡ 16
    → parse_u64 (trim text) ≡ parse_loop 64 0 rest
unfolding parse_int trim parse_loop hex_digit_to_int
parse_trimmed text [] e h = rw (trim, e) refl
parse_trimmed text (c ∷ cs) e h =
    let fits : ltb 16 (length (c ∷ cs)) ≡ false =
      le→ltb 16 (length (c ∷ cs)) (omega (arith, length-skip_zeros text, ap length e)) in
    rw (trim, e, fits) refl

length-encode : (bs : Bytes) → length (encode bs) ≡ 2 * length bs
unfolding encode
length-encode [] = refl
length-encode (b ∷ bs) = omega (arith, length-encode bs)

parse_encoded :
    (bs : Bytes)
    → AreBytes bs
    → length bs ≡ 8
    → be_value 0 bs < 2 ^ 64
    → parse_u64 (trim (encode bs)) ≡ be_value 0 bs
parse_encoded bs h eight small =
    parse_trimmed (encode bs) (skip_zeros (encode bs)) refl (omega (arith, length-encode bs))
    ∙ parse_loop-skip_zeros (encode bs)
    ∙ parse_loop-encode 0 bs h small

is_byte : (n : ℕ) → n % 256 < 256
is_byte n = omega arith

be_value-le_bytes : (n : ℕ) → n < 2 ^ 64 → be_value 0 (reverse (le_bytes 8 n)) ≡ n
unfolding be_value
be_value-le_bytes n h = omega arith

-- A number below 2 ^ 64, written in hexadecimal without its leading zeros, is parsed to itself.
pub parse_u64-encode_int : (n : ℕ) → n < 2 ^ 64 → parse_u64 (encode_int 8 n) ≡ n
unfolding encode_int
parse_u64-encode_int n h =
    let value = be_value-le_bytes n h in
    let bytes : AreBytes (reverse (le_bytes 8 n)) = search is_byte in
    parse_encoded (reverse (le_bytes 8 n)) bytes refl (omega (arith, value)) ∙ value
