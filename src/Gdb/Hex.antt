-- ===== src/Gdb/Hex.antt =====
-- GDBServerProtocol.cpp: bytes and numbers as hexadecimal text, escaping, checksums and replies.
pub mod Bits
pub mod Numbers
pub mod Texts
use dpcpp_trace.Prelude.{
  ℕ, ◌+◌, ◌-◌, ◌*◌, ◌/◌, ◌%◌, ◌^◌, Bool, ◌&&◌, ◌||◌, Option, none, some, [], ◌∷◌, ◌++◌, ltb, leb,
  ◌==◌, if◌then◌else◌, Bytes, length, le_bytes, reverse,
}
use Prim.Native.Nat.{bit_or, bit_xor}

-- `hexMap`
unfoldable pub hex_digit : ℕ → ℕ
hex_digit d = if ltb d 10 then b'0' + d else b'a' + (d - 10)

-- `encode` of a sequence of bytes.
unfoldable pub encode : Bytes → Bytes
encode [] = []
encode (v ∷ vs) = hex_digit (v / 2 ^ 4 % 16) ∷ hex_digit (v % 16) ∷ encode vs

-- The `int` as its 32 bits. Between `A` and `F` the difference is taken from the small `a`.
unfoldable pub hex_digit_to_int : ℕ → ℕ
hex_digit_to_int c =
    if leb b'a' c && leb c b'f'
    then 10 + c - b'a'
    else if leb b'A' c && leb c b'F'
    then 10 + c + 2 ^ 32 - b'a'
    else if leb b'0' c && leb c b'9'
    then c - b'0'
    else 2 ^ 32 - 1

-- Pairs of digits; a last digit that stands alone is read with one beyond the text.
unfoldable pub decode : Bytes → Option Bytes
decode [] = some []
decode (c ∷ []) = none
decode (c ∷ d ∷ text) =
    let num = (hex_digit_to_int c * 2 ^ 4 % 256 + hex_digit_to_int d) % 256 in
    elim (decode text) [ none ↦ none | some bs ↦ some (num ∷ bs) ]

-- `decodeString`: a last digit that stands alone is dropped.
unfoldable pub decode_string : Bytes → Bytes
decode_string [] = []
decode_string (c ∷ []) = []
decode_string (c ∷ d ∷ text) =
    ((hex_digit_to_int c % 256 * 2 ^ 4 % 256 + hex_digit_to_int d) % 256) ∷ decode_string text

unfoldable pub escape : Bytes → Bytes
escape [] = []
escape (c ∷ cs) =
    if c == 0x23 || c == 0x24 || c == 0x7d || c == 0x2a
    then b'}' ∷ bit_xor c 0x20 ∷ escape cs
    else c ∷ escape cs

-- The text without its leading zeros.
unfoldable pub skip_zeros : Bytes → Bytes
skip_zeros [] = []
skip_zeros (c ∷ cs) = if c == b'0' then skip_zeros cs else c ∷ cs

unfoldable pub trim : Bytes → Bytes
trim v = elim (skip_zeros v) [ [] ↦ b'0' ∷ [] | c ∷ cs ↦ c ∷ cs ]

-- `encode` of an integer of `size` bytes, by its bits.
unfoldable pub encode_int : ℕ → ℕ → Bytes
encode_int size num = trim (encode (reverse (le_bytes size num)))

-- The loop of `parseInt`, on the bits of the result.
unfoldable pub parse_loop : ℕ → ℕ → Bytes → ℕ
parse_loop bits result [] = result
parse_loop bits result (c ∷ cs) =
    parse_loop bits (bit_or (result * 2 ^ 4 % 2 ^ bits) (hex_digit_to_int c % 256)) cs

-- `parseInt` of a type of `size` bytes, of which `max` is the greatest value.
unfoldable pub parse_int : ℕ → ℕ → Bytes → ℕ
parse_int size max num = if ltb (size * 2) (length num) then max else parse_loop (8 * size) 0 num

abbrev pub parse_u64 : Bytes → ℕ
parse_u64 = parse_int 8 (2 ^ 64 - 1)

abbrev pub parse_i32 : Bytes → ℕ
parse_i32 = parse_int 4 (2 ^ 31 - 1)

unfoldable pub checksum : Bytes → ℕ
checksum [] = 0
checksum (c ∷ cs) = (c + checksum cs) % 256

-- `{:02x}` of the formatting library is the parameter `hex2`.
unfoldable pub create_response : (ℕ → Bytes) → Bytes → Bool → Bytes
create_response hex2 response ack =
    (if ack then b'+' ∷ [] else []) ++ (b'$' ∷ response) ++ (b'#' ∷ hex2 (checksum response))
