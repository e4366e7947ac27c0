-- ===== src/Gdb/Hex/Texts.antt =====
-- Hexadecimal text and escaped data are read back.
use Prim.Native.Nat.{bit_xor}
use native.Mathlib.Decide.{ℕ_discrete}
use dpcpp_trace.Prelude.{
  AreBytes, ℕ, ◌+◌, ◌*◌, ◌/◌, ◌%◌, ◌^◌, ◌<◌, ◌≡◌, refl, ap, ◌∙◌, ◌≢◌, false, some, [], ◌∷◌, arith,
  ◌==◌, if◌then◌else◌, Bytes, All,
}
use dpcpp_trace.Gdb.Hex.{hex_digit, encode, hex_digit_to_int, decode, decode_string, escape}

pub hex_digit_to_int-hex_digit : (d : ℕ) → d < 16 → hex_digit_to_int (hex_digit d) ≡ d
unfolding hex_digit_to_int hex_digit
hex_digit_to_int-hex_digit d h = ground arith

byte_of_digits :
    (v : ℕ)
    → v < 256
    → (hex_digit_to_int (hex_digit (v / 2 ^ 4 % 16)) * 2 ^ 4 % 256
          + hex_digit_to_int (hex_digit (v % 16)))
        % 256
      ≡ v
byte_of_digits v h =
    rw
      (
        hex_digit_to_int-hex_digit (v / 2 ^ 4 % 16) (omega arith),
        hex_digit_to_int-hex_digit (v % 16) (omega arith),
      )
      (omega arith)

char_of_digits :
    (v : ℕ)
    → v < 256
    → (hex_digit_to_int (hex_digit (v / 2 ^ 4 % 16)) % 256 * 2 ^ 4 % 256
          + hex_digit_to_int (hex_digit (v % 16)))
        % 256
      ≡ v
char_of_digits v h =
    rw
      (
        hex_digit_to_int-hex_digit (v / 2 ^ 4 % 16) (omega arith),
        hex_digit_to_int-hex_digit (v % 16) (omega arith),
      )
      (omega arith)

-- Decoding the hexadecimal text of any bytes gives the bytes.
pub decode-encode : (bs : Bytes) → AreBytes bs → decode (encode bs) ≡ some bs
unfolding decode encode
decode-encode [] h = refl
decode-encode (v ∷ bs) (h, hs) = ground (arith, byte_of_digits v h, decode-encode bs hs)

-- The decoder of a file's name gives the bytes back from their hexadecimal text.
decode_string-encode : (bs : Bytes) → AreBytes bs → decode_string (encode bs) ≡ bs
unfolding decode_string encode
decode_string-encode [] h = refl
decode_string-encode (v ∷ bs) (h, hs) =
    ground (arith, char_of_digits v h, decode_string-encode bs hs)

-- What the receiver of binary data does: a `}` changes the byte behind it.
unfoldable pub unescape : Bytes → Bytes
unescape [] = []
unescape (c ∷ []) = if c == b'}' then [] else c ∷ []
unescape (c ∷ d ∷ cs) = if c == b'}' then bit_xor d 0x20 ∷ unescape cs else c ∷ unescape (d ∷ cs)

unescape_plain : (c : ℕ) (cs : Bytes) → c ≢ b'}' → unescape (c ∷ cs) ≡ c ∷ unescape cs
unfolding unescape
unescape_plain c [] h = ground arith
unescape_plain c (d ∷ cs) h = ground arith

abbrev pub IsPlain : ℕ → Type 0
IsPlain c = (c ≢ b'$') × (c ≢ b'#')

-- A byte that `escape` marks, with what it becomes, and one that it leaves.
data Escaped (c : ℕ) (cs : Bytes) : Bytes → Type 0 where
  marked :
      bit_xor (bit_xor c 0x20) 0x20 ≡ c
      → IsPlain (bit_xor c 0x20)
      → Escaped c cs (b'}' ∷ bit_xor c 0x20 ∷ escape cs)
  left : c ≢ b'}' → IsPlain c → Escaped c cs (c ∷ escape cs)

pub ==_no : (a b : ℕ) → a ≢ b → (a == b) ≡ false
==_no a b h = ground arith

escape_step : (c : ℕ) (cs : Bytes) → Escaped c cs (escape (c ∷ cs))
unfolding escape
escape_step c cs = elim (ℕ_discrete c 0x23) [
  | yes p ↦ rw p (marked refl (omega arith, omega arith))
  | no a ↦ elim (ℕ_discrete c 0x24) [
    | yes p ↦ rw p (marked refl (omega arith, omega arith))
    | no b ↦ elim (ℕ_discrete c 0x7d) [
      | yes p ↦ rw p (marked refl (omega arith, omega arith))
      | no d ↦ elim (ℕ_discrete c 0x2a) [
        | yes p ↦ rw p (marked refl (omega arith, omega arith))
        | no e ↦ rw (==_no c 0x23 a, ==_no c 0x24 b, ==_no c 0x7d d, ==_no c 0x2a e) (left d (b, a))
      ]
    ]
  ]
]

unescape_mark : (d : ℕ) (cs : Bytes) → unescape (b'}' ∷ d ∷ cs) ≡ bit_xor d 0x20 ∷ unescape cs
unfolding unescape
unescape_mark d cs = refl

unescape_step :
    (c : ℕ) (cs out : Bytes) → Escaped c cs out → unescape (escape cs) ≡ cs → unescape out ≡ c ∷ cs
unescape_step c cs _ (marked twice _) ih =
    unescape_mark (bit_xor c 0x20) (escape cs) ∙ rw (twice, ih) refl
unescape_step c cs _ (left h _) ih = unescape_plain c (escape cs) h ∙ ap (λ t. c ∷ t) ih

unescape_nil : unescape (escape []) ≡ []
unfolding escape unescape
unescape_nil = refl

-- Escaped data is read back, whatever it is.
pub unescape-escape : (bs : Bytes) → unescape (escape bs) ≡ bs
unescape-escape [] = unescape_nil
unescape-escape (c ∷ cs) =
    unescape_step c cs (escape (c ∷ cs)) (escape_step c cs) (unescape-escape cs)

IsPlain-step :
    (c : ℕ) (cs out : Bytes) → Escaped c cs out → All IsPlain (escape cs) → All IsPlain out
IsPlain-step c cs _ (marked _ p) ih = ((omega arith, omega arith), (p, ih))
IsPlain-step c cs _ (left _ p) ih = (p, ih)

escape_nil : All IsPlain (escape [])
unfolding escape
escape_nil = tt

-- Escaped data holds neither of the bytes that frame a packet.
escape-IsPlain : (bs : Bytes) → All IsPlain (escape bs)
escape-IsPlain [] = escape_nil
escape-IsPlain (c ∷ cs) = IsPlain-step c cs (escape (c ∷ cs)) (escape_step c cs) (escape-IsPlain cs)
