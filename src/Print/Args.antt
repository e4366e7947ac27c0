-- ===== src/Print/Args.antt =====
-- src/pretty_printers.hpp `printArgs`: the arguments of a call as the printer shows them.
use dpcpp_trace.Prelude.{
  ℕ, ◌-◌, ◌*◌, ◌%◌, ◌^◌, ◌≤◌, ◌<◌, ◌≡◌, refl, ◌↔◌, ◌⊎◌, inl, inr, List, [], map, arith, Bytes,
  codes, ℤ, pos, to_signed,
}
use native.Mathlib.Decide.{dec_lt}
use dpcpp_trace.Trace.Api.{ArgType, ArgValue, ArgData, int_val, str_val}
use dpcpp_trace.Record.Args.{
  Value, lvalue, c_string, pointer, unsigned, signed, sign_extend, collect_arg,
}

-- One `fmt::print` with its label: a number, a number behind `0x` in hexadecimal, or a text.
pub data Shown : Type 0 where
  number : Bytes → ℤ → Shown
  hexadecimal : Bytes → ℕ → Shown
  text : Bytes → Bytes → Shown

abbrev pub unknown : Bytes
unknown = codes "<unknown>"

abbrev pub unknown_ptr : Bytes
unknown_ptr = codes "<unknown ptr>"

abbrev pub string_label : Bytes
string_label = codes "<string>"

-- `arg.int_val()`, which is 0 for a text, and `arg.str_val()`, which is empty for a number.
abbrev get_int : ArgValue → ℕ
get_int (int_val n) = n
get_int (str_val s) = 0

abbrev get_str : ArgValue → Bytes
get_str (int_val n) = []
get_str (str_val s) = s

abbrev arg_of : ArgType → ℕ → ArgData
arg_of type w = record { type = type; value = int_val w }

print_typed : ArgType → ArgValue → Shown
print_typed ArgType.int32 v = number unknown (to_signed 32 (get_int v % 2 ^ 32))
print_typed ArgType.int64 v = number unknown (to_signed 64 (get_int v))
print_typed ArgType.uint32 v = number unknown (pos (get_int v % 2 ^ 32))
print_typed ArgType.uint64 v = number unknown (pos (get_int v))
print_typed ArgType.pointer v = hexadecimal unknown_ptr (get_int v)
print_typed ArgType.string v = text string_label (get_str v)

-- The body of the loop.
unfoldable pub print_arg : ArgData → Shown
unfolding print_typed
print_arg arg = print_typed arg.type arg.value

unfoldable pub print_call_args : List ArgData → List Shown
print_call_args = map print_arg

-- What the program passed: numbers by their value, pointers and texts by their address.
pub value_shown : Value → Shown
value_shown (c_string p s) = hexadecimal unknown_ptr p
value_shown (pointer p) = hexadecimal unknown_ptr p
value_shown (unsigned size w) = number unknown (pos w)
value_shown (signed size w) = number unknown (to_signed (8 * size) w)

-- The words of C++'s integer types.
abbrev pub IsWord : ℕ → ℕ → Type 0
IsWord size w = ((size ≡ 1) ⊎ (size ≡ 2) ⊎ (size ≡ 4) ⊎ (size ≡ 8)) × (w < 2 ^ (8 * size))

abbrev pub IsValue : Value → Type 0
IsValue (c_string p s) = Unit {0}
IsValue (pointer p) = Unit {0}
IsValue (unsigned size w) = IsWord size w
IsValue (signed size w) = IsWord size w

-- An unsigned number whose highest bit is the sign's in the trace.
abbrev pub HasTopBit : Value → Type 0
HasTopBit (unsigned size w) = (4 ≤ size) × (2 ^ (8 * size - 1) ≤ w)
HasTopBit _ = ⊥

module _ (w : ℕ) where
  shown_short : w < 2 ^ 16 → print_arg (arg_of ArgType.int32 w) ≡ number unknown (pos w)
  unfolding print_arg
  shown_short h = ground arith

  shown_4 :
      w < 2 ^ 32 → (print_arg (arg_of ArgType.int32 w) ≡ number unknown (pos w)) ↔ (w < 2 ^ 31)
  unfolding print_arg
  shown_4 h = (λ e. ground arith, λ l. ground arith)

  shown_8 :
      w < 2 ^ 64 → (print_arg (arg_of ArgType.int64 w) ≡ number unknown (pos w)) ↔ (w < 2 ^ 63)
  unfolding print_arg
  shown_8 h = (λ e. ground arith, λ l. ground arith)

below : {w : ℕ} (size bound : ℕ) → ¬ ((4 ≤ size) × (bound ≤ w)) → 4 ≤ size → w < bound
below {w} size bound n h = elim (dec_lt w bound) [ yes l ↦ l | no g ↦ absurd (n (h, omega arith)) ]

abbrev Claim : Value → Type 0
Claim v = (print_arg (collect_arg lvalue v) ≡ value_shown v) ↔ (¬ HasTopBit v)

module _ (w : ℕ) where
  unsigned_1 : w < 2 ^ 8 → Claim (unsigned 1 w)
  unfolding collect_arg value_shown
  unsigned_1 h = (λ e b. omega arith, λ n. shown_short w (omega arith))

  unsigned_2 : w < 2 ^ 16 → Claim (unsigned 2 w)
  unfolding collect_arg value_shown
  unsigned_2 h = (λ e b. omega arith, λ n. shown_short w (omega arith))

  unsigned_4 : w < 2 ^ 32 → Claim (unsigned 4 w)
  unfolding collect_arg value_shown
  unsigned_4 h = (
    λ e b. absurd (omega (arith, (shown_4 w h).0 e)),
    λ n. (shown_4 w h).1 (below 4 (2 ^ 31) n (omega arith)),
  )

  unsigned_8 : w < 2 ^ 64 → Claim (unsigned 8 w)
  unfolding collect_arg value_shown
  unsigned_8 h = (
    λ e b. absurd (omega (arith, (shown_8 w h).0 e)),
    λ n. (shown_8 w h).1 (below 8 (2 ^ 63) n (omega arith)),
  )

  signed_1 : w < 2 ^ 8 → Claim (signed 1 w)
  unfolding collect_arg value_shown sign_extend print_arg
  signed_1 h = (λ e b. b, λ n. ground arith)

  signed_2 : w < 2 ^ 16 → Claim (signed 2 w)
  unfolding collect_arg value_shown sign_extend print_arg
  signed_2 h = (λ e b. b, λ n. ground arith)

  signed_4 : w < 2 ^ 32 → Claim (signed 4 w)
  unfolding collect_arg value_shown sign_extend print_arg
  signed_4 h = (λ e b. b, λ n. ground arith)

  signed_8 : w < 2 ^ 64 → Claim (signed 8 w)
  unfolding collect_arg value_shown sign_extend print_arg
  signed_8 h = (λ e b. b, λ n. ground arith)

-- A claim about every word of the four sizes, from one for each size.
by_sizes :
    (P : ℕ → Type 0) (size w : ℕ)
    → IsWord size w
    → (w < 2 ^ 8 → P 1)
    → (w < 2 ^ 16 → P 2)
    → (w < 2 ^ 32 → P 4)
    → (w < 2 ^ 64 → P 8)
    → P size
by_sizes P size w (h, small) one two four eight = elim h [
  | inl e ↦ rw e (one (rw e at small))
  | inr (inl e) ↦ rw e (two (rw e at small))
  | inr (inr (inl e)) ↦ rw e (four (rw e at small))
  | inr (inr (inr e)) ↦ rw e (eight (rw e at small))
]

-- Whatever integer of 1, 2, 4 or 8 bytes, pointer or text a handler hands over, the printer shows
-- its value, or its address, exactly if it is no unsigned number of 4 or 8 bytes with the top bit set.
pub print_arg-collect_arg :
    (v : Value) → IsValue v → (print_arg (collect_arg lvalue v) ≡ value_shown v) ↔ (¬ HasTopBit v)
unfolding print_arg collect_arg value_shown sign_extend
print_arg-collect_arg (c_string p s) h = (λ e b. b, λ n. refl)
print_arg-collect_arg (pointer p) h = (λ e b. b, λ n. refl)
print_arg-collect_arg (unsigned size w) h =
    by_sizes (λ n. Claim (unsigned n w)) size w h (unsigned_1 w) (unsigned_2 w) (unsigned_4 w)
      (unsigned_8 w)
print_arg-collect_arg (signed size w) h =
    by_sizes (λ n. Claim (signed n w)) size w h (signed_1 w) (signed_2 w) (signed_4 w) (signed_8 w)
