-- ===== src/Record/Args.antt =====
-- record_handler.cpp `collectArgs`: the arguments of a call as the trace keeps them.
use dpcpp_trace.Prelude.{
  ℕ, ◌+◌, ◌-◌, ◌*◌, ◌^◌, ◌≡◌, ◌⊎◌, List, [], ◌∷◌, map, arith, ltb, ◌==◌, if◌then◌else◌, Bytes, All,
}
use dpcpp_trace.Trace.Api.{ArgType, ArgData, int_val, str_val}

-- A C++ argument: a text and where it stands, another pointer, an integer of a number of bytes by its
-- bit pattern.
pub data Value : Type 0 where
  c_string : ℕ → Bytes → Value
  pointer : ℕ → Value
  unsigned : ℕ → ℕ → Value
  signed : ℕ → ℕ → Value

-- What `T` stands for in `T &&arg`: a type for an rvalue, and a reference type for an lvalue.
pub data Category : Type 0 where
  rvalue lvalue : Category

-- `static_cast<int64_t>` of a signed integer of `size` bytes, as 64 bits.
unfoldable pub sign_extend : ℕ → ℕ → ℕ
sign_extend size w = if ltb w (2 ^ (8 * size - 1)) then w else w + 2 ^ 64 - 2 ^ (8 * size)

-- The type that the size selects; other sizes keep the message's default, which is `INT32`.
abbrev by_size : ℕ → ArgType → ArgType → ArgType
by_size size four eight = if size == 4 then four else if size == 8 then eight else ArgType.int32

abbrev arg : ArgType → ℕ → ArgData
arg type w = record { type = type; value = int_val w }

-- `is_same_v<T, const char *>` and `is_unsigned_v<T>` hold of no reference type; `is_pointer_v` is asked
-- behind `remove_reference_t`, and `sizeof` sees through a reference.
unfoldable pub collect_arg : Category → Value → ArgData
collect_arg rvalue (c_string p text) = record { type = ArgType.string; value = str_val text }
collect_arg lvalue (c_string p text) = arg ArgType.pointer p
collect_arg _ (pointer p) = arg ArgType.pointer p
collect_arg rvalue (unsigned size w) = arg (by_size size ArgType.uint32 ArgType.uint64) w
collect_arg lvalue (unsigned size w) = arg (by_size size ArgType.int32 ArgType.int64) w
collect_arg _ (signed size w) = arg (by_size size ArgType.int32 ArgType.int64) (sign_extend size w)

-- Every caller hands over its parameters by name, and the recursion its pack: lvalues all.
unfoldable pub collect_args : List Value → List ArgData
collect_args = map (collect_arg lvalue)

-- A type that stands for a number with a sign, or for a pointer.
abbrev pub IsSignedOrPointer : ArgData → Type 0
IsSignedOrPointer a =
    (a.type ≡ ArgType.int32) ⊎ (a.type ≡ ArgType.int64) ⊎ (a.type ≡ ArgType.pointer)

collect_arg-IsSignedOrPointer : (v : Value) → IsSignedOrPointer (collect_arg lvalue v)
unfolding collect_arg
collect_arg-IsSignedOrPointer (c_string p text) = ground arith
collect_arg-IsSignedOrPointer (pointer p) = ground arith
collect_arg-IsSignedOrPointer (unsigned size w) = ground arith
collect_arg-IsSignedOrPointer (signed size w) = ground arith

-- No argument is ever recorded as a text or as an unsigned number, whatever the call's arguments are.
collect_args-IsSignedOrPointer : (vs : List Value) → All IsSignedOrPointer (collect_args vs)
unfolding collect_args
collect_args-IsSignedOrPointer [] = tt
collect_args-IsSignedOrPointer (v ∷ vs) =
    (collect_arg-IsSignedOrPointer v, collect_args-IsSignedOrPointer vs)
