-- ===== src/Trace/Api.antt =====
-- tools/schemas/api_call.proto, and protobuf's serializer as a parameter.
use dpcpp_trace.Prelude.{ℕ, List, Bytes, ◌≡◌, ◌<◌, ◌-◌, ◌^◌, [], ◌∷◌, ◌++◌, length}

pub data ArgType : Type 0 where
  int32 int64 uint32 uint64 pointer string : ArgType

-- `oneof data`: an argument holds a number or a text.
pub data ArgValue : Type 0 where
  int_val : ℕ → ArgValue
  str_val : Bytes → ArgValue

pub record ArgData : Type 0 where
  pub type : ArgType
  pub value : ArgValue

pub record ApiCall : Type 0 where
  pub function_id : ℕ
  pub time_start : ℕ
  pub time_end : ℕ
  pub return_value : ℕ
  pub args : List ArgData
  pub small_outputs : List Bytes
  pub mem_obj_outputs : List Bytes

-- The code that protobuf generates for a message type: `SerializeToString`, and the message that
-- `ParseFromString` leaves behind (its verdict is dropped by every caller).
pub record Codec (A : Type 0) : Type 0 where
  pub serialize : A → Bytes
  pub parse : Bytes → A

-- What the readers rely on for a message: it is read back also when a zero byte follows it, which
-- ends a message for protobuf, and its size leaves room for that byte in 32 bits.
pub record Fits {A : Type 0} (codec : Codec A) (message : A) : Type 0 where
  pub parse-serialize : codec.parse (codec.serialize message ++ 0 ∷ []) ≡ message
  pub size_fits : length (codec.serialize message) < 2 ^ 32 - 1
