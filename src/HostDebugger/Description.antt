-- ===== src/HostDebugger/Description.antt =====
-- HostDebugger.cpp: the description of the registers that a client is given.
use dpcpp_trace.Prelude.{ℕ, ◌+◌, ◌*◌, Option, none, some, List, [], ◌∷◌, ◌++◌, Bytes, codes}
use dpcpp_trace.HostDebugger.{Encoding, Format, RegisterInfo, Lldb}

unfoldable pub get_encoding_name_or_empty : RegisterInfo → Bytes
get_encoding_name_or_empty info = elim info.encoding [
  | Encoding.uint ↦ codes "uint"
  | Encoding.sint ↦ codes "sint"
  | Encoding.ieee754 ↦ codes "ieee754"
  | Encoding.vector ↦ codes "vector"
  | Encoding.other_encoding ↦ []
]

unfoldable pub get_format_name_or_empty : RegisterInfo → Bytes
get_format_name_or_empty info = elim info.format [
  | Format.binary ↦ codes "binary"
  | Format.decimal ↦ codes "decimal"
  | Format.hex ↦ codes "hex"
  | Format.float ↦ codes "float"
  | Format.vector_of_sint8 ↦ codes "vector-sint8"
  | Format.vector_of_uint8 ↦ codes "vector-uint8"
  | Format.vector_of_sint16 ↦ codes "vector-sint16"
  | Format.vector_of_uint16 ↦ codes "vector-uint16"
  | Format.vector_of_sint32 ↦ codes "vector-sint32"
  | Format.vector_of_uint32 ↦ codes "vector-uint32"
  | Format.vector_of_float32 ↦ codes "vector-float32"
  | Format.vector_of_uint64 ↦ codes "vector-uint64"
  | Format.vector_of_uint128 ↦ codes "vector-uint128"
  | Format.other_format ↦ []
]

-- `{}` of a number is a parameter.
module _ (to_decimal : ℕ → Bytes) where
  -- An attribute, a space behind it; and one that is left out if its text is empty.
  abbrev pub attribute : Bytes → Bytes → Bytes
  attribute name value = name ++ (codes "=\"" ++ (value ++ codes "\" "))

  abbrev pub attribute_if : Bytes → Bytes → Bytes
  attribute_if name [] = []
  attribute_if name (c ∷ value) = attribute name (c ∷ value)

  unfoldable pub register_xml : ℕ → RegisterInfo → Bytes
  unfolding get_encoding_name_or_empty get_format_name_or_empty
  register_xml index info =
      let alt_name : Bytes = elim info.alt_name [ none ↦ [] | some n ↦ n ] in
      codes "<reg "
      ++ (attribute (codes "name") info.name
          ++ (attribute (codes "bitsize") (to_decimal (info.byte_size * 8))
              ++ (attribute (codes "regnum") (to_decimal index)
                  ++ (attribute (codes "offset") (to_decimal info.byte_offset)
                      ++ (attribute_if (codes "altname") alt_name
                          ++ (attribute_if (codes "encoding") (get_encoding_name_or_empty info)
                              ++ (attribute_if (codes "format") (get_format_name_or_empty info)
                                  ++ codes "/>\n")))))))

  -- The loop; `none` is a null pointer that is read.
  unfoldable pub registers_xml : ℕ → List (Option RegisterInfo) → Option Bytes
  registers_xml index [] = some []
  registers_xml index (none ∷ infos) = none
  registers_xml index (some info ∷ infos) = elim (registers_xml (index + 1) infos) [
    | none ↦ none
    | some rest ↦ some (register_xml index info ++ rest)
  ]

  unfoldable pub get_gdb_target_xml : {W : Type 0} → Lldb W → W → Option Bytes
  get_gdb_target_xml lldb w = elim (lldb.get_thread_at_index 0 w) [
    | none ↦ none
    | some thread ↦ elim (registers_xml 0 (lldb.register_infos thread)) [
      | none ↦ none
      | some registers ↦ some (
          codes "<?xml version=\"1.0\"?>\n<target version=\"1.0\">\n<architecture>"
          ++ (lldb.arch_name w
              ++ (codes "</architecture>\n<feature>\n"
                  ++ (registers ++ codes "</feature>\n</target>"))))
    ]
  ]
