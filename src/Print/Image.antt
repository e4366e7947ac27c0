-- ===== src/Print/Image.antt =====
-- src/print.cpp `printImageDesc`: the description of a device binary, as lines of text.
use dpcpp_trace.Prelude.{
  ℕ, ◌+◌, ◌-◌, ◌%◌, ◌^◌, ◌<◌, ◌≡◌, ◌∙◌, Option, none, some, List, [], ◌∷◌, ◌++◌, append-nil, arith,
  ◌==◌, if◌then◌else◌, le→ltb, Bytes, length, drop, replicate, le_bytes, le_value,
  le_value-le_bytes, codes,
}
use dpcpp_trace.Trace.Api.{Codec}
use dpcpp_trace.Trace.Stream.{Stream, opened, read, fill, read_whole}
use dpcpp_trace.Record.Recorder.{Environment}
use dpcpp_trace.Record.Binaries.{
  OffloadEntry, Property, PropertySet, DeviceBinary, PiBinary, Formats, binary_descriptor,
  dump_binary_descriptor,
}

-- `PI_PROPERTY_TYPE_…`, which the runtime's headers give.
pub record PropertyTypes : Type 0 where
  pub unknown_type : ℕ
  pub uint32 : ℕ
  pub byte_array : ℕ
  pub string : ℕ

-- `{:>5}` and `{:>10}` of one blank.
abbrev blanks : ℕ → Bytes
blanks n = replicate n b' '

-- Reading a 64-bit word into a variable that held `junk`.
unfoldable pub read_u64 : ℕ → Stream → ℕ × Stream
unfolding read
read_u64 junk s =
    let (got, s') = read 8 s in (le_value (got ++ drop (length got) (le_bytes 8 junk)), s')

module _ (to_string : ℕ → Bytes) (formats : Formats) (types : PropertyTypes) where
  -- The tests in their order; a format that is none of the four prints no line.
  unfoldable pub format_line : ℕ → List Bytes
  format_line format =
      if format == formats.spirv
      then codes "Format: SPIR-V" ∷ []
      else if format == formats.native
      then codes "Format: Native" ∷ []
      else if format == formats.llvmir_bitcode
      then codes "Format: LLVM IR Bitcode" ∷ []
      else if format == formats.none_
      then codes "Format: None" ∷ []
      else []

  unfoldable pub type_lines : Property → List Bytes
  type_lines p =
      if p.type == types.unknown_type
      then (blanks 10 ++ codes "Type: UNKNOWN") ∷ []
      else if p.type == types.uint32
      then (blanks 10 ++ codes "Type: uint32") ∷ []
      else if p.type == types.byte_array
      then (blanks 10 ++ codes "Type: byte array") ∷ []
      else if p.type == types.string
      then (blanks 10 ++ codes "Type: string") ∷ (blanks 10 ++ codes "Value: " ++ p.contents) ∷ []
      else []

  unfoldable pub property_lines : List Property → List Bytes
  unfolding type_lines
  property_lines [] = []
  property_lines (p ∷ ps) =
      (blanks 10 ++ codes "Name: " ++ p.name)
      ∷ (blanks 10 ++ codes "Size: " ++ to_string (length p.contents))
      ∷ (type_lines p ++ property_lines ps)

  unfoldable pub property_set_lines : List PropertySet → List Bytes
  unfolding property_lines
  property_set_lines [] = []
  property_set_lines (s ∷ ss) =
      (blanks 5 ++ codes "Name: " ++ s.name)
      ∷ (blanks 5 ++ codes "Properties [" ++ to_string (length s.properties) ++ codes "]:")
      ∷ (property_lines s.properties ++ property_set_lines ss)

  unfoldable pub entry_lines : List OffloadEntry → List Bytes
  entry_lines [] = []
  entry_lines (e ∷ es) =
      (blanks 5 ++ codes "Address: " ++ to_string e.address)
      ∷ (blanks 5 ++ codes "Name: " ++ e.name)
      ∷ (blanks 5 ++ codes "Size: " ++ to_string e.size)
      ∷ entry_lines es

  -- What is printed of a descriptor that was read from `path`.
  unfoldable pub image_lines : Bytes → DeviceBinary → List Bytes
  unfolding format_line entry_lines property_set_lines
  image_lines path binary =
      (codes "Image desc: " ++ path)
      ∷ (codes "Version: " ++ to_string binary.version)
      ∷ (codes "Kind: " ++ to_string binary.kind)
      ∷ (format_line (binary.format % 256)
          ++ (codes "Device target: " ++ binary.device_target_spec)
            ∷ (codes "Compile options: " ++ binary.compile_options)
            ∷ (codes "Link options: " ++ binary.link_options)
            ∷ (codes "Offload entries [" ++ to_string (length binary.offload_entries) ++ codes "]:")
            ∷ (entry_lines binary.offload_entries
                ++ (codes "Property sets ["
                    ++ to_string (length binary.property_sets)
                    ++ codes "]:")
                  ∷ (property_set_lines binary.property_sets ++ [] ∷ [])))

  -- `printImageDesc`; `none` is a write past the buffer. `size + 1` is a 64-bit sum.
  unfoldable pub print_image_desc : Codec DeviceBinary → ℕ → Bytes → Stream → Option (List Bytes)
  print_image_desc codec junk path s =
      let (size, s₁) = read_u64 junk s in
      let (got, s₂) = read size s₁ in
      elim (fill ((size + 1) % 2 ^ 64) got) [
        | none ↦ none
        | some raw ↦ some (image_lines path (codec.parse raw))
      ]

-- What the reader relies on for a descriptor: it is read back also when a zero byte follows it, and
-- its size leaves room for that byte in 64 bits.
pub record FitsDescriptor (codec : Codec DeviceBinary) (binary : DeviceBinary) : Type 0 where
  pub parse-serialize : codec.parse (codec.serialize binary ++ 0 ∷ []) ≡ binary
  pub size_fits : length (codec.serialize binary) < 2 ^ 64 - 1

read_u64-le_bytes :
    (junk n : ℕ) (rest : Bytes)
    → n < 2 ^ 64
    → read_u64 junk (opened (le_bytes 8 n ++ rest)) ≡ (n, opened rest)
unfolding read_u64
read_u64-le_bytes junk n rest h =
    rw (read_whole (le_bytes 8 n) rest) (ground (arith, le_value-le_bytes 8 n h))

fill_one_more :
    (raw : Bytes)
    → length raw < 2 ^ 64 - 1
    → fill ((length raw + 1) % 2 ^ 64) raw ≡ some (raw ++ 0 ∷ [])
unfolding fill
fill_one_more raw h =
    let sum : (length raw + 1) % 2 ^ 64 ≡ length raw + 1 = omega arith in
    let room : length raw + 1 - length raw ≡ 1 = omega arith in
    rw (sum, le→ltb (length raw + 1) (length raw) (omega arith), room)

image_step :
    (to_string : ℕ → Bytes) (formats : Formats) (types : PropertyTypes) (codec : Codec DeviceBinary)
    (junk : ℕ) (path : Bytes) (s : Stream) {s₁ s₂ : Stream} {size : ℕ} {got raw : Bytes}
    → read_u64 junk s ≡ (size, s₁)
    → read size s₁ ≡ (got, s₂)
    → fill ((size + 1) % 2 ^ 64) got ≡ some raw
    → print_image_desc to_string formats types codec junk path s
      ≡ some (image_lines to_string formats types path (codec.parse raw))
unfolding print_image_desc
image_step to_string formats types codec junk path s e₁ e₂ e₃ = ground arith

-- If the serializer gives a binary's description back and its size leaves room in 64 bits, the file
-- that the recorder dumps for the binary is printed as exactly that description, whatever the
-- uninitialised size held.
pub print_image_desc-dump :
    (to_string : ℕ → Bytes) (formats : Formats) (types : PropertyTypes) (codec : Codec DeviceBinary)
    (env : Environment) (junk idx : ℕ) (path : Bytes) (b : PiBinary)
    → FitsDescriptor codec (binary_descriptor b)
    → print_image_desc to_string formats types codec junk path
        (opened (dump_binary_descriptor env formats codec b idx).1)
      ≡ some (image_lines to_string formats types path (binary_descriptor b))
unfolding dump_binary_descriptor
print_image_desc-dump to_string formats types codec env junk idx path b fit =
    let out = codec.serialize (binary_descriptor b) in
    let whole = rw append-nil at (read_whole out []) in
    image_step to_string formats types codec junk path _
      (read_u64-le_bytes junk (length out) out (omega (arith, fit.size_fits))) whole
      (fill_one_more out fit.size_fits)
    ∙ rw fit.parse-serialize
