-- ===== src/Record/Binaries.antt =====
-- record_handler.cpp `dumpBinaryDescriptor` and `handleSelectBinary`: the device binaries, written once.
use dpcpp_trace.Prelude.{
  ℕ, ◌+◌, Bool, true, false, Option, none, some, List, [], ◌∷◌, ◌++◌, map, ◌==◌, if◌then◌else◌,
  Bytes, length, le_bytes,
}
use dpcpp_trace.Trace.Api.{Codec}
use dpcpp_trace.Replay.Memory.{Memory, load}
use dpcpp_trace.Record.Args.{pointer, unsigned}
use dpcpp_trace.Record.Recorder.{
  Environment, Recorder, Handled, begin_call, finish_call, with_result,
}

-- device_binary.proto
pub record OffloadEntry : Type 0 where
  pub address : ℕ
  pub name : Bytes
  pub size : ℕ
  pub flags : ℕ

pub record Property : Type 0 where
  pub name : Bytes
  pub type : ℕ
  pub contents : Bytes

pub record PropertySet : Type 0 where
  pub name : Bytes
  pub properties : List Property

pub record DeviceBinary : Type 0 where
  pub version : ℕ
  pub kind : ℕ
  pub format : ℕ
  pub device_target_spec : Bytes
  pub compile_options : Bytes
  pub link_options : Bytes
  pub offload_entries : List OffloadEntry
  pub property_sets : List PropertySet
  pub manifest : Bytes

-- What the runtime's structures hold; `none` is a null pointer.
pub record PiProperty : Type 0 where
  pub name : Bytes
  pub type : ℕ
  pub value : Option Bytes

pub record PiPropertySet : Type 0 where
  pub name : Bytes
  pub properties : List PiProperty

pub record PiBinary : Type 0 where
  pub version : ℕ
  pub kind : ℕ
  pub format : ℕ
  pub device_target_spec : Option Bytes
  pub compile_options : Option Bytes
  pub link_options : Option Bytes
  pub entries : List OffloadEntry
  pub property_sets : List PiPropertySet
  pub manifest : Option Bytes
  pub image : Bytes

-- A field of a message that is set only if the pointer is not null.
abbrev set_if : Option Bytes → Bytes
set_if none = []
set_if (some bs) = bs

abbrev dump_property : PiProperty → Property
dump_property p = record { name = p.name; type = p.type; contents = set_if p.value }

abbrev dump_property_set : PiPropertySet → PropertySet
dump_property_set s = record { name = s.name; properties = map dump_property s.properties }

-- The message that is dumped.
unfoldable pub binary_descriptor : PiBinary → DeviceBinary
binary_descriptor b = record {
  version = b.version;
  kind = b.kind;
  format = b.format;
  device_target_spec = set_if b.device_target_spec;
  compile_options = set_if b.compile_options;
  link_options = set_if b.link_options;
  offload_entries = b.entries;
  property_sets = map dump_property_set b.property_sets;
  manifest = set_if b.manifest;
}

-- The numbers of the binary formats, which the runtime's headers give.
pub record Formats : Type 0 where
  pub spirv : ℕ
  pub native : ℕ
  pub llvmir_bitcode : ℕ
  pub none_ : ℕ

module _ (env : Environment) (formats : Formats) (binary_codec : Codec DeviceBinary) where
  -- The file of a descriptor: a 64-bit size, and the message.
  unfoldable pub dump_binary_descriptor : PiBinary → ℕ → Bytes × Bytes
  dump_binary_descriptor b idx =
      let out = binary_codec.serialize (binary_descriptor b) in
      (env.to_string idx ++ (b'.' ∷ b'd' ∷ b'e' ∷ b's' ∷ b'c' ∷ []), le_bytes 8 (length out) ++ out)

  unfoldable pub binary_extension : ℕ → Bytes
  binary_extension format =
      if format == formats.spirv
      then b'.' ∷ b's' ∷ b'p' ∷ b'v' ∷ []
      else if format == formats.native
      then b'.' ∷ b'b' ∷ b'i' ∷ b'n' ∷ []
      else if format == formats.llvmir_bitcode
      then b'.' ∷ b'b' ∷ b'c' ∷ []
      else if format == formats.none_
      then b'.' ∷ b'n' ∷ b'o' ∷ b'n' ∷ b'e' ∷ []
      else []

  -- The loop over the binaries, with the files that it writes; a string from a null pointer is undefined.
  unfoldable pub dump_binaries : ℕ → List PiBinary → Option (List (Bytes × Bytes))
  dump_binaries i [] = some []
  dump_binaries i (b ∷ bs) = elim b.device_target_spec [
    | none ↦ none
    | some spec ↦ elim (dump_binaries (i + 1) bs) [
      | none ↦ none
      | some files ↦ some (
          (env.to_string i ++ (b'_' ∷ spec) ++ binary_extension b.format, b.image)
          ∷ dump_binary_descriptor b i
          ∷ files)
    ]
  ]

-- What is left of a call of `handleSelectBinary`; `undefined` has used a null pointer.
pub data Selected : Type 0 where
  selected : List (Bytes × Bytes) → Handled → Selected
  skipped : Selected
  undefined : Selected

module _ (env : Environment) (formats : Formats) (binary_codec : Codec DeviceBinary) where
  -- The part behind the dump. Eight bytes are kept of the four that `selectedBinary` points to.
  unfoldable pub record_selection : Recorder → Memory → Option ℕ → ℕ → ℕ → ℕ → ℕ → Handled
  record_selection r m res device binaries num_binaries selected_binary = with_result res λ result.
      let call = begin_call r result (
        pointer device
        ∷ pointer binaries
        ∷ unsigned 4 num_binaries
        ∷ pointer selected_binary
        ∷ []) in
      finish_call env r (record call { small_outputs = load 8 selected_binary m ∷ [] })

  -- `collected` is `GBinariesCollected` at the first test, and `collected_locked` at the second one,
  -- under the lock, when another thread may have been here.
  unfoldable pub handle_select_binary :
      Bool → Bool → Recorder → Memory → Option ℕ → List PiBinary → ℕ → ℕ → ℕ → ℕ → Selected
  handle_select_binary collected collected_locked r m res images device binaries num_binaries
        selected_binary =
      let handled = record_selection r m res device binaries num_binaries selected_binary in
      elim collected [
        | true ↦ selected [] handled
        | false ↦ elim collected_locked [
          | true ↦ skipped
          | false ↦ elim (dump_binaries env formats binary_codec 0 images) [
            | none ↦ undefined
            | some files ↦ selected files handled
          ]
        ]
      ]
