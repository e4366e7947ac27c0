-- ===== src/Archive.antt =====
-- src/pack.cpp and src/unpack.cpp: a trace's directory as one file, and the directory again. The
-- compressor (zstd, by lib/utils/Compression.cpp) is a parameter.
pub mod RoundTrip
pub mod Total
use dpcpp_trace.Prelude.{
  ℕ, zero, suc, ◌+◌, Bool, true, false, Option, none, some, List, [], ◌∷◌, ◌++◌, ltb, ◌==◌, Bytes,
  length, take, drop, le_bytes, le_value,
}

-- What the iterator over the directory meets, with its path from there.
pub data Entry : Type 0 where
  directory : Bytes → Entry
  regular_file : Bytes → Bytes → Entry
  special_file : Bytes → Entry

pub record Compression : Type 0 where
  pub compress : Bytes → Bytes
  pub uncompress : Bytes → Bytes

-- A 64-bit size and the bytes.
unfoldable pub write_sized : Bytes → Bytes
write_sized bs = le_bytes 8 (length bs) ++ bs

-- What is done to the file system below the output's path, in order.
pub data Action : Type 0 where
  create_directory : Bytes → Action
  write_file : Bytes → Bytes → Action

-- `fault` has read past the mapped file; `stuck` is no result of the program: the rounds ran out.
pub data Unpacked : Type 0 where
  unpacked : List Action → Unpacked
  failed : Unpacked
  fault : Unpacked
  stuck : Unpacked

-- What was done before the rest.
abbrev pub prepend : List Action → Unpacked → Unpacked
prepend done (unpacked later) = unpacked (done ++ later)
prepend done failed = failed
prepend done fault = fault
prepend done stuck = stuck

-- The `n` bytes at the iterator, and what is behind them.
unfoldable pub read_bytes : ℕ → Bytes → Option (Bytes × Bytes)
read_bytes n bs = elim (ltb (length bs) n) [ true ↦ none | false ↦ some (take n bs, drop n bs) ]

unfoldable pub read_sized : Bytes → Option (Bytes × Bytes)
read_sized bs = elim (read_bytes 8 bs) [
  | none ↦ none
  | some (size, rest) ↦ read_bytes (le_value size) rest
]

module _ (comp : Compression) where
  unfoldable pub write_entry : Entry → Bytes
  write_entry (directory path) = 0 ∷ write_sized path
  write_entry (regular_file path contents) =
      1 ∷ write_sized path ++ write_sized (comp.compress contents)
  write_entry (special_file path) = []

  unfoldable pub write_tree : List Entry → Bytes
  write_tree [] = []
  write_tree (e ∷ es) = write_entry e ++ write_tree es

  -- The file of `pack`: its version, and the entries.
  unfoldable pub pack_archive : List Entry → Bytes
  pack_archive es = 0 ∷ write_tree es

  -- One round of `parseV0` behind the byte `kind`; a kind that is neither is passed over.
  unfoldable pub read_entry : ℕ → Bytes → Option (List Action × Bytes)
  read_entry kind bs = elim (kind == 0) [
    | true ↦ elim (read_sized bs) [
      | none ↦ none
      | some (path, rest) ↦ some (create_directory path ∷ [], rest)
    ]
    | false ↦ elim (kind == 1) [
      | true ↦ elim (read_sized bs) [
        | none ↦ none
        | some (path, rest) ↦ elim (read_sized rest) [
          | none ↦ none
          | some (buf, rest') ↦ some (write_file path (comp.uncompress buf) ∷ [], rest')
        ]
      ]
      | false ↦ some ([], bs)
    ]
  ]

  -- The loop of `parseV0`.
  unfoldable pub parse_v0 : ℕ → Bytes → Unpacked
  parse_v0 zero bs = stuck
  parse_v0 (suc fuel) [] = unpacked []
  parse_v0 (suc fuel) (kind ∷ bs) = elim (read_entry kind bs) [
    | none ↦ fault
    | some (done, rest) ↦ prepend done (parse_v0 fuel rest)
  ]

  -- `unpack` of an input that may be missing, to an output that may be there already. Each round takes
  -- one byte at least.
  unfoldable pub unpack : Option Bytes → Bool → Unpacked
  unpack none output_exists = failed
  unpack (some input) true = failed
  unpack (some []) false = fault
  unpack (some (version ∷ bs)) false = elim (version == 0) [
    | true ↦ prepend (create_directory [] ∷ []) (parse_v0 (length bs + 1) bs)
    | false ↦ failed
  ]
