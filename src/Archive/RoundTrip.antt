-- ===== src/Archive/RoundTrip.antt =====
-- What was packed is unpacked.
use dpcpp_trace.Prelude.{
  ℕ, zero, suc, ◌+◌, ◌^◌, ◌<◌, ◌≡◌, refl, false, some, List, [], ◌∷◌, ◌++◌, append_assoc, arith,
  le→ltb, Bytes, length, All, length-append, take-append, drop-append, le_bytes, le_value-le_bytes,
}
use dpcpp_trace.Archive.{
  Entry, directory, regular_file, special_file, Compression, write_sized, Action, create_directory,
  write_file, unpacked, read_bytes, read_sized, write_entry, write_tree, pack_archive, read_entry,
  parse_v0, unpack,
}

read_bytes-append : (xs ys : Bytes) → read_bytes (length xs) (xs ++ ys) ≡ some (xs, ys)
unfolding read_bytes
read_bytes-append xs ys =
    rw
      (
        read_bytes,
        le→ltb (length (xs ++ ys)) (length xs) (omega (arith, length-append xs ys)),
        take-append xs ys,
        drop-append xs ys,
      )
      refl

read_sized-write_sized :
    (bs rest : Bytes) → length bs < 2 ^ 64 → read_sized (write_sized bs ++ rest) ≡ some (bs, rest)
unfolding read_sized write_sized
read_sized-write_sized bs rest h =
    rw
      (
        read_sized,
        read_bytes-append (le_bytes 8 (length bs)) (bs ++ rest),
        le_value-le_bytes 8 (length bs) h,
      )
      (read_bytes-append bs rest)

module _ (comp : Compression) where
  -- The sizes fit, and the compressor gives back what it was given.
  abbrev pub Fits : Entry → Type 0
  Fits (directory path) = length path < 2 ^ 64
  Fits (regular_file path contents) =
      (length path < 2 ^ 64)
      × (length (comp.compress contents) < 2 ^ 64)
      × (comp.uncompress (comp.compress contents) ≡ contents)
  Fits (special_file path) = Unit {0}

  -- What an entry is unpacked to.
  abbrev pub actions : Entry → List Action
  actions (directory path) = create_directory path ∷ []
  actions (regular_file path contents) = write_file path contents ∷ []
  actions (special_file path) = []

  abbrev pub all_actions : List Entry → List Action
  all_actions [] = []
  all_actions (e ∷ es) = actions e ++ all_actions es

  directory_back :
      (path rest : Bytes)
      → length path < 2 ^ 64
      → read_entry comp 0 (write_sized path ++ rest) ≡ some (create_directory path ∷ [], rest)
  unfolding read_entry
  directory_back path rest h = rw (read_entry, read_sized-write_sized path rest h) refl

  file_back :
      (path contents rest : Bytes)
      → Fits (regular_file path contents)
      → read_entry comp 1 (write_sized path ++ (write_sized (comp.compress contents) ++ rest))
        ≡ some (write_file path contents ∷ [], rest)
  unfolding read_entry
  file_back path contents rest (hp, hc, same) =
      rw
        (
          read_entry,
          read_sized-write_sized path (write_sized (comp.compress contents) ++ rest) hp,
          read_sized-write_sized (comp.compress contents) rest hc,
          same,
        )
        refl

  entries_back :
      (es : List Entry) (fuel : ℕ)
      → All Fits es
      → length (write_tree comp es) < fuel
      → parse_v0 comp fuel (write_tree comp es) ≡ unpacked (all_actions es)
  unfolding parse_v0 write_tree write_entry
  entries_back es zero h small = absurd (omega arith)
  entries_back [] (suc fuel) h small = refl
  entries_back (directory path ∷ es) (suc fuel) (h, hs) small =
      rw
        (
          parse_v0,
          directory_back path (write_tree comp es) h,
          entries_back es fuel hs
              (omega (arith, small, length-append (write_sized path) (write_tree comp es))),
        )
        refl
  entries_back (regular_file path contents ∷ es) (suc fuel) (h, hs) small =
      let two = write_sized path ++ write_sized (comp.compress contents) in
      rw
        (
          parse_v0,
          append_assoc (write_sized path) (write_sized (comp.compress contents))
              (write_tree comp es),
          file_back path contents (write_tree comp es) h,
          entries_back es fuel hs (omega (arith, small, length-append two (write_tree comp es))),
        )
        refl
  entries_back (special_file path ∷ es) (suc fuel) (h, hs) small =
      entries_back es (suc fuel) hs small

  -- Unpacking what was packed, to an output that is not there yet, makes the directories and the
  -- files with their contents below the output's path, in the order in which they were met, and
  -- nothing for what is neither. The sizes of paths and compressed files fit into 64 bits, and the
  -- compressor gives back what it was given.
  pub unpack-pack_archive :
      (es : List Entry)
      → All Fits es
      → unpack comp (some (pack_archive comp es)) false
        ≡ unpacked (create_directory [] ∷ all_actions es)
  unfolding unpack pack_archive
  unpack-pack_archive es h =
      rw (entries_back es (length (write_tree comp es) + 1) h (omega arith)) refl
