-- ===== src/Gdb/Transfer.antt =====
-- GDBServerProtocol.cpp: `process_qXfer` and `process_vFile`.
use dpcpp_trace.Prelude.{
  ℕ, ◌+◌, ◌-◌, ◌%◌, ◌^◌, true, false, none, some, List, [], ◌∷◌, ◌++◌, ltb, leb, ◌==◌,
  if◌then◌else◌, Bytes, length, take, drop, replicate, codes,
}
use dpcpp_trace.Gdb.Hex.{decode_string, escape, encode_int, parse_u64, parse_i32}
use dpcpp_trace.Gdb.Debugger.{Debugger, System, Protocol, Reply, thrown, undefined, respond}
use dpcpp_trace.Gdb.Packets.{group}

-- The part of an object that is asked for: of `text`, its end being told from the object's `size`.
unfoldable pub slice_reply : ℕ → Bytes → ℕ → ℕ → Bytes
slice_reply size text offset len = elim (leb size offset) [
  | true ↦ []
  | false ↦
      let slice = take len (drop offset text) in
      if leb ((offset + len) % 2 ^ 64) size then b'm' ∷ slice else b'l' ∷ slice
]

-- `F`, and the `int` that the system gave.
unfoldable pub file_result : ℕ → Bytes
file_result res =
    if ltb res (2 ^ 31)
    then codes "F" ++ encode_int 4 res
    else codes "F" ++ codes "-" ++ encode_int 4 ((2 ^ 32 - res) % 2 ^ 32)

module _ {W : Type 0} (dbg : Debugger W) (sys : System W) where
  -- A match of `process_qXfer`, of which `at` is the first of the groups that it parses.
  abbrev respond_slice : ℕ → List Bytes → ℕ → Bytes → Protocol W → Reply W
  respond_slice at groups size text p =
      let offset = parse_u64 (group at (some groups)) in
      let len = parse_u64 (group (at + 1) (some groups)) in
      respond dbg sys (slice_reply size text offset len) p

  unfoldable pub process_q_xfer : Bytes → Protocol W → Reply W
  process_q_xfer packet p =
      elim (sys.ctre_match
        "\\+?\\$qXfer:features:read:target\\.xml:([0-9a-f]+),([0-9a-f]+)#[0-9a-fA-F]{2}\\+?"
        packet) [
          | some groups ↦
              let (xml, w) = dbg.get_gdb_target_xml p.world in
              respond_slice 0 groups (length xml) xml (record p { world = w })
          | none ↦
              elim (sys.ctre_match
                "\\+?\\$qXfer:auxv:read::([0-9a-f]+),([0-9a-f]+)#[0-9a-fA-F]{2}\\+?" packet) [
                  | some groups ↦
                      let (auxv, w) = dbg.get_auxv_data p.world in
                      respond_slice 0 groups (length auxv) (escape auxv) (record p { world = w })
                  | none ↦
                      elim (sys.ctre_match
                        "\\+?\\$qXfer:exec\\-file:read:([0-9a-f]+)?:([0-9a-f]+),([0-9a-f]+)#[0-9a-fA-F]{2}\\+?"
                        packet) [
                          | some groups ↦
                              let (path, w) = dbg.get_executable_path p.world in
                              respond_slice 1 groups (length path) path (record p { world = w })
                          | none ↦ respond dbg sys [] p
                        ]
                ]
        ]

  -- `open` of a file whose name is in hexadecimal.
  unfoldable pub file_open : List Bytes → Protocol W → Reply W
  file_open groups p =
      let flags = parse_i32 (group 1 (some groups)) in
      let mode = parse_i32 (group 2 (some groups)) in
      let (res, w) = sys.open_file (decode_string (group 0 (some groups))) flags mode p.world in
      respond dbg sys (file_result res) (record p { world = w })

  -- `close`; the descriptor may have a sign, and the first character of no text is undefined.
  unfoldable pub file_close : List Bytes → Protocol W → Reply W
  file_close groups p = elim (group 0 (some groups)) [
    | [] ↦ undefined
    | c ∷ cs ↦
        let fd = if c == b'-' then (2 ^ 32 - parse_i32 cs) % 2 ^ 32 else parse_i32 (c ∷ cs) in
        let (res, w) = sys.close_file fd p.world in
        respond dbg sys (file_result res) (record p { world = w })
  ]

  -- `llread` into a buffer of `count` zeros. A size above the greatest of a vector is refused, and
  -- so is the negative result of `read`, which becomes one, before it is looked at.
  unfoldable pub file_read : List Bytes → Protocol W → Reply W
  file_read groups p =
      let fd = parse_i32 (group 0 (some groups)) in
      let count = parse_u64 (group 1 (some groups)) in
      let offset = parse_u64 (group 2 (some groups)) in
      elim (ltb count (2 ^ 63)) [
        | false ↦ thrown
        | true ↦
            let (r, w) = sys.read_file fd count (sys.seek_set fd offset p.world) in
            let read = r in
            elim (ltb read.res (2 ^ 31)) [
              | false ↦ thrown
              | true ↦
                  let buf = take read.res (read.written ++ replicate read.res 0) in
                  respond dbg sys (file_result read.res ++ codes ";" ++ escape buf)
                    (record p { world = w })
            ]
      ]

  unfoldable pub process_v_file : Bytes → Protocol W → Reply W
  process_v_file packet p =
      elim (sys.ctre_match "\\+?\\$vFile:setfs:.+#[0-9a-fA-F]{2}\\+?" packet) [
        | some _ ↦ respond dbg sys (codes "F0") p
        | none ↦
            elim (sys.ctre_match "\\+?\\$vFile:open:(.+),([0-9a-f]+),([0-9a-f]+)#[0-9a-fA-F]{2}\\+?"
              packet) [
                | some groups ↦ file_open groups p
                | none ↦
                    elim (sys.ctre_match "\\+?\\$vFile:close:([0-9a-f]+)#[0-9a-fA-F]{2}\\+?"
                      packet) [
                        | some groups ↦ file_close groups p
                        | none ↦
                            elim (sys.ctre_match
                              "\\+?\\$vFile:pread:([0-9a-f]+),([0-9a-f]+),([0-9a-f]+)#[0-9a-fA-F]{2}\\+?"
                              packet) [
                                | some groups ↦ file_read groups p
                                | none ↦ respond dbg sys [] p
                              ]
                      ]
              ]
      ]
