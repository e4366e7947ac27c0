-- ===== src/Gdb/Packets.antt =====
-- GDBServerProtocol.cpp: the handlers that ask about the program and its threads, and those of
-- registers, memory and breakpoints.
use dpcpp_trace.Prelude.{
  ℕ, ◌+◌, ◌%◌, ◌^◌, true, false, Option, none, some, List, [], ◌∷◌, ◌++◌, ltb, ◌==◌, if◌then◌else◌,
  Bytes, get_elem?, drop, codes, starts_with,
}
use dpcpp_trace.Gdb.Hex.{encode, decode, escape, encode_int, parse_u64, create_response}
use dpcpp_trace.Gdb.Debugger.{
  Debugger, System, Protocol, Reply, replied, undefined, respond, report_stop,
}

-- Group `i` of a match; a match that failed has empty groups.
unfoldable pub group : ℕ → Option (List Bytes) → Bytes
group i none = []
group i (some groups) = elim (get_elem? groups i) [ none ↦ [] | some text ↦ text ]

module _ {W : Type 0} (dbg : Debugger W) (sys : System W) where
  unfoldable pub process_q_supported : Protocol W → Reply W
  process_q_supported p =
      respond dbg sys
        (codes "swbreak+;hwbreak+;vContSupported+;PacketSize="
          ++ sys.hex 16384
          ++ codes ";QStartNoAckMode+;qXfer:auxv:read+;qXfer:features:read+;qXfer:exec-file:read+")
        p

  unfoldable pub process_ack : Protocol W → Reply W
  process_ack p = replied (if p.ack then codes "+" else []) p

  unfoldable pub process_q_start_no_ack_mode : Protocol W → Reply W
  process_q_start_no_ack_mode p =
      replied (create_response sys.hex2 (codes "OK") true) (record p { ack = false })

  unfoldable pub process_h : Bytes → Protocol W → Reply W
  process_h packet p = elim (sys.ctre_match "\\+?\\$H[gc]([\\-0-9a-fA-F]+)#[0-9a-fA-F]{2}" packet) [
    | none ↦ respond dbg sys (codes "E01") p
    | some groups ↦
        let thread_id = group 0 (some groups) in
        let index = if starts_with (codes "-") thread_id then 0 else parse_u64 thread_id in
        respond dbg sys (codes "OK") (record p { current_thread_index = index })
  ]

  unfoldable pub process_qf_thread_info : Protocol W → Reply W
  process_qf_thread_info p =
      let (threads, w) = dbg.get_num_threads p.world in
      elim (ltb p.last_thread_info_index threads) [
        | true ↦
            let (id, w') = dbg.get_thread_id_at_index p.last_thread_info_index w in
            respond dbg sys (codes "m" ++ encode_int 8 id) (record p {
              last_thread_info_index = (p.last_thread_info_index + 1) % 2 ^ 64;
              world = w';
            })
        | false ↦ respond dbg sys (codes "l") (record p { last_thread_info_index = 0; world = w })
      ]

  unfoldable pub process_qc : Protocol W → Reply W
  process_qc p =
      let (id, w) = dbg.get_thread_id_at_index p.current_thread_index p.world in
      respond dbg sys (codes "QC" ++ encode_int 8 id) (record p { world = w })

  -- The reply of what reads: an error, if nothing was read.
  abbrev pub respond_data : (Bytes → Bytes) → Bytes → Protocol W → Reply W
  respond_data text [] p = respond dbg sys (codes "E01") p
  respond_data text (b ∷ bs) p = respond dbg sys (text (b ∷ bs)) p

  unfoldable pub process_registers : Protocol W → Reply W
  process_registers p =
      let (values, w) = dbg.get_registers_data p.current_thread_index p.world in
      respond_data encode values (record p { world = w })

  unfoldable pub process_write_registers : Bytes → Protocol W → Reply W
  process_write_registers packet p = elim (decode (drop 1 packet)) [
    | none ↦ undefined
    | some values ↦
        respond dbg sys (codes "OK")
          (record p { world = dbg.write_registers_data values p.current_thread_index p.world })
  ]

  unfoldable pub process_read_memory : Bytes → Protocol W → Reply W
  process_read_memory packet p =
      let groups = sys.ctre_match "\\+?\\$[mx]([0-9a-f]+),([0-9a-f]+)#[0-9a-fA-F]{2}\\+?" packet in
      let start = parse_u64 (group 0 groups) in
      let len = parse_u64 (group 1 groups) in
      elim (len == 0) [
        | true ↦ respond dbg sys (codes "OK") p
        | false ↦
            let (bytes, w) = dbg.read_memory start len p.world in
            respond_data (λ bs. if starts_with (codes "$x") packet then escape bs else encode bs)
              bytes (record p { world = w })
      ]

  unfoldable pub process_write_memory : Bytes → Protocol W → Reply W
  process_write_memory packet p =
      let groups =
        sys.ctre_match "\\+?\\$[mx]([0-9a-f]+),([0-9a-f]+):([0-9a-f]+)#[0-9a-fA-F]{2}\\+?" packet in
      let start = parse_u64 (group 0 groups) in
      let len = parse_u64 (group 1 groups) in
      elim (len == 0) [
        | true ↦ respond dbg sys (codes "OK") p
        | false ↦ elim (decode (group 2 groups)) [
          | none ↦ undefined
          | some bytes ↦
              respond dbg sys (codes "OK")
                (record p { world = dbg.write_memory start len bytes p.world })
        ]
      ]

  unfoldable pub process_status : Protocol W → Reply W
  process_status p = report_stop dbg sys p

  unfoldable pub process_remove_breakpoint : Bytes → Protocol W → Reply W
  process_remove_breakpoint packet p =
      elim (sys.ctre_match "\\+?\\$z0,([0-9a-f]+),([0-9a-f]+)#[0-9a-fA-F]{2}\\+?" packet) [
        | none ↦ respond dbg sys (codes "E01") p
        | some groups ↦
            let addr = parse_u64 (group 0 (some groups)) in
            respond dbg sys (codes "OK")
              (record p { world = dbg.remove_software_breakpoint addr p.world })
      ]

  unfoldable pub process_create_breakpoint : Bytes → Protocol W → Reply W
  process_create_breakpoint packet p =
      elim (sys.ctre_match "\\+?\\$Z0,([0-9a-f]+),([0-9a-f]+)#[0-9a-fA-F]{2}\\+?" packet) [
        | none ↦ respond dbg sys (codes "E01") p
        | some groups ↦
            let addr = parse_u64 (group 0 (some groups)) in
            respond dbg sys (codes "OK")
              (record p { world = dbg.create_software_breakpoint addr p.world })
      ]

  unfoldable pub process_register : Bytes → Protocol W → Reply W
  process_register packet p =
      let reg_num =
        parse_u64 (group 0 (sys.ctre_match "\\+?\\$p([0-9a-f]+)#[0-9a-fA-F]{2}\\+?" packet)) in
      let (bytes, w) = dbg.read_register p.current_thread_index reg_num p.world in
      respond_data encode bytes (record p { world = w })

  unfoldable pub process_q_attached : Protocol W → Reply W
  process_q_attached p =
      let (attached, w) = dbg.is_attached p.world in
      respond dbg sys (if attached then codes "1" else codes "0") (record p { world = w })

  unfoldable pub process_q_process_info : Protocol W → Reply W
  process_q_process_info p = respond dbg sys [] p

  unfoldable pub process_unsupported : Protocol W → Reply W
  process_unsupported p = respond dbg sys [] p
