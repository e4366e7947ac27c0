-- ===== src/Gdb/Modes.antt =====
-- What packets do to the modes of the connection: acknowledgement, and whether the server runs on.
use dpcpp_trace.Prelude.{◌≡◌, refl, Bool, false, List, arith, Bytes}
use dpcpp_trace.Gdb.Debugger.{
  Debugger, System, Protocol, Reply, replied, thrown, undefined, report_stop,
}
use dpcpp_trace.Gdb.Packets.{
  process_q_supported, process_ack, process_q_start_no_ack_mode, process_h, process_qf_thread_info,
  process_qc, process_registers, process_write_registers, process_read_memory, process_write_memory,
  process_status, process_remove_breakpoint, process_create_breakpoint, process_register,
  process_q_attached, process_q_process_info, process_unsupported,
}
use dpcpp_trace.Gdb.Transfer.{process_q_xfer, process_v_file, file_open, file_close, file_read}
use dpcpp_trace.Gdb.Running.{process_c, process_v_cont}
use dpcpp_trace.Gdb.Dispatch.{PacketKind, patterns, first_match, handle_kind, process_packet}

-- What a reply leaves behind, where there is one.
abbrev pub Replies : {W : Type 0} → (Protocol W → Type 0) → Reply W → Type 0
Replies q (replied _ p) = q p
Replies q thrown = Unit
Replies q undefined = Unit

-- The modes as a packet's kind leaves them.
abbrev pub ack_after : PacketKind → Bool → Bool
ack_after PacketKind.q_start_no_ack_mode ack = false
ack_after _ ack = ack

abbrev pub running_after : PacketKind → Bool → Bool
running_after PacketKind.kill running = false
running_after _ running = running

module _ {W : Type 0} where
  abbrev Keeps : Protocol W → Protocol W → Type 0
  Keeps p p' = (p'.ack ≡ p.ack) × (p'.running ≡ p.running)

  module _ (dbg : Debugger W) (sys : System W) where
    process_h-Keeps :
        (packet : Bytes) (p : Protocol W) → Replies (Keeps p) (process_h dbg sys packet p)
    unfolding process_h
    process_h-Keeps packet p = ground arith

    process_qf_thread_info-Keeps :
        (p : Protocol W) → Replies (Keeps p) (process_qf_thread_info dbg sys p)
    unfolding process_qf_thread_info
    process_qf_thread_info-Keeps p = ground arith

    process_registers-Keeps : (p : Protocol W) → Replies (Keeps p) (process_registers dbg sys p)
    unfolding process_registers
    process_registers-Keeps p = ground arith

    process_write_registers-Keeps :
        (packet : Bytes) (p : Protocol W)
        → Replies (Keeps p) (process_write_registers dbg sys packet p)
    unfolding process_write_registers
    process_write_registers-Keeps packet p = ground arith

    process_read_memory-Keeps :
        (packet : Bytes) (p : Protocol W) → Replies (Keeps p) (process_read_memory dbg sys packet p)
    unfolding process_read_memory
    process_read_memory-Keeps packet p = ground arith

    process_write_memory-Keeps :
        (packet : Bytes) (p : Protocol W)
        → Replies (Keeps p) (process_write_memory dbg sys packet p)
    unfolding process_write_memory
    process_write_memory-Keeps packet p = ground arith

    process_remove_breakpoint-Keeps :
        (packet : Bytes) (p : Protocol W)
        → Replies (Keeps p) (process_remove_breakpoint dbg sys packet p)
    unfolding process_remove_breakpoint
    process_remove_breakpoint-Keeps packet p = ground arith

    process_create_breakpoint-Keeps :
        (packet : Bytes) (p : Protocol W)
        → Replies (Keeps p) (process_create_breakpoint dbg sys packet p)
    unfolding process_create_breakpoint
    process_create_breakpoint-Keeps packet p = ground arith

    process_register-Keeps :
        (packet : Bytes) (p : Protocol W) → Replies (Keeps p) (process_register dbg sys packet p)
    unfolding process_register
    process_register-Keeps packet p = ground arith

    process_q_xfer-Keeps :
        (packet : Bytes) (p : Protocol W) → Replies (Keeps p) (process_q_xfer dbg sys packet p)
    unfolding process_q_xfer
    process_q_xfer-Keeps packet p = ground arith

    process_c-Keeps : (p : Protocol W) → Replies (Keeps p) (process_c dbg sys p)
    unfolding process_c report_stop
    process_c-Keeps p = ground arith

    process_v_cont-Keeps :
        (packet : Bytes) (p : Protocol W) → Replies (Keeps p) (process_v_cont dbg sys packet p)
    unfolding process_v_cont report_stop
    process_v_cont-Keeps packet p = ground arith

    file_close-Keeps :
        (groups : List Bytes) (p : Protocol W) → Replies (Keeps p) (file_close dbg sys groups p)
    unfolding file_close
    file_close-Keeps groups p = ground arith

    file_read-Keeps :
        (groups : List Bytes) (p : Protocol W) → Replies (Keeps p) (file_read dbg sys groups p)
    unfolding file_read
    file_read-Keeps groups p = ground arith

    process_v_file-Keeps :
        (packet : Bytes) (p : Protocol W) → Replies (Keeps p) (process_v_file dbg sys packet p)
    unfolding process_v_file file_open
    process_v_file-Keeps packet p = grind (arith, file_close-Keeps, file_read-Keeps)

    abbrev pub Modes : PacketKind → Protocol W → Protocol W → Type 0
    Modes kind p p' = (p'.ack ≡ ack_after kind p.ack) × (p'.running ≡ running_after kind p.running)

    handle_kind-Modes :
        (kind : PacketKind) (packet : Bytes) (p : Protocol W)
        → Replies (Modes kind p) (handle_kind dbg sys kind packet p)
    unfolding handle_kind process_q_attached process_q_supported process_q_start_no_ack_mode
        process_status report_stop process_qc process_q_process_info process_ack process_unsupported
    handle_kind-Modes PacketKind.q_attached packet p = (refl, refl)
    handle_kind-Modes PacketKind.q_supported packet p = (refl, refl)
    handle_kind-Modes PacketKind.q_start_no_ack_mode packet p = (refl, refl)
    handle_kind-Modes PacketKind.status packet p = (refl, refl)
    handle_kind-Modes PacketKind.read_registers packet p = process_registers-Keeps p
    handle_kind-Modes PacketKind.write_registers packet p = process_write_registers-Keeps packet p
    handle_kind-Modes PacketKind.set_thread packet p = process_h-Keeps packet p
    handle_kind-Modes PacketKind.qf_thread_info packet p = process_qf_thread_info-Keeps p
    handle_kind-Modes PacketKind.qs_thread_info packet p = process_qf_thread_info-Keeps p
    handle_kind-Modes PacketKind.current_thread packet p = (refl, refl)
    handle_kind-Modes PacketKind.read_memory packet p = process_read_memory-Keeps packet p
    handle_kind-Modes PacketKind.write_memory packet p = process_write_memory-Keeps packet p
    handle_kind-Modes PacketKind.read_binary packet p = process_read_memory-Keeps packet p
    handle_kind-Modes PacketKind.q_xfer packet p = process_q_xfer-Keeps packet p
    handle_kind-Modes PacketKind.remove_breakpoint packet p =
        process_remove_breakpoint-Keeps packet p
    handle_kind-Modes PacketKind.create_breakpoint packet p =
        process_create_breakpoint-Keeps packet p
    handle_kind-Modes PacketKind.v_cont packet p = process_v_cont-Keeps packet p
    handle_kind-Modes PacketKind.v_file packet p = process_v_file-Keeps packet p
    handle_kind-Modes PacketKind.continue_all packet p = process_c-Keeps p
    handle_kind-Modes PacketKind.read_register packet p = process_register-Keeps packet p
    handle_kind-Modes PacketKind.q_process_info packet p = (refl, refl)
    handle_kind-Modes PacketKind.ack packet p = (refl, refl)
    handle_kind-Modes PacketKind.kill packet p = (refl, refl)
    handle_kind-Modes PacketKind.unsupported packet p = (refl, refl)

    -- Whatever a packet asks for, if it is answered at all: acknowledgement stays as it was, but for
    -- `QStartNoAckMode`, after which it is off; and the server runs on, but for `k`.
    pub process_packet-Modes :
        (packet : Bytes) (p : Protocol W)
        → Replies (Modes (first_match dbg sys patterns packet) p) (process_packet dbg sys packet p)
    unfolding process_packet
    process_packet-Modes packet p = handle_kind-Modes (first_match dbg sys patterns packet) packet p
