-- ===== src/Gdb/Dispatch.antt =====
-- GDBServerProtocol.cpp `processPacket`, and the loop of server.cpp `run` that calls it.
use dpcpp_trace.Prelude.{
  Bool, true, false, none, some, List, [], ◌∷◌, ◌==◌, if◌then◌else◌, Bytes, String,
}
use dpcpp_trace.Gdb.Debugger.{Debugger, System, Protocol, Reply, replied, thrown, undefined}
use dpcpp_trace.Gdb.Packets.{
  process_q_supported, process_ack, process_q_start_no_ack_mode, process_h, process_qf_thread_info,
  process_qc, process_registers, process_write_registers, process_read_memory, process_write_memory,
  process_status, process_remove_breakpoint, process_create_breakpoint, process_register,
  process_q_attached, process_q_process_info, process_unsupported,
}
use dpcpp_trace.Gdb.Transfer.{process_q_xfer, process_v_file}
use dpcpp_trace.Gdb.Running.{process_c, process_v_cont}

abbrev is_plus : Bytes → Bool
is_plus (c ∷ []) = c == b'+'
is_plus _ = false

-- What a packet asks for.
pub data PacketKind : Type 0 where
  q_attached q_supported q_start_no_ack_mode status read_registers write_registers set_thread
        qf_thread_info qs_thread_info :
      PacketKind
  current_thread read_memory write_memory read_binary q_xfer remove_breakpoint create_breakpoint
        v_cont :
      PacketKind
  v_file continue_all read_register q_process_info ack kill unsupported : PacketKind

-- The patterns of `processPacket`, in the order in which they are tried.
abbrev pub patterns : List (String × PacketKind)
patterns =
    ("\\+?\\$qAttached(?::[0-9a-zA-Z]+)?#[0-9a-fA-F]{2}\\+?", PacketKind.q_attached)
    ∷ ("\\+?\\$qSupported:.+#[0-9a-fA-F]{2}\\+?", PacketKind.q_supported)
    ∷ ("\\+?\\$QStartNoAckMode#[0-9a-fA-F]{2}\\+?", PacketKind.q_start_no_ack_mode)
    ∷ ("\\+?\\$\\?#[0-9a-fA-F]{2}\\+?", PacketKind.status)
    ∷ ("\\+?\\$g#[0-9a-fA-F]{2}\\+?", PacketKind.read_registers)
    ∷ ("\\+?\\$G[0-9a-f]+#[0-9a-fA-F]{2}\\+?", PacketKind.write_registers)
    ∷ ("\\+?\\$H.+#[0-9a-fA-F]{2}\\+?", PacketKind.set_thread)
    ∷ ("\\+?\\$qfThreadInfo#[0-9a-fA-F]{2}\\+?", PacketKind.qf_thread_info)
    ∷ ("\\+?\\$qsThreadInfo#[0-9a-fA-F]{2}\\+?", PacketKind.qs_thread_info)
    ∷ ("\\+?\\$qC#[0-9a-fA-F]{2}\\+?", PacketKind.current_thread)
    ∷ ("\\+?\\$m[0-9a-fA-F,]+#[0-9a-fA-F]{2}\\+?", PacketKind.read_memory)
    ∷ ("\\+?\\$M.+#[0-9a-fA-F]{2}\\+?", PacketKind.write_memory)
    ∷ ("\\+?\\$x[0-9a-fA-F,]+#[0-9a-fA-F]{2}\\+?", PacketKind.read_binary)
    ∷ ("\\+?\\$qXfer.+#[0-9a-fA-F]{2}\\+?", PacketKind.q_xfer)
    ∷ ("\\+?\\$z.+#[0-9a-fA-F]{2}\\+?", PacketKind.remove_breakpoint)
    ∷ ("\\+?\\$Z.+#[0-9a-fA-F]{2}\\+?", PacketKind.create_breakpoint)
    ∷ ("\\+?\\$vCont.+#[0-9a-fA-F]{2}\\+?", PacketKind.v_cont)
    ∷ ("\\+?\\$vFile.+#[0-9a-fA-F]{2}\\+?", PacketKind.v_file)
    ∷ ("\\+?\\$c#[0-9a-fA-F]{2}\\+?", PacketKind.continue_all)
    ∷ ("\\+?\\$p[0-9a-f]+#[0-9a-fA-F]{2}\\+?", PacketKind.read_register)
    ∷ ("\\+?\\$qProcessInfo#[0-9a-fA-F]{2}\\+?", PacketKind.q_process_info)
    ∷ []

module _ {W : Type 0} (dbg : Debugger W) (sys : System W) where
  -- The first pattern that matches; `+` is compared where the code does, and what follows it is `$k`.
  unfoldable pub first_match : List (String × PacketKind) → Bytes → PacketKind
  first_match [] packet =
      if is_plus packet
      then PacketKind.ack
      else elim (sys.ctre_match "\\+?\\$k#[0-9a-fA-F]{2}\\+?" packet) [
        | some _ ↦ PacketKind.kill
        | none ↦ PacketKind.unsupported
      ]
  first_match ((pattern_text, kind) ∷ rest) packet =
      let other = first_match rest packet in
      elim (sys.ctre_match pattern_text packet) [ some _ ↦ kind | none ↦ other ]

  unfoldable pub handle_kind : PacketKind → Bytes → Protocol W → Reply W
  handle_kind PacketKind.q_attached packet = process_q_attached dbg sys
  handle_kind PacketKind.q_supported packet = process_q_supported dbg sys
  handle_kind PacketKind.q_start_no_ack_mode packet = process_q_start_no_ack_mode dbg sys
  handle_kind PacketKind.status packet = process_status dbg sys
  handle_kind PacketKind.read_registers packet = process_registers dbg sys
  handle_kind PacketKind.write_registers packet = process_write_registers dbg sys packet
  handle_kind PacketKind.set_thread packet = process_h dbg sys packet
  handle_kind PacketKind.qf_thread_info packet = process_qf_thread_info dbg sys
  handle_kind PacketKind.qs_thread_info packet = process_qf_thread_info dbg sys
  handle_kind PacketKind.current_thread packet = process_qc dbg sys
  handle_kind PacketKind.read_memory packet = process_read_memory dbg sys packet
  handle_kind PacketKind.write_memory packet = process_write_memory dbg sys packet
  handle_kind PacketKind.read_binary packet = process_read_memory dbg sys packet
  handle_kind PacketKind.q_xfer packet = process_q_xfer dbg sys packet
  handle_kind PacketKind.remove_breakpoint packet = process_remove_breakpoint dbg sys packet
  handle_kind PacketKind.create_breakpoint packet = process_create_breakpoint dbg sys packet
  handle_kind PacketKind.v_cont packet = process_v_cont dbg sys packet
  handle_kind PacketKind.v_file packet = process_v_file dbg sys packet
  handle_kind PacketKind.continue_all packet = process_c dbg sys
  handle_kind PacketKind.read_register packet = process_register dbg sys packet
  handle_kind PacketKind.q_process_info packet = process_q_process_info dbg sys
  handle_kind PacketKind.ack packet = process_ack dbg sys
  handle_kind PacketKind.kill packet = λ p. replied [] (record p { running = false })
  handle_kind PacketKind.unsupported packet = process_unsupported dbg sys

  unfoldable pub process_packet : Bytes → Protocol W → Reply W
  process_packet packet = handle_kind (first_match patterns packet) packet

  -- A reply that is not empty is sent, and the next message is served while the server runs.
  abbrev pub answer : Reply W → (Protocol W → List Bytes × Reply W) → List Bytes × Reply W
  answer thrown next = ([], thrown)
  answer undefined next = ([], undefined)
  answer (replied response p) next =
      let rest_served : List Bytes × Reply W = elim p.running [
        | true ↦ next p
        | false ↦ ([], replied [] p)
      ] in
      let (sent, last) = rest_served in
      (elim response [ [] ↦ sent | c ∷ cs ↦ (c ∷ cs) ∷ sent ], last)

  -- The messages of a connection: what is sent, and how it ends.
  unfoldable pub serve : List Bytes → Protocol W → List Bytes × Reply W
  serve [] p = ([], replied [] p)
  serve (message ∷ rest) p = answer (process_packet message p) (serve rest)
