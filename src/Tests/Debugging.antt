-- ===== src/Tests/Debugging.antt =====
-- The debug server with a debugger of two threads and a matcher of a few packets.
use dpcpp_trace.Prelude.{
  ℕ, zero, suc, ◌+◌, ◌≡◌, refl, sym, Bool, true, false, ◌&&◌, Option, none, some, List, [], ◌∷◌,
  ◌++◌, arith, ◌==◌, if◌then◌else◌, Bytes, get_elem?, replicate, AreBytes, codes, String,
}
use dpcpp_trace.Gdb.Hex.{
  parse_int, parse_loop, hex_digit_to_int, encode, encode_int, parse_u64, create_response,
}
use dpcpp_trace.Gdb.Hex.Numbers.{parse_u64-encode_int}
use dpcpp_trace.Gdb.Debugger.{StopType, Debugger, System, Protocol, replied}
use dpcpp_trace.Gdb.Packets.{process_read_memory}
use dpcpp_trace.Gdb.Dispatch.{patterns, first_match, process_packet, serve}
use dpcpp_trace.Gdb.Modes.{Replies, Modes, process_packet-Modes}
use dpcpp_trace.Gdb.Threads.{Threads, ask, ask-Threads}
use dpcpp_trace.Gdb.Transfer.{slice_reply}
use dpcpp_trace.Gdb.Slices.{read_parts}
use dpcpp_trace.Gdb.Serving.{serve_until_kill}
use dpcpp_trace.Gdb.Contents.{
  binary, ask_memory, client_reads, memory_pattern, process_read_memory-client_reads,
  process_packet_writes_nothing,
}

-- The world is one byte, which all of memory holds.
abbrev debugger : Debugger ℕ
debugger = record {
  get_registers_data = λ i w. (w ∷ [], w);
  write_registers_data = λ bs i w. w;
  read_register = λ i n w. (w ∷ [], w);
  get_gdb_target_xml = λ w. (codes "<target/>", w);
  get_executable_path = λ w. (codes "/bin/a", w);
  is_attached = λ w. (true, w);
  get_num_threads = λ w. (2, w);
  get_thread_id_at_index = λ i w. (i + 70, w);
  get_stop_reason = λ i w. (record { type = StopType.breakpoint; code = 0 }, w);
  create_software_breakpoint = λ a w. w;
  remove_software_breakpoint = λ a w. w;
  resume = λ signal tid w. w + 1;
  step_instruction = λ tid signal w. w + 1;
  read_memory = λ a n w. (replicate n w, w);
  write_memory = λ a n bs w. elim bs [ [] ↦ w | b ∷ _ ↦ b ];
  get_auxv_data = λ w. ([], w);
}

-- A matcher that knows three texts: `$k`, a packet that writes memory, and one that reads it.
abbrev kill_packet : Bytes
kill_packet = codes "$k#6b"

abbrev write_packet : Bytes
write_packet = codes "$M10,1:ff#00"

abbrev read_packet : Bytes
read_packet = codes "$x10,2#00"

abbrev is : Bytes → Bytes → Bool
is [] [] = true
is (c ∷ cs) (d ∷ ds) = c == d && is cs ds
is _ _ = false

abbrev matcher : String → Bytes → Option (List Bytes)
matcher pattern_text packet =
    if is (codes pattern_text) (codes "\\+?\\$k#[0-9a-fA-F]{2}\\+?") && is packet kill_packet
    then some []
    else if is (codes pattern_text) (codes "\\+?\\$M.+#[0-9a-fA-F]{2}\\+?")
        && is packet write_packet
    then some []
    else if is (codes pattern_text) (codes memory_pattern) && is packet read_packet
    then some (codes "10" ∷ codes "2" ∷ [])
    else none

abbrev system : System ℕ
system = record {
  open_file = λ name flags mode w. (3, w);
  seek_set = λ fd offset w. w;
  read_file = λ fd n w. (record { res = 0; written = [] }, w);
  close_file = λ fd w. (0, w);
  hex = encode_int 8;
  hex2 = λ n. encode (n ∷ []);
  ctre_match = matcher;
}

abbrev protocol : Protocol ℕ
protocol = record {
  running = true;
  ack = false;
  current_thread_index = 0;
  last_thread_info_index = 0;
  world = 0x23;
}

named_two :
    (i id : ℕ)
    → get_elem? (70 ∷ 71 ∷ []) i ≡ some id
    → debugger.get_thread_id_at_index i 0x23 ≡ (id, 0x23)
named_two zero id h = let e : 70 ≡ id = cc in rw (sym e) refl
named_two (suc zero) id h = let e : 71 ≡ id = cc in rw (sym e) refl
named_two (suc (suc i)) id h = absurd cc

two-Threads : Threads debugger (70 ∷ 71 ∷ []) 0x23
two-Threads = record { fewer = omega arith; counted = refl; named = named_two }

two_bytes : AreBytes (0x23 ∷ 0x23 ∷ [])
two_bytes = (omega arith, (omega arith, tt))

parse_u64-encode_int_example : parse_u64 (encode_int 8 0xdeadbeef) ≡ 0xdeadbeef
parse_u64-encode_int_example = parse_u64-encode_int 0xdeadbeef (omega arith)

process_packet-Modes_example :
    Replies
      (Modes debugger system (first_match debugger system patterns kill_packet) protocol)
      (process_packet debugger system kill_packet protocol)
process_packet-Modes_example = process_packet-Modes debugger system kill_packet protocol

ask-Threads_example : ask debugger system 3 protocol ≡ (
  create_response system.hex2 (codes "m" ++ encode_int 8 70) false
      ∷ create_response system.hex2 (codes "m" ++ encode_int 8 71) false
      ∷ create_response system.hex2 (codes "l") false
      ∷ [],
  protocol,
)
ask-Threads_example = ask-Threads debugger system (70 ∷ 71 ∷ []) protocol two-Threads refl

-- Nine bytes are three parts of three bytes, and an empty reply.
read_parts_even : read_parts 4 0 3 (codes "<target/>") ≡ none
unfolding read_parts slice_reply
read_parts_even = refl

serve_until_kill_example :
    serve debugger system (write_packet ∷ kill_packet ∷ read_packet ∷ []) protocol
    ≡ serve debugger system (write_packet ∷ kill_packet ∷ []) protocol
unfolding first_match
serve_until_kill_example =
    serve_until_kill debugger system (write_packet ∷ []) kill_packet (read_packet ∷ []) protocol
      refl

process_packet_writes_nothing_example :
    process_packet debugger system write_packet protocol
    ≡ replied (create_response system.hex2 (codes "OK") false) protocol
unfolding first_match
process_packet_writes_nothing_example =
    process_packet_writes_nothing debugger system write_packet protocol refl refl

process_read_memory-client_reads_example :
    (text : Bytes) × (process_read_memory debugger system
        (ask_memory binary (codes "10") (codes "2") (codes "00"))
        protocol
      ≡ replied (create_response system.hex2 text false) protocol)
    × (client_reads binary text ≡ some (0x23 ∷ 0x23 ∷ []))
unfolding parse_int parse_loop hex_digit_to_int
process_read_memory-client_reads_example =
    process_read_memory-client_reads debugger system binary (codes "10") (codes "2") (codes "00")
      (0x23 ∷ 0x23 ∷ []) 0x23 protocol refl (omega arith) refl two_bytes (omega arith)
