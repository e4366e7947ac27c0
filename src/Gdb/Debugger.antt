-- ===== src/Gdb/Debugger.antt =====
-- AbstractDebugger.hpp, and the server's side of the protocol: what the debugger and the system do
-- to the world, and what a packet's handler gives.
use dpcpp_trace.Prelude.{ℕ, Bool, Option, List, ◌++◌, Bytes, codes, String}
use dpcpp_trace.Gdb.Hex.{create_response}

-- `StopReason::Type`
pub data StopType : Type 0 where
  none : StopType
  invalid trace breakpoint watchpoint signal exception exec fork vfork vfork_done exit : StopType

pub record StopReason : Type 0 where
  pub type : StopType
  pub code : ℕ

-- `AbstractDebugger`, as far as the server calls it. Every operation may change the world `W`.
pub record Debugger (W : Type 0) : Type 0 where
  pub get_registers_data : ℕ → W → Bytes × W
  pub write_registers_data : Bytes → ℕ → W → W
  pub read_register : ℕ → ℕ → W → Bytes × W
  pub get_gdb_target_xml : W → Bytes × W
  pub get_executable_path : W → Bytes × W
  pub is_attached : W → Bool × W
  pub get_num_threads : W → ℕ × W
  pub get_thread_id_at_index : ℕ → W → ℕ × W
  pub get_stop_reason : ℕ → W → StopReason × W
  pub create_software_breakpoint : ℕ → W → W
  pub remove_software_breakpoint : ℕ → W → W
  pub resume : ℕ → ℕ → W → W
  pub step_instruction : ℕ → ℕ → W → W
  pub read_memory : ℕ → ℕ → W → Bytes × W
  pub write_memory : ℕ → ℕ → Bytes → W → W
  pub get_auxv_data : W → Bytes × W

-- What `read` gives: its `int`, as 32 bits, and the bytes it put into the buffer.
pub record ReadResult : Type 0 where
  pub res : ℕ
  pub written : Bytes

-- The system's files, and the libraries: `{:x}` and `{:02x}` of the formatting library, and the
-- matcher of regular expressions, which gives the groups of a match.
pub record System (W : Type 0) : Type 0 where
  pub open_file : Bytes → ℕ → ℕ → W → ℕ × W
  pub seek_set : ℕ → ℕ → W → W
  pub read_file : ℕ → ℕ → W → ReadResult × W
  pub close_file : ℕ → W → ℕ × W
  pub hex : ℕ → Bytes
  pub hex2 : ℕ → Bytes
  pub ctre_match : String → Bytes → Option (List Bytes)

-- `GDBServerProtocol`
pub record Protocol (W : Type 0) : Type 0 where
  pub running : Bool
  pub ack : Bool
  pub current_thread_index : ℕ
  pub last_thread_info_index : ℕ
  pub world : W

-- A handler replies, throws, or does something undefined.
pub data Reply (W : Type 0) : Type 0 where
  replied : Bytes → Protocol W → Reply W
  thrown : Reply W
  undefined : Reply W

module _ {W : Type 0} (dbg : Debugger W) (sys : System W) where
  -- `return createResponse(response, mAck)`
  abbrev pub respond : Bytes → Protocol W → Reply W
  respond response p = replied (create_response sys.hex2 response p.ack) p

  -- `encodeStopReason`
  unfoldable pub encode_stop_reason : StopReason → Bytes
  encode_stop_reason r = elim r.type [
    | StopType.signal ↦ codes "S" ++ sys.hex2 r.code
    | StopType.breakpoint ↦ codes "T05swbreak:;"
    | StopType.exit ↦ codes "W00"
    | StopType.none ↦ codes "W00"
    | _ ↦ codes "S05"
  ]

  -- The last two statements of what resumes the program.
  unfoldable pub report_stop : Protocol W → Reply W
  report_stop p =
      let (reason, w) = dbg.get_stop_reason p.current_thread_index p.world in
      respond (encode_stop_reason reason) (record p { world = w })
