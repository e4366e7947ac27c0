-- ===== src/HostDebugger.antt =====
-- lib/debug/host/HostDebugger.cpp: the debugger of programs on the host, over LLDB.
pub mod Registers
pub mod Block
pub mod Restore
pub mod Running
pub mod Description
pub mod Breakpoints
pub mod Live
pub mod Launch
pub mod Lifetime
pub mod Process
pub mod Cast
use dpcpp_trace.Prelude.{ℕ, Bool, Option, List, ◌==◌, if◌then◌else◌, Bytes}

-- The states of a process that the debugger tells apart, and the reasons of a stop.
pub data StateType : Type 0 where
  exited invalid_state unloaded attaching launching running stepping detached crashed other_state :
      StateType

pub data LldbReason : Type 0 where
  reason_invalid reason_trace reason_none reason_breakpoint reason_plan_complete : LldbReason
  reason_watchpoint reason_signal reason_exception : LldbReason
  reason_fork reason_vfork reason_vfork_done reason_other : LldbReason

pub data Encoding : Type 0 where
  uint sint ieee754 vector other_encoding : Encoding

pub data Format : Type 0 where
  binary decimal hex float : Format
  vector_of_sint8 vector_of_uint8 vector_of_sint16 vector_of_uint16 : Format
  vector_of_sint32 vector_of_uint32 vector_of_float32 vector_of_uint64 vector_of_uint128 : Format
  other_format : Format

-- `RegisterInfo`; `is_contained` says that `value_regs` is there: the register is part of others.
pub record RegisterInfo : Type 0 where
  pub name : Bytes
  pub alt_name : Option Bytes
  pub byte_size : ℕ
  pub byte_offset : ℕ
  pub encoding : Encoding
  pub format : Format
  pub is_contained : Bool

-- LLDB's process and its threads, which are numbers; a `none` is a null pointer or a failure.
pub record Lldb (W : Type 0) : Type 0 where
  pub find_thread_by_id : ℕ → W → Option ℕ
  pub get_thread_at_index : ℕ → W → Option ℕ
  pub get_size : W → ℕ
  pub get_id : ℕ → W → ℕ
  pub register_infos : ℕ → List (Option RegisterInfo)
  pub read_register_value : ℕ → ℕ → W → Option Bytes
  pub write_register_value : ℕ → ℕ → Bytes → W → W
  pub get_state : W → StateType
  pub get_reason : ℕ → W → LldbReason
  pub get_value : ℕ → W → ℕ
  pub try_lock : W → Bool
  pub read_process_memory : ℕ → ℕ → W → Option Bytes
  pub write_process_memory : ℕ → Bytes → W → W
  pub create_breakpoint : ℕ → W → Option ℕ × W
  pub remove_breakpoint_by_id : ℕ → W → W
  pub wait_for_process_to_stop : W → StateType × W
  pub set_selected_thread_by_id : ℕ → W → W
  pub resume_synchronous : W → Bool × W
  pub set_resume_signal : ℕ → ℕ → W → W
  pub queue_step : ℕ → W → Bool × W
  pub arch_name : W → Bytes

-- How a call ends: with a value, by `std::terminate`, or through a null pointer or past an end.
pub data CallResult (W A : Type 0) : Type 0 where
  returned : A → W → CallResult W A
  terminated : CallResult W A
  undefined : CallResult W A

-- The thread of an id; 0 is the first thread.
unfoldable pub select_thread : {W : Type 0} → Lldb W → ℕ → W → Option ℕ
select_thread lldb id w =
    if id == 0 then lldb.get_thread_at_index 0 w else lldb.find_thread_by_id id w
