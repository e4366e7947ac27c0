-- ===== src/HostDebugger/Process.antt =====
-- HostDebugger.cpp: what the debugger tells of the process, and `cast`, with utils/RTTI.hpp.
use dpcpp_trace.Prelude.{
  ℕ, Bool, not, Option, none, some, [], if◌then◌else◌, Bytes, length, take, codes,
}
use dpcpp_trace.HostDebugger.{CallResult, returned, terminated, undefined}

pub data ByteOrder : Type 0 where
  little_order big_order pdp_order other_order : ByteOrder

-- LLDB's `ProcessInstanceInfo`, with its architecture.
pub record ProcessInstanceInfo : Type 0 where
  pub pid : ℕ
  pub parent_pid : ℕ
  pub uid : ℕ
  pub gid : ℕ
  pub effective_uid : ℕ
  pub effective_gid : ℕ
  pub arch_valid : Bool
  pub byte_order : ByteOrder
  pub triple : Bytes
  pub os_name : Bytes
  pub target_abi : Bytes
  pub address_byte_size : ℕ

-- `dpcpp_trace::ProcessInfo`
pub record HostProcessInfo : Type 0 where
  pub pid : ℕ
  pub parent_pid : ℕ
  pub uid : ℕ
  pub gid : ℕ
  pub effective_uid : ℕ
  pub effective_gid : ℕ
  pub triple : Bytes
  pub os_type : Bytes
  pub endian : Bytes
  pub abi : Bytes
  pub ptr_size : ℕ

unfoldable pub endian_name : ByteOrder → Bytes
endian_name little_order = codes "little"
endian_name big_order = codes "big"
endian_name pdp_order = codes "pdp"
endian_name other_order = []

-- What LLDB gives for the target's process; `none` of the auxiliary vector is a null process.
pub record LldbProcess (W : Type 0) : Type 0 where
  pub has_target : W → Bool
  pub get_instance_info : W → Option ProcessInstanceInfo
  pub get_auxv : W → Option Bytes

module _ {W : Type 0} (lldb : LldbProcess W) where
  unfoldable pub get_process_info : W → CallResult W HostProcessInfo
  unfolding endian_name
  get_process_info w =
      if not (lldb.has_target w) then terminated else elim (lldb.get_instance_info w) [
        | none ↦ terminated
        | some info ↦
            if not info.arch_valid
            then terminated
            else returned
                (record {
                  pid = info.pid;
                  parent_pid = info.parent_pid;
                  uid = info.uid;
                  gid = info.gid;
                  effective_uid = info.effective_uid;
                  effective_gid = info.effective_gid;
                  triple = info.triple;
                  os_type = info.os_name;
                  endian = endian_name info.byte_order;
                  abi = info.target_abi;
                  ptr_size = info.address_byte_size;
                })
                w
      ]

  -- The bytes are copied into a vector of their size.
  unfoldable pub get_auxv_data : W → CallResult W Bytes
  get_auxv_data w = elim (lldb.get_auxv w) [
    | none ↦ undefined
    | some contents ↦ returned (take (length contents) contents) w
  ]

  unfoldable pub is_attached : W → Bool
  is_attached w = lldb.has_target w
