-- ===== src/HostDebugger/Registers.antt =====
-- HostDebugger.cpp: all registers as one block of bytes, and back.
use dpcpp_trace.Prelude.{
  ℕ, ◌+◌, ◌-◌, true, false, Option, none, some, List, [], ◌∷◌, ◌++◌, ltb, leb, if◌then◌else◌, Bytes,
  length, get_elem?, take, drop, replicate,
}
use dpcpp_trace.HostDebugger.{
  RegisterInfo, Lldb, CallResult, returned, terminated, undefined, select_thread,
}

-- `buffer.resize` where the size is too small, and `memcpy` into the buffer.
unfoldable pub grow : ℕ → Bytes → Bytes
grow size buffer =
    if leb (length buffer) size then buffer ++ replicate (size - length buffer) 0 else buffer

unfoldable pub place : ℕ → Bytes → Bytes → Bytes
place offset bytes buffer = take offset buffer ++ (bytes ++ drop (offset + length bytes) buffer)

-- `llvm::ArrayRef` on a part of the block.
abbrev pub part : ℕ → ℕ → Bytes → Bytes
part offset size block = take size (drop offset block)

module _ {W : Type 0} (lldb : Lldb W) (thread : ℕ) where
  -- The loop of `getRegistersData` from register `num` on; `none` is `return {}`.
  unfoldable pub registers_loop : ℕ → List (Option RegisterInfo) → W → Bytes → Option Bytes
  registers_loop num [] w buffer = some buffer
  registers_loop num (none ∷ infos) w buffer = none
  registers_loop num (some info ∷ infos) w buffer = elim info.is_contained [
    | true ↦ registers_loop (num + 1) infos w buffer
    | false ↦ elim (lldb.read_register_value thread num w) [
      | none ↦ none
      | some value ↦ registers_loop (num + 1) infos w (
          place info.byte_offset (take info.byte_size value)
            (grow (info.byte_offset + info.byte_size) buffer))
    ]
  ]

  -- The loop of `writeRegistersData`.
  unfoldable pub write_registers_loop :
      ℕ → List (Option RegisterInfo) → Bytes → W → CallResult W (Unit {0})
  write_registers_loop num [] block w = returned tt w
  write_registers_loop num (none ∷ infos) block w = terminated
  write_registers_loop num (some info ∷ infos) block w = elim info.is_contained [
    | true ↦ write_registers_loop (num + 1) infos block w
    | false ↦ elim (leb (info.byte_offset + info.byte_size) (length block)) [
      | false ↦ undefined
      | true ↦
          write_registers_loop (num + 1) infos block
            (lldb.write_register_value thread num (part info.byte_offset info.byte_size block) w)
    ]
  ]

module _ {W : Type 0} (lldb : Lldb W) where
  unfoldable pub get_registers_data : ℕ → W → CallResult W Bytes
  get_registers_data thread_id w = elim (select_thread lldb thread_id w) [
    | none ↦ undefined
    | some thread ↦ elim (registers_loop lldb thread 0 (lldb.register_infos thread) w []) [
      | none ↦ returned [] w
      | some buffer ↦ returned buffer w
    ]
  ]

  unfoldable pub write_registers_data : Bytes → ℕ → W → CallResult W (Unit {0})
  write_registers_data block tid w = elim (select_thread lldb tid w) [
    | none ↦ undefined
    | some thread ↦ write_registers_loop lldb thread 0 (lldb.register_infos thread) block w
  ]

  -- `readRegister`; the number of registers is let through, and there is no such register then.
  unfoldable pub read_register : ℕ → ℕ → W → CallResult W Bytes
  read_register thread_id reg_num w = elim (select_thread lldb thread_id w) [
    | none ↦ undefined
    | some thread ↦
        if ltb (length (lldb.register_infos thread)) reg_num
        then returned [] w
        else elim (get_elem? (lldb.register_infos thread) reg_num) [
          | some (some info) ↦ elim (lldb.read_register_value thread reg_num w) [
            | none ↦ returned [] w
            | some value ↦ returned (take info.byte_size value) w
          ]
          | _ ↦ undefined
        ]
  ]
