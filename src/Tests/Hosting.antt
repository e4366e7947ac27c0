-- ===== src/Tests/Hosting.antt =====
-- A thread with three registers, the second of them a part of the first.
use dpcpp_trace.Prelude.{
  ℕ, ◌≡◌, refl, inl, inr, Bool, true, false, Option, none, some, List, [], ◌∷◌, arith, ◌==◌,
  if◌then◌else◌, Bytes, codes,
}
use dpcpp_trace.HostDebugger.{
  StateType, LldbReason, Encoding, Format, RegisterInfo, Lldb, returned, select_thread,
}
use dpcpp_trace.HostDebugger.Registers.{get_registers_data, write_registers_data}
use dpcpp_trace.HostDebugger.Restore.{restore, write_registers_data-get_registers_data}

abbrev register : Bytes → ℕ → ℕ → Bool → RegisterInfo
register name size offset contained = record {
  name = name;
  alt_name = none;
  byte_size = size;
  byte_offset = offset;
  encoding = Encoding.uint;
  format = Format.hex;
  is_contained = contained;
}

abbrev registers : List (Option RegisterInfo)
registers =
    some (register (codes "ax") 2 0 false)
    ∷ some (register (codes "al") 1 0 true)
    ∷ some (register (codes "bx") 2 2 false)
    ∷ []

-- The values of the registers.
abbrev Values : Type 0
Values = ℕ → Bytes

abbrev lldb : Lldb Values
lldb = record {
  find_thread_by_id = λ id w. some id;
  get_thread_at_index = λ index w. some 1;
  get_size = λ w. 1;
  get_id = λ thread w. 1;
  register_infos = λ thread. registers;
  read_register_value = λ thread num w. some (w num);
  write_register_value = λ thread num value w other. if num == other then value else w other;
  get_state = λ w. StateType.other_state;
  get_reason = λ thread w. LldbReason.reason_none;
  get_value = λ thread w. 0;
  try_lock = λ w. true;
  read_process_memory = λ addr len w. none;
  write_process_memory = λ addr bytes w. w;
  create_breakpoint = λ addr w. (none, w);
  remove_breakpoint_by_id = λ id w. w;
  wait_for_process_to_stop = λ w. (StateType.other_state, w);
  set_selected_thread_by_id = λ id w. w;
  resume_synchronous = λ w. (true, w);
  set_resume_signal = λ thread signal w. w;
  queue_step = λ thread w. (true, w);
  arch_name = λ w. codes "x86_64";
}

abbrev before : Values
before = λ num. if num == 0 then 1 ∷ 2 ∷ [] else if num == 1 then 1 ∷ [] else 3 ∷ 4 ∷ 9 ∷ []

abbrev after : Values
after = λ num. 0 ∷ 0 ∷ []

write_registers_data-get_registers_data_example :
    (block : Bytes) × (get_registers_data lldb 0 before ≡ returned block before)
    × (write_registers_data lldb block 0 after
        ≡ returned tt (restore lldb 1 0 registers before after))
unfolding select_thread
write_registers_data-get_registers_data_example =
    write_registers_data-get_registers_data lldb 0 1 before after refl refl
      (inr (inl refl, (inr (inl (omega arith)), tt)), (inl refl, (inr tt, tt)))
      (inr (before 0, refl, omega arith), (inl refl, (inr (before 2, refl, omega arith), tt)))
