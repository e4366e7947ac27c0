-- ===== src/HostDebugger/Running.antt =====
-- HostDebugger.cpp: why a thread stopped, memory, and how the process goes on.
use dpcpp_trace.Prelude.{
  ℕ, zero, suc, ◌%◌, ◌^◌, ◌≡◌, refl, Bool, true, false, ◌||◌, Option, none, some, [], arith, leb,
  ◌==◌, if◌then◌else◌, Bytes, length, take,
}
use dpcpp_trace.Gdb.Debugger.{StopType, StopReason}
use dpcpp_trace.HostDebugger.{
  StateType, LldbReason, Lldb, CallResult, returned, terminated, undefined, select_thread,
}

-- `code` is 0 unless it is set.
abbrev stopped : StopType → StopReason
stopped type = record { type = type; code = 0 }

module _ {W : Type 0} (lldb : Lldb W) where
  -- The second switch of `getStopReason`.
  unfoldable pub thread_stop_reason : ℕ → W → StopReason
  thread_stop_reason thread w = elim (lldb.get_reason thread w) [
    | LldbReason.reason_invalid ↦ stopped StopType.exit
    | LldbReason.reason_trace ↦ stopped StopType.trace
    | LldbReason.reason_none ↦ stopped StopType.breakpoint
    | LldbReason.reason_breakpoint ↦ stopped StopType.breakpoint
    | LldbReason.reason_plan_complete ↦ stopped StopType.breakpoint
    | LldbReason.reason_watchpoint ↦ stopped StopType.watchpoint
    | LldbReason.reason_signal ↦ record {
      type = StopType.signal;
      code = lldb.get_value thread w % 2 ^ 32;
    }
    | LldbReason.reason_exception ↦ stopped StopType.exception
    | LldbReason.reason_fork ↦ stopped StopType.fork
    | LldbReason.reason_vfork ↦ stopped StopType.vfork
    | LldbReason.reason_vfork_done ↦ stopped StopType.vfork_done
    | LldbReason.reason_other ↦ stopped StopType.none
  ]

  abbrev pub stopped_thread : ℕ → W → CallResult W StopReason
  stopped_thread thread_id w = elim (select_thread lldb thread_id w) [
    | none ↦ undefined
    | some thread ↦ returned (thread_stop_reason thread w) w
  ]

  unfoldable pub get_stop_reason : ℕ → W → CallResult W StopReason
  get_stop_reason thread_id w = elim (lldb.get_state w) [
    | StateType.exited ↦ returned (stopped StopType.exit) w
    | StateType.invalid_state ↦ returned (stopped StopType.exit) w
    | StateType.unloaded ↦ returned (stopped StopType.exit) w
    | StateType.attaching ↦ returned (stopped StopType.none) w
    | StateType.launching ↦ returned (stopped StopType.none) w
    | StateType.running ↦ returned (stopped StopType.none) w
    | StateType.stepping ↦ returned (stopped StopType.none) w
    | StateType.detached ↦ returned (stopped StopType.none) w
    | StateType.crashed ↦ stopped_thread thread_id w
    | StateType.other_state ↦ stopped_thread thread_id w
  ]

  unfoldable pub get_thread_id_at_index : ℕ → W → CallResult W ℕ
  get_thread_id_at_index thread_idx w = elim (lldb.get_thread_at_index thread_idx w) [
    | none ↦ undefined
    | some thread ↦ returned (lldb.get_id thread w) w
  ]

  -- Nothing is read of a process that runs, or where LLDB fails; else as much as LLDB could read.
  unfoldable pub read_memory : ℕ → ℕ → W → Bytes
  read_memory addr len w = elim (lldb.try_lock w) [
    | false ↦ []
    | true ↦ elim (lldb.read_process_memory addr len w) [ none ↦ [] | some buf ↦ buf ]
  ]

  -- `none` is a length that is longer than the bytes that are given.
  unfoldable pub write_memory : ℕ → ℕ → Bytes → W → Option W
  write_memory addr len bytes w = elim (lldb.try_lock w) [
    | false ↦ some w
    | true ↦
        if leb len (length bytes)
        then some (lldb.write_process_memory addr (take len bytes) w)
        else none
  ]

  -- `type != eStateExited || type != eStateCrashed`
  abbrev pub goes_on : StateType → Bool
  goes_on type =
      elim type [ StateType.exited ↦ false | _ ↦ true ]
      || elim type [ StateType.crashed ↦ false | _ ↦ true ]

  -- The loop of `wait`, with a bound on its rounds; `none` if it has not ended by then.
  unfoldable pub wait_loop : ℕ → W → Option W
  wait_loop zero w = none
  wait_loop (suc rounds) w =
      let stop = lldb.wait_for_process_to_stop w in
      elim (goes_on stop.0) [ true ↦ wait_loop rounds stop.1 | false ↦ some stop.1 ]

  -- The signal is not used.
  unfoldable pub resume : ℕ → ℕ → W → CallResult W (Unit {0})
  resume signal tid w =
      let result = lldb.resume_synchronous (lldb.set_selected_thread_by_id tid w) in
      if result.0 then returned tt result.1 else terminated

  unfoldable pub step_instruction : ℕ → ℕ → W → CallResult W (Unit {0})
  step_instruction tid signal w = elim (select_thread lldb tid w) [
    | none ↦ terminated
    | some thread ↦
        let w₁ = if signal == 0 then w else lldb.set_resume_signal thread signal w in
        let planned = lldb.queue_step thread w₁ in
        if planned.0
        then returned tt
            (lldb.resume_synchronous
              (lldb.set_selected_thread_by_id (lldb.get_id thread planned.1) planned.1)).1
        else terminated
  ]

  -- However often the process stops, the loop of `wait` has not ended.
  wait_never : (rounds : ℕ) (w : W) → wait_loop rounds w ≡ none
  unfolding wait_loop
  wait_never zero w = refl
  wait_never (suc rounds) w = ground (arith, wait_never rounds (lldb.wait_for_process_to_stop w).1)
