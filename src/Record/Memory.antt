-- ===== src/Record/Memory.antt =====
-- record_handler.cpp: the handlers that keep the contents of memory objects in files.
use dpcpp_trace.Prelude.{
  ℕ, true, false, ◌&&◌, ◌||◌, Option, [], ◌∷◌, ◌++◌, ◌==◌, Bytes, le_bytes, le_value,
}
use dpcpp_trace.Trace.Api.{ApiCall}
use dpcpp_trace.Replay.Memory.{Memory, load}
use dpcpp_trace.Record.Args.{pointer, unsigned}
use dpcpp_trace.Record.Recorder.{
  Environment, Recorder, Handled, begin_call, finish_call, with_result,
}

module _ (env : Environment) where
  -- The thread's name, the event's number, and the ending.
  unfoldable pub mem_file_name : ℕ → Bytes
  mem_file_name event_id =
      env.thread_name ++ (b'_' ∷ env.to_string event_id) ++ (b'.' ∷ b'm' ∷ b'e' ∷ b'm' ∷ [])

  -- What stands under `if (writeMemObj)`; `source` finds the object in memory once the event is done.
  unfoldable pub save_memory : Recorder → Memory → ℕ → (Memory → ℕ) → ℕ → ApiCall → Handled
  save_memory r m event source size call =
      let name = mem_file_name r.last_event_id in
      let after = env.events_wait event m in
      let contents = le_bytes 8 size ++ load size (source after) after in
      finish_call env (record r { mem_files = (name, contents) ∷ r.mem_files })
        (record call { mem_obj_outputs = call.mem_obj_outputs ++ name ∷ [] })

  unfoldable pub handle_enqueue_mem_buffer_map :
      Recorder → Memory → Option ℕ → ℕ → ℕ → ℕ → ℕ → ℕ → ℕ → ℕ → ℕ → ℕ → ℕ → Handled
  handle_enqueue_mem_buffer_map r m res command_queue buffer blocking_map map_flags offset size
        num_events wait_list event ret_map =
      with_result res λ result.
        let call = begin_call r result (
          pointer command_queue
          ∷ pointer buffer
          ∷ unsigned 4 blocking_map
          ∷ unsigned 8 map_flags
          ∷ unsigned 8 offset
          ∷ unsigned 8 size
          ∷ unsigned 4 num_events
          ∷ pointer wait_list
          ∷ pointer event
          ∷ pointer ret_map
          ∷ []) in
        elim r.skip_mem_objects [
          | true ↦ save_memory r m event (λ after. le_value (load 8 ret_map after)) size call
          | false ↦ finish_call env r call
        ]

  unfoldable pub handle_enqueue_mem_buffer_read :
      Recorder → Memory → Option ℕ → ℕ → ℕ → ℕ → ℕ → ℕ → ℕ → ℕ → ℕ → ℕ → Handled
  handle_enqueue_mem_buffer_read r m res queue buffer blocking_read offset size ptr num_events
        wait_list event =
      with_result res λ result.
        let call = begin_call r result (
          pointer queue
          ∷ pointer buffer
          ∷ unsigned 4 blocking_read
          ∷ unsigned 8 offset
          ∷ unsigned 8 size
          ∷ pointer ptr
          ∷ unsigned 4 num_events
          ∷ pointer wait_list
          ∷ pointer event
          ∷ []) in
        elim r.skip_mem_objects [
          | true ↦ save_memory r m event (λ after. ptr) size call
          | false ↦ finish_call env r call
        ]

  -- The memory is kept if the destination is on the host, or unknown.
  unfoldable pub handle_usm_enqueue_memcpy :
      Recorder → Memory → Option ℕ → ℕ → ℕ → ℕ → ℕ → ℕ → ℕ → ℕ → ℕ → Handled
  handle_usm_enqueue_memcpy r m res queue blocking dst_ptr src_ptr size num_events wait_list event =
      with_result res λ result.
        let call = begin_call r result (
          pointer queue
          ∷ unsigned 4 blocking
          ∷ pointer dst_ptr
          ∷ pointer src_ptr
          ∷ unsigned 8 size
          ∷ unsigned 4 num_events
          ∷ pointer wait_list
          ∷ pointer event
          ∷ []) in
        let alloc_type = env.usm_alloc_type queue dst_ptr in
        let should_save_mem =
          (alloc_type == env.pi_mem_type_unknown || alloc_type == env.pi_mem_type_host)
          && r.skip_mem_objects in
        elim should_save_mem [
          | true ↦ save_memory r m event (λ after. dst_ptr) size call
          | false ↦ finish_call env r call
        ]
