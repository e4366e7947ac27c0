-- ===== src/Record/Calls.antt =====
-- What one finished call leaves in the trace, written out call by call, and that every handler of
-- record_handler.cpp leaves it.
use dpcpp_trace.Prelude.{
  ℕ, ◌≡◌, refl, ap, Bool, true, false, ◌&&◌, ◌||◌, some, List, [], ◌∷◌, ◌++◌, ◌==◌, Bytes, le_bytes,
}
use dpcpp_trace.Trace.Api.{ApiCall}
use dpcpp_trace.Trace.Frame.{write_frame}
use dpcpp_trace.Replay.Memory.{Memory, load}
use dpcpp_trace.Record.Args.{Value, pointer, unsigned}
use dpcpp_trace.Record.Recorder.{Environment, Recorder, Handled, handled, begin_call, finish_call}
use dpcpp_trace.Record.Handlers.{
  add_output, basic_handler, handle_platforms_get, handle_devices_get, handle_get_info,
  handle_kernel_get_group_info,
}
use dpcpp_trace.Record.Memory.{
  mem_file_name, save_memory, handle_enqueue_mem_buffer_map, handle_enqueue_mem_buffer_read,
  handle_usm_enqueue_memcpy,
}
use dpcpp_trace.Record.Dispatch.{
  Finished, platforms_get, devices_get, enqueue_mem_buffer_map, enqueue_mem_buffer_read,
  usm_enqueue_memcpy, get_info, kernel_get_group_info, other, run_handler,
}

-- The arguments, in the order of the function's declaration.
arguments : Finished → List Value
arguments (platforms_get n p c) = unsigned 4 n ∷ pointer p ∷ pointer c ∷ []
arguments (devices_get p t n d c) =
    pointer p ∷ unsigned 8 t ∷ unsigned 4 n ∷ pointer d ∷ pointer c ∷ []
arguments (enqueue_mem_buffer_map q b bl fl o s n w e p) =
    pointer q
    ∷ pointer b
    ∷ unsigned 4 bl
    ∷ unsigned 8 fl
    ∷ unsigned 8 o
    ∷ unsigned 8 s
    ∷ unsigned 4 n
    ∷ pointer w
    ∷ pointer e
    ∷ pointer p
    ∷ []
arguments (enqueue_mem_buffer_read q b bl o s p n w e) =
    pointer q
    ∷ pointer b
    ∷ unsigned 4 bl
    ∷ unsigned 8 o
    ∷ unsigned 8 s
    ∷ pointer p
    ∷ unsigned 4 n
    ∷ pointer w
    ∷ pointer e
    ∷ []
arguments (usm_enqueue_memcpy q bl d s n k w e) =
    pointer q
    ∷ unsigned 4 bl
    ∷ pointer d
    ∷ pointer s
    ∷ unsigned 8 n
    ∷ unsigned 4 k
    ∷ pointer w
    ∷ pointer e
    ∷ []
arguments (get_info _ obj name size value ret_size) =
    pointer obj ∷ name ∷ unsigned 8 size ∷ pointer value ∷ pointer ret_size ∷ []
arguments (kernel_get_group_info k d name size value ret_size) =
    pointer k ∷ pointer d ∷ name ∷ unsigned 8 size ∷ pointer value ∷ pointer ret_size ∷ []
arguments (other args) = args

-- What the call wrote through its pointers; the parameter's value stands before its size.
outputs : Memory → Finished → ApiCall → ApiCall
outputs m (platforms_get n p c) call = add_output m c 4 call
outputs m (devices_get p t n d c) call = add_output m c 4 call
outputs m (get_info _ obj name size value ret_size) call =
    add_output m ret_size 8 (add_output m value size call)
outputs m (kernel_get_group_info k d name size value ret_size) call =
    add_output m ret_size 8 (add_output m value size call)
outputs m _ call = call

module _ (env : Environment) where
  -- Whether the contents of memory are kept, if memory objects are.
  keeps_memory : Finished → Bool
  keeps_memory (enqueue_mem_buffer_map q b bl fl o s n w e p) = true
  keeps_memory (enqueue_mem_buffer_read q b bl o s p n w e) = true
  keeps_memory (usm_enqueue_memcpy q bl d s n k w e) =
      let type = env.usm_alloc_type q d in
      type == env.pi_mem_type_unknown || type == env.pi_mem_type_host
  keeps_memory _ = false

  with_memory : Bool → ℕ → ApiCall → ApiCall
  with_memory true event call = record call { mem_obj_outputs = mem_file_name env event ∷ [] }
  with_memory false event call = call

  -- The call as the trace keeps it.
  unfoldable pub call_of : Recorder → Memory → ℕ → Finished → ApiCall
  unfolding arguments outputs keeps_memory with_memory
  call_of r m result call =
      with_memory (keeps_memory call && r.skip_mem_objects) r.last_event_id
        (outputs m call (begin_call r result (arguments call)))

  -- The frame is appended to the stream, and nothing but the kept memory changes beside it.
  abbrev pub Leaves : Recorder → ApiCall → Handled → Type 0
  Leaves r call h =
      (files : List (Bytes × Bytes)) × (h
        ≡ handled (record r { os = r.os ++ write_frame env.codec call; mem_files = files }))

  -- With and without the memory, for a call that has none yet.
  kept :
      (b : Bool) (r : Recorder) (m : Memory) (event : ℕ) (source : Memory → ℕ) (size : ℕ)
      (call : ApiCall)
      → call.mem_obj_outputs ≡ []
      → Leaves r (with_memory b r.last_event_id call) (elim b [
        | true ↦ save_memory env r m event source size call
        | false ↦ finish_call env r call
      ])
  unfolding with_memory save_memory finish_call
  kept true r m event source size call h =
      let name = mem_file_name env r.last_event_id in
      let after = env.events_wait event m in
      let files : List (Bytes × Bytes) =
        (name, le_bytes 8 size ++ load size (source after) after) ∷ r.mem_files in
      (
        files,
        ap
            (λ (t : List Bytes). handled (record r {
              os = r.os ++ write_frame env.codec (record call { mem_obj_outputs = t ++ name ∷ [] });
              mem_files = files;
            }))
            h,
      )
  kept false r m event source size call h = (r.mem_files, refl)

  pub run_handler-call_of :
      (r : Recorder) (m : Memory) (result : ℕ) (call : Finished)
      → Leaves r (call_of r m result call) (run_handler env r m (some result) call)
  unfolding run_handler call_of basic_handler handle_platforms_get handle_devices_get
      handle_get_info handle_kernel_get_group_info handle_enqueue_mem_buffer_map
      handle_enqueue_mem_buffer_read handle_usm_enqueue_memcpy finish_call begin_call
  run_handler-call_of r m result (platforms_get n p c) = (r.mem_files, refl)
  run_handler-call_of r m result (devices_get p t n d c) = (r.mem_files, refl)
  run_handler-call_of r m result (enqueue_mem_buffer_map q b bl fl o s n w e p) =
      kept r.skip_mem_objects r m e _ s _ refl
  run_handler-call_of r m result (enqueue_mem_buffer_read q b bl o s p n w e) =
      kept r.skip_mem_objects r m e _ s _ refl
  run_handler-call_of r m result (usm_enqueue_memcpy q bl d s n k w e) =
      kept (keeps_memory (usm_enqueue_memcpy q bl d s n k w e) && r.skip_mem_objects) r m e _ n _
        refl
  run_handler-call_of r m result (get_info _ obj name size value ret_size) = (r.mem_files, refl)
  run_handler-call_of r m result (kernel_get_group_info k d name size value ret_size) =
      (r.mem_files, refl)
  run_handler-call_of r m result (other args) = (r.mem_files, refl)
