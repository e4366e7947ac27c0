-- ===== src/Replay/Table/Returns.antt =====
-- A call that meets a record of its function gives the recorded result, and takes that record alone.
use dpcpp_trace.Prelude.{◌+◌, ◌≡◌, ◌≢◌, not, ◌&&◌, some, arith, ◌==◌, ==_refl}
use dpcpp_trace.Trace.Api.{ApiCall}
use dpcpp_trace.Trace.Stream.{read}
use dpcpp_trace.Replay.Plugin.{
  next_record, die_if_unexpected, Plugin, ok, Runtime, ApiKind, expect_record, new_int, new_chars,
  write_at,
}
use dpcpp_trace.Replay.Platform.{
  pi_platforms_get, pi_platform_get_info, pi_devices_get, pi_device_get_info, pi_device_retain,
  pi_device_release, pi_context_create, pi_context_get_info, pi_context_release, pi_context_retain,
  pi_queue_create, pi_queue_get_info, pi_queue_retain, pi_queue_release, pi_queue_finish,
}
use dpcpp_trace.Replay.Objects.{
  pi_mem_buffer_create, pi_mem_get_info, pi_mem_image_get_info, pi_mem_retain,
  pi_ext_device_select_binary, pi_program_create_with_binary, pi_program_create, pi_program_build,
  pi_program_get_info, pi_program_compile, pi_program_link, pi_program_retain,
  pi_ext_program_set_specialization_constant, pi_mem_release, pi_program_release,
}
use dpcpp_trace.Replay.Kernels.{
  pi_kernel_create, pi_kernel_set_exec_info, pi_kernel_get_info, pi_kernel_get_group_info,
  pi_ext_kernel_set_arg_mem_obj, pi_kernel_set_arg, pi_kernel_retain, pi_ext_kernel_set_arg_pointer,
  pi_kernel_release,
}
use dpcpp_trace.Replay.Enqueue.{
  pi_enqueue_kernel_launch, pi_enqueue_mem_unmap, pi_enqueue_events_wait,
  pi_enqueue_events_wait_with_barrier, pi_events_wait, pi_event_release, pi_enqueue_mem_buffer_map,
  pi_enqueue_mem_buffer_read, pi_ext_usm_enqueue_memcpy, pi_ext_usm_host_alloc,
  pi_ext_usm_device_alloc, pi_ext_usm_free, pi_ext_usm_enqueue_memset,
}
use dpcpp_trace.Replay.Objects.{set_mem_context}
use dpcpp_trace.Replay.Kernels.{set_kernel_program}
use dpcpp_trace.Replay.Enqueue.{read_size}
use dpcpp_trace.Replay.Table.{
  Call, call_plugin, expected, platforms_get, platform_get_info, devices_get, device_get_info,
  device_retain, context_get_info, queue_get_info, mem_get_info, mem_image_get_info,
  ext_device_select_binary, program_get_info, kernel_get_info, kernel_get_group_info,
  enqueue_mem_buffer_map, enqueue_mem_buffer_read, ext_usm_enqueue_memcpy,
}
use dpcpp_trace.Replay.Table.Answers.{
  Same, Answers, answered, write_at_answers, replay_get_info_answers, u32_at_ok,
  write_count_answers, write_entries_answers, open_mem_file_ok, copy_mem_file_answers,
  copy_context_answers, copy_program_answers, copy_saved_answers,
}
use dpcpp_trace.Replay.Table.Adequate.{Adequate}

call_answers :
    (rt : Runtime) (c : Call) (k : ApiKind) (s s' : Plugin) (call : ApiCall)
    → expected c ≡ some k
    → expect_record rt k s ≡ ok call s'
    → Adequate c call
    → s'.brk ≢ 0
    → Answers s' call.return_value (call_plugin rt c s)
unfolding call_plugin expected new_int write_at new_chars set_mem_context set_kernel_program
    pi_platforms_get pi_platform_get_info pi_devices_get pi_device_get_info pi_device_retain
    pi_device_release pi_context_create pi_context_get_info pi_context_release pi_context_retain
    pi_queue_create pi_queue_get_info pi_queue_retain pi_queue_release pi_queue_finish
    pi_mem_buffer_create pi_mem_get_info pi_mem_image_get_info pi_mem_retain
    pi_ext_device_select_binary pi_program_create_with_binary pi_program_create pi_program_build
    pi_program_get_info pi_program_compile pi_program_link pi_program_retain
    pi_ext_program_set_specialization_constant pi_mem_release pi_program_release pi_kernel_create
    pi_kernel_set_exec_info pi_kernel_get_info pi_kernel_get_group_info
    pi_ext_kernel_set_arg_mem_obj pi_kernel_set_arg pi_kernel_retain pi_ext_kernel_set_arg_pointer
    pi_kernel_release pi_enqueue_kernel_launch pi_enqueue_mem_unmap pi_enqueue_events_wait
    pi_enqueue_events_wait_with_barrier pi_events_wait pi_event_release pi_enqueue_mem_buffer_map
    pi_enqueue_mem_buffer_read pi_ext_usm_enqueue_memcpy pi_ext_usm_host_alloc
    pi_ext_usm_device_alloc pi_ext_usm_free pi_ext_usm_enqueue_memset
call_answers rt device_retain k s s' call e n d b = ground (arith, n)
call_answers rt (platforms_get num_entries platforms num_platforms) k s s' call e n d b =
    let (t, e₁, same) = answered s' tt _ (write_count_answers call num_platforms s' d) in
    let (u, e₂, same') = answered t tt _ (write_entries_answers num_entries platforms t) in
    ground (arith, n, e₁, e₂)
call_answers rt (platform_get_info v r) k s s' call e n (o, l) b =
    ground (arith, n, replay_get_info_answers call v r s' o l)
call_answers rt (devices_get num_entries devs num_devices) k s s' call e n d b =
    let (t, e₁, same) = answered s' tt _ (write_count_answers call num_devices s' d) in
    let (u, e₂, same') = answered t tt _ (write_entries_answers num_entries devs t) in
    ground (arith, n, e₁, e₂)
call_answers rt (device_get_info v r) k s s' call e n (o, l) b =
    ground (arith, n, replay_get_info_answers call v r s' o l)
call_answers rt (context_get_info v r) k s s' call e n (o, l) b =
    ground (arith, n, replay_get_info_answers call v r s' o l)
call_answers rt (queue_get_info v r) k s s' call e n (o, l) b =
    ground (arith, n, replay_get_info_answers call v r s' o l)
call_answers rt (mem_get_info mem param_name param_value param_value_size_ret) k s s' call e n d b =
    let (t, e₁, same) =
      answered s' tt _ (replay_get_info_answers call param_value param_value_size_ret s' d.0 d.1) in
    let (u, e₂, same') =
      answered t tt _
        (copy_context_answers (param_name == rt.cl_mem_context) mem param_value t (λ _. d.2)) in
    ground (arith, n, e₁, e₂)
call_answers rt (mem_image_get_info v r) k s s' call e n (o, l) b =
    ground (arith, n, replay_get_info_answers call v r s' o l)
call_answers rt (ext_device_select_binary selected_binary_ind) k s s' call e n d b =
    let ((out, rest, o, long), there) = d in ground (arith, n, o, u32_at_ok out s' long)
call_answers rt (program_get_info v r) k s s' call e n (o, l) b =
    ground (arith, n, replay_get_info_answers call v r s' o l)
call_answers rt (kernel_get_info kernel param_name param_value param_value_size_ret) k s s' call e n
      d b =
    let (t, e₁, same) =
      answered s' tt _ (replay_get_info_answers call param_value param_value_size_ret s' d.0 d.1) in
    let (u, e₂, same') = answered t tt _ (
      copy_program_answers (param_name == rt.pi_kernel_info_program && not (param_value == 0))
        kernel param_value t (λ h. ground arith)) in
    ground (arith, n, e₁, e₂)
call_answers rt (kernel_get_group_info v r) k s s' call e n (o, l) b =
    ground (arith, n, replay_get_info_answers call v r s' o l)
call_answers rt (enqueue_mem_buffer_map event ret_map) k s s' call e n d b =
    let ((name, rest, o), d₁, d₂) = d in
    let (file, e₁) = open_mem_file_ok name s' in
    ground (
      arith,
      n,
      o,
      e₁,
      write_at_answers s'.brk (read (read_size rt.junk file).0 (read_size rt.junk file).1).0
          (record s' { brk = s'.brk + (read_size rt.junk file).0 + 1 }) b,
    )
call_answers rt (enqueue_mem_buffer_read size ptr event) k s s' call e n d b =
    let ((name, rest, o), d₁, d₂) = d in
    let (t, e₁, same) = answered s' tt _ (copy_mem_file_answers rt name ptr size s' d₁) in
    ground (arith, n, o, e₁)
call_answers rt (ext_usm_enqueue_memcpy dst_ptr size event) k s s' call e n d b =
    let (t, e₁, same) =
      answered s' tt _ (copy_saved_answers rt call.mem_obj_outputs dst_ptr size s' d.0) in
    ground (arith, n, e₁)
call_answers rt _ k s s' call e n d b = ground (arith, n)

pub expect_record_meets :
    (rt : Runtime) (k : ApiKind) (s s' : Plugin) (call : ApiCall)
    → next_record rt s ≡ ok call s'
    → call.function_id ≡ rt.kind_id k
    → expect_record rt k s ≡ ok call s'
unfolding expect_record die_if_unexpected
expect_record_meets rt k s s' call e h = ground (arith, e, ==_refl (rt.kind_id k))

-- Whatever call the runtime makes, but `piTearDown`: if the next record is one of the function that
-- the call expects, holds the outputs that the call copies, the pointers that it always writes
-- through are there, and the heap does not begin at the null pointer, the call returns the recorded
-- value; it has read that record, and changed nothing else of the trace and the files.
pub call_plugin_returns :
    (rt : Runtime) (c : Call) (k : ApiKind) (s s' : Plugin) (call : ApiCall)
    → expected c ≡ some k
    → next_record rt s ≡ ok call s'
    → call.function_id ≡ rt.kind_id k
    → Adequate c call
    → s'.brk ≢ 0
    → (t : Plugin) × (call_plugin rt c s ≡ ok call.return_value t) × Same s' t
call_plugin_returns rt c k s s' call e n h d b =
    answered s' call.return_value (call_plugin rt c s)
      (call_answers rt c k s s' call e (expect_record_meets rt k s s' call n h) d b)
