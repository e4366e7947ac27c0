-- ===== src/Replay/Table/Refuses.antt =====
-- A call that meets the record of another function leaves the process.
use dpcpp_trace.Prelude.{ℕ, ◌≡◌, ◌≢◌, some, arith}
use dpcpp_trace.Trace.Api.{ApiCall}
use dpcpp_trace.Replay.Plugin.{
  Plugin, ok, exited, Runtime, ApiKind, expect_record, next_record, die_if_unexpected,
}
use dpcpp_trace.Replay.Platform.{
  pi_platforms_get, pi_platform_get_info, pi_devices_get, pi_device_get_info, pi_device_retain,
  pi_device_release, pi_context_create, pi_context_get_info, pi_context_release, pi_context_retain,
  pi_queue_create, pi_queue_get_info, pi_queue_retain, pi_queue_release, pi_queue_finish,
}
use dpcpp_trace.Replay.Objects.{
  pi_mem_buffer_create, pi_mem_get_info, pi_mem_image_get_info, pi_mem_retain,
  pi_ext_device_select_binary, pi_program_create_with_binary, pi_program_create, pi_program_build,
  pi_program_get_info, pi_program_compile, pi_program_link, pi_program_retain,
  pi_ext_program_set_specialization_constant, pi_mem_release, pi_program_release,
}
use dpcpp_trace.Replay.Kernels.{
  pi_kernel_create, pi_kernel_set_exec_info, pi_kernel_get_info, pi_kernel_get_group_info,
  pi_ext_kernel_set_arg_mem_obj, pi_kernel_set_arg, pi_kernel_retain, pi_ext_kernel_set_arg_pointer,
  pi_kernel_release,
}
use dpcpp_trace.Replay.Enqueue.{
  pi_enqueue_kernel_launch, pi_enqueue_mem_unmap, pi_enqueue_events_wait,
  pi_enqueue_events_wait_with_barrier, pi_events_wait, pi_event_release, pi_enqueue_mem_buffer_map,
  pi_enqueue_mem_buffer_read, pi_ext_usm_enqueue_memcpy, pi_ext_usm_host_alloc,
  pi_ext_usm_device_alloc, pi_ext_usm_free, pi_ext_usm_enqueue_memset, pi_tear_down,
}
use dpcpp_trace.Replay.Table.{Call, device_retain, call_plugin, expected}

die_if_unexpected_dies :
    (rt : Runtime) (k : ApiKind) (n : ℕ) (s : Plugin)
    → n ≢ rt.kind_id k
    → die_if_unexpected rt n k s ≡ exited
unfolding die_if_unexpected
die_if_unexpected_dies rt k n s d = ground arith

expect_record_refuses :
    (rt : Runtime) (k : ApiKind) (s s' : Plugin) (call : ApiCall)
    → next_record rt s ≡ ok call s'
    → call.function_id ≢ rt.kind_id k
    → expect_record rt k s ≡ exited
unfolding expect_record
expect_record_refuses rt k s s' call e d =
    ground (arith, e, die_if_unexpected_dies rt k call.function_id s' d)

-- Whatever call the runtime makes, but `piTearDown`: if the next record is one of another function
-- than the call expects, the process exits in the middle of the call, which gives no result.
pub call_plugin_refuses :
    (rt : Runtime) (c : Call) (k : ApiKind) (s s' : Plugin) (call : ApiCall)
    → expected c ≡ some k
    → next_record rt s ≡ ok call s'
    → call.function_id ≢ rt.kind_id k
    → call_plugin rt c s ≡ exited
unfolding call_plugin expected pi_platforms_get pi_platform_get_info pi_devices_get
    pi_device_get_info pi_device_retain pi_device_release pi_context_create pi_context_get_info
    pi_context_release pi_context_retain pi_queue_create pi_queue_get_info pi_queue_retain
    pi_queue_release pi_queue_finish pi_mem_buffer_create pi_mem_get_info pi_mem_image_get_info
    pi_mem_retain pi_ext_device_select_binary pi_program_create_with_binary pi_program_create
    pi_program_build pi_program_get_info pi_program_compile pi_program_link pi_program_retain
    pi_ext_program_set_specialization_constant pi_mem_release pi_program_release pi_kernel_create
    pi_kernel_set_exec_info pi_kernel_get_info pi_kernel_get_group_info
    pi_ext_kernel_set_arg_mem_obj pi_kernel_set_arg pi_kernel_retain pi_ext_kernel_set_arg_pointer
    pi_kernel_release pi_enqueue_kernel_launch pi_enqueue_mem_unmap pi_enqueue_events_wait
    pi_enqueue_events_wait_with_barrier pi_events_wait pi_event_release pi_enqueue_mem_buffer_map
    pi_enqueue_mem_buffer_read pi_ext_usm_enqueue_memcpy pi_ext_usm_host_alloc
    pi_ext_usm_device_alloc pi_ext_usm_free pi_ext_usm_enqueue_memset pi_tear_down
call_plugin_refuses rt device_retain k s s' call e n d =
    ground (arith, expect_record_refuses rt k s s' call n d)
call_plugin_refuses rt _ k s s' call e n d =
    ground (arith, expect_record_refuses rt k s s' call n d)
