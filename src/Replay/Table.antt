-- ===== src/Replay/Table.antt =====
-- `piPluginInit`: the table of functions, as a type of calls and the function that each one runs.
pub mod Adequate
pub mod Refuses
pub mod Answers
pub mod Returns
pub mod Session
use dpcpp_trace.Prelude.{ℕ, Option, none, some}
use dpcpp_trace.Replay.Plugin.{M, Runtime, ApiKind}
use dpcpp_trace.Replay.Platform.{
  pi_platforms_get, pi_platform_get_info, pi_devices_get, pi_device_get_info, pi_device_retain,
  pi_device_release, pi_context_create, pi_context_get_info, pi_context_release, pi_context_retain,
  pi_queue_create, pi_queue_get_info, pi_queue_retain, pi_queue_release, pi_queue_finish,
}
use dpcpp_trace.Replay.Objects.{
  pi_mem_buffer_create, pi_mem_get_info, pi_mem_image_get_info, pi_mem_retain,
  pi_ext_device_select_binary, pi_program_create_with_binary, pi_program_create, pi_program_build,
  pi_program_get_info, pi_program_compile, pi_program_link, pi_program_retain,
  pi_ext_program_set_specialization_constant, pi_mem_release, pi_program_release,
}
use dpcpp_trace.Replay.Kernels.{
  pi_kernel_create, pi_kernel_set_exec_info, pi_kernel_get_info, pi_kernel_get_group_info,
  pi_ext_kernel_set_arg_mem_obj, pi_kernel_set_arg, pi_kernel_retain, pi_ext_kernel_set_arg_pointer,
  pi_kernel_release,
}
use dpcpp_trace.Replay.Enqueue.{
  pi_enqueue_kernel_launch, pi_enqueue_mem_unmap, pi_enqueue_events_wait,
  pi_enqueue_events_wait_with_barrier, pi_events_wait, pi_event_release, pi_enqueue_mem_buffer_map,
  pi_enqueue_mem_buffer_read, pi_ext_usm_enqueue_memcpy, pi_ext_usm_host_alloc,
  pi_ext_usm_device_alloc, pi_ext_usm_free, pi_ext_usm_enqueue_memset, pi_tear_down,
}

-- A call of the runtime, with the arguments that the plugin looks at.
pub data Call : Type 0 where
  device_retain : Call
  device_release : Call
  context_release : Call
  context_retain : Call
  queue_retain : Call
  queue_release : Call
  queue_finish : Call
  mem_retain : Call
  program_build : Call
  program_compile : Call
  program_link : Call
  program_retain : Call
  ext_program_set_specialization_constant : Call
  mem_release : Call
  program_release : Call
  kernel_set_exec_info : Call
  ext_kernel_set_arg_mem_obj : Call
  kernel_set_arg : Call
  kernel_retain : Call
  ext_kernel_set_arg_pointer : Call
  kernel_release : Call
  events_wait : Call
  event_release : Call
  ext_usm_free : Call
  tear_down : Call
  context_create : ℕ → Call
  queue_create : ℕ → Call
  ext_device_select_binary : ℕ → Call
  program_create_with_binary : ℕ → Call
  program_create : ℕ → Call
  enqueue_kernel_launch : ℕ → Call
  enqueue_mem_unmap : ℕ → Call
  enqueue_events_wait : ℕ → Call
  enqueue_events_wait_with_barrier : ℕ → Call
  ext_usm_enqueue_memset : ℕ → Call
  platform_get_info : ℕ → ℕ → Call
  device_get_info : ℕ → ℕ → Call
  context_get_info : ℕ → ℕ → Call
  queue_get_info : ℕ → ℕ → Call
  mem_buffer_create : ℕ → ℕ → Call
  mem_image_get_info : ℕ → ℕ → Call
  program_get_info : ℕ → ℕ → Call
  kernel_create : ℕ → ℕ → Call
  kernel_get_group_info : ℕ → ℕ → Call
  enqueue_mem_buffer_map : ℕ → ℕ → Call
  ext_usm_host_alloc : ℕ → ℕ → Call
  ext_usm_device_alloc : ℕ → ℕ → Call
  platforms_get : ℕ → ℕ → ℕ → Call
  devices_get : ℕ → ℕ → ℕ → Call
  enqueue_mem_buffer_read : ℕ → ℕ → ℕ → Call
  ext_usm_enqueue_memcpy : ℕ → ℕ → ℕ → Call
  mem_get_info : ℕ → ℕ → ℕ → ℕ → Call
  kernel_get_info : ℕ → ℕ → ℕ → ℕ → Call

unfoldable pub call_plugin : Runtime → Call → M ℕ
call_plugin rt (platforms_get num_entries platforms num_platforms) =
    pi_platforms_get rt num_entries platforms num_platforms
call_plugin rt (platform_get_info param_value param_value_size_ret) =
    pi_platform_get_info rt param_value param_value_size_ret
call_plugin rt (devices_get num_entries devs num_devices) =
    pi_devices_get rt num_entries devs num_devices
call_plugin rt (device_get_info param_value param_value_size_ret) =
    pi_device_get_info rt param_value param_value_size_ret
call_plugin rt device_retain = pi_device_retain rt
call_plugin rt device_release = pi_device_release rt
call_plugin rt (context_create ret_context) = pi_context_create rt ret_context
call_plugin rt (context_get_info param_value param_value_size_ret) =
    pi_context_get_info rt param_value param_value_size_ret
call_plugin rt context_release = pi_context_release rt
call_plugin rt context_retain = pi_context_retain rt
call_plugin rt (queue_create queue) = pi_queue_create rt queue
call_plugin rt (queue_get_info param_value param_value_size_ret) =
    pi_queue_get_info rt param_value param_value_size_ret
call_plugin rt queue_retain = pi_queue_retain rt
call_plugin rt queue_release = pi_queue_release rt
call_plugin rt queue_finish = pi_queue_finish rt
call_plugin rt (mem_buffer_create context ret_mem) = pi_mem_buffer_create rt context ret_mem
call_plugin rt (mem_get_info mem param_name param_value param_value_size_ret) =
    pi_mem_get_info rt mem param_name param_value param_value_size_ret
call_plugin rt (mem_image_get_info param_value param_value_size_ret) =
    pi_mem_image_get_info rt param_value param_value_size_ret
call_plugin rt mem_retain = pi_mem_retain rt
call_plugin rt (ext_device_select_binary selected_binary_ind) =
    pi_ext_device_select_binary rt selected_binary_ind
call_plugin rt (program_create_with_binary ret_program) =
    pi_program_create_with_binary rt ret_program
call_plugin rt (program_create ret_program) = pi_program_create rt ret_program
call_plugin rt program_build = pi_program_build rt
call_plugin rt (program_get_info param_value param_value_size_ret) =
    pi_program_get_info rt param_value param_value_size_ret
call_plugin rt program_compile = pi_program_compile rt
call_plugin rt program_link = pi_program_link rt
call_plugin rt program_retain = pi_program_retain rt
call_plugin rt ext_program_set_specialization_constant =
    pi_ext_program_set_specialization_constant rt
call_plugin rt mem_release = pi_mem_release rt
call_plugin rt program_release = pi_program_release rt
call_plugin rt (kernel_create program ret_kernel) = pi_kernel_create rt program ret_kernel
call_plugin rt kernel_set_exec_info = pi_kernel_set_exec_info rt
call_plugin rt (kernel_get_info kernel param_name param_value param_value_size_ret) =
    pi_kernel_get_info rt kernel param_name param_value param_value_size_ret
call_plugin rt (kernel_get_group_info param_value param_value_size_ret) =
    pi_kernel_get_group_info rt param_value param_value_size_ret
call_plugin rt ext_kernel_set_arg_mem_obj = pi_ext_kernel_set_arg_mem_obj rt
call_plugin rt kernel_set_arg = pi_kernel_set_arg rt
call_plugin rt kernel_retain = pi_kernel_retain rt
call_plugin rt ext_kernel_set_arg_pointer = pi_ext_kernel_set_arg_pointer rt
call_plugin rt kernel_release = pi_kernel_release rt
call_plugin rt (enqueue_kernel_launch event) = pi_enqueue_kernel_launch rt event
call_plugin rt (enqueue_mem_unmap event) = pi_enqueue_mem_unmap rt event
call_plugin rt (enqueue_events_wait event) = pi_enqueue_events_wait rt event
call_plugin rt (enqueue_events_wait_with_barrier event) =
    pi_enqueue_events_wait_with_barrier rt event
call_plugin rt events_wait = pi_events_wait rt
call_plugin rt event_release = pi_event_release rt
call_plugin rt (enqueue_mem_buffer_map event ret_map) = pi_enqueue_mem_buffer_map rt event ret_map
call_plugin rt (enqueue_mem_buffer_read size ptr event) =
    pi_enqueue_mem_buffer_read rt size ptr event
call_plugin rt (ext_usm_enqueue_memcpy dst_ptr size event) =
    pi_ext_usm_enqueue_memcpy rt dst_ptr size event
call_plugin rt (ext_usm_host_alloc result_ptr size) = pi_ext_usm_host_alloc rt result_ptr size
call_plugin rt (ext_usm_device_alloc result_ptr size) = pi_ext_usm_device_alloc rt result_ptr size
call_plugin rt ext_usm_free = pi_ext_usm_free rt
call_plugin rt (ext_usm_enqueue_memset event) = pi_ext_usm_enqueue_memset rt event
call_plugin rt tear_down = pi_tear_down

-- The function whose record a call accepts; `piTearDown` reads none.
unfoldable pub expected : Call → Option ApiKind
expected (platforms_get _ _ _) = some ApiKind.platforms_get
expected (platform_get_info _ _) = some ApiKind.platform_get_info
expected (devices_get _ _ _) = some ApiKind.devices_get
expected (device_get_info _ _) = some ApiKind.device_get_info
expected device_retain = some ApiKind.device_retain
expected device_release = some ApiKind.device_release
expected (context_create _) = some ApiKind.context_create
expected (context_get_info _ _) = some ApiKind.context_get_info
expected context_release = some ApiKind.context_release
expected context_retain = some ApiKind.context_retain
expected (queue_create _) = some ApiKind.queue_create
expected (queue_get_info _ _) = some ApiKind.queue_get_info
expected queue_retain = some ApiKind.queue_retain
expected queue_release = some ApiKind.queue_release
expected queue_finish = some ApiKind.queue_finish
expected (mem_buffer_create _ _) = some ApiKind.mem_buffer_create
expected (mem_get_info _ _ _ _) = some ApiKind.mem_get_info
expected (mem_image_get_info _ _) = some ApiKind.mem_image_get_info
expected mem_retain = some ApiKind.mem_image_get_info
expected (ext_device_select_binary _) = some ApiKind.device_select_binary
expected (program_create_with_binary _) = some ApiKind.program_create_with_binary
expected (program_create _) = some ApiKind.program_create
expected program_build = some ApiKind.program_build
expected (program_get_info _ _) = some ApiKind.program_get_info
expected program_compile = some ApiKind.program_compile
expected program_link = some ApiKind.program_link
expected program_retain = some ApiKind.program_retain
expected ext_program_set_specialization_constant = some ApiKind.program_set_specialization_constant
expected mem_release = some ApiKind.mem_release
expected program_release = some ApiKind.program_release
expected (kernel_create _ _) = some ApiKind.kernel_create
expected kernel_set_exec_info = some ApiKind.kernel_set_exec_info
expected (kernel_get_info _ _ _ _) = some ApiKind.kernel_get_info
expected (kernel_get_group_info _ _) = some ApiKind.kernel_get_group_info
expected ext_kernel_set_arg_mem_obj = some ApiKind.kernel_set_arg_mem_obj
expected kernel_set_arg = some ApiKind.kernel_set_arg
expected kernel_retain = some ApiKind.kernel_retain
expected ext_kernel_set_arg_pointer = some ApiKind.kernel_set_arg_pointer
expected kernel_release = some ApiKind.kernel_release
expected (enqueue_kernel_launch _) = some ApiKind.enqueue_kernel_launch
expected (enqueue_mem_unmap _) = some ApiKind.enqueue_mem_unmap
expected (enqueue_events_wait _) = some ApiKind.enqueue_events_wait
expected (enqueue_events_wait_with_barrier _) = some ApiKind.enqueue_events_wait_with_barrier
expected events_wait = some ApiKind.events_wait
expected event_release = some ApiKind.event_release
expected (enqueue_mem_buffer_map _ _) = some ApiKind.enqueue_mem_buffer_map
expected (enqueue_mem_buffer_read _ _ _) = some ApiKind.enqueue_mem_buffer_read
expected (ext_usm_enqueue_memcpy _ _ _) = some ApiKind.usm_enqueue_memcpy
expected (ext_usm_host_alloc _ _) = some ApiKind.usm_host_alloc
expected (ext_usm_device_alloc _ _) = some ApiKind.usm_device_alloc
expected ext_usm_free = some ApiKind.usm_free
expected (ext_usm_enqueue_memset _) = some ApiKind.usm_enqueue_memset
expected tear_down = none
