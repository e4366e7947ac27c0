-- ===== src/Replay/Table/Adequate.antt =====
-- What a call needs in order to be answered: the pointers that it always writes through are there, and
-- the record holds the outputs that it copies.
use dpcpp_trace.Prelude.{ℕ, ◌≤◌, ◌≡◌, ◌≢◌, ◌⊎◌, List, ◌∷◌, Bytes, length}
use dpcpp_trace.Trace.Api.{ApiCall}
use dpcpp_trace.Replay.Table.{
  Call, platforms_get, platform_get_info, devices_get, device_get_info, context_create,
  context_get_info, queue_create, queue_get_info, mem_buffer_create, mem_get_info,
  mem_image_get_info, ext_device_select_binary, program_create_with_binary, program_create,
  program_get_info, kernel_create, kernel_get_info, kernel_get_group_info, enqueue_kernel_launch,
  enqueue_mem_unmap, enqueue_events_wait, enqueue_events_wait_with_barrier, enqueue_mem_buffer_map,
  enqueue_mem_buffer_read, ext_usm_enqueue_memcpy, ext_usm_host_alloc, ext_usm_device_alloc,
  ext_usm_enqueue_memset,
}

-- The first of the small outputs; of at least four bytes, for a number; the first of the memory objects.
abbrev pub HasOutput : ApiCall → Type 0
HasOutput call = (out : Bytes) × (rest : List Bytes) × (call.small_outputs ≡ out ∷ rest)

abbrev pub HasCount : ApiCall → Type 0
HasCount call =
    (out : Bytes) × (rest : List Bytes) × (call.small_outputs ≡ out ∷ rest) × (4 ≤ length out)

abbrev pub HasMemory : ApiCall → Type 0
HasMemory call = (name : Bytes) × (rest : List Bytes) × (call.mem_obj_outputs ≡ name ∷ rest)

-- One of the two destinations of an information query is there.
abbrev pub Lands : ℕ → ℕ → Type 0
Lands value size = (value ≢ 0) ⊎ (size ≢ 0)

abbrev pub Adequate : Call → ApiCall → Type 0
Adequate (platforms_get _ _ num_platforms) call = num_platforms ≢ 0 → HasCount call
Adequate (platform_get_info param_value param_value_size_ret) call =
    HasOutput call × Lands param_value param_value_size_ret
Adequate (devices_get _ _ num_devices) call = num_devices ≢ 0 → HasCount call
Adequate (device_get_info param_value param_value_size_ret) call =
    HasOutput call × Lands param_value param_value_size_ret
Adequate (context_create ret_context) _ = (ret_context ≢ 0)
Adequate (context_get_info param_value param_value_size_ret) call =
    HasOutput call × Lands param_value param_value_size_ret
Adequate (queue_create queue) _ = (queue ≢ 0)
Adequate (queue_get_info param_value param_value_size_ret) call =
    HasOutput call × Lands param_value param_value_size_ret
Adequate (mem_buffer_create _ ret_mem) _ = (ret_mem ≢ 0)
Adequate (mem_get_info _ _ param_value param_value_size_ret) call =
    HasOutput call × Lands param_value param_value_size_ret × (param_value ≢ 0)
Adequate (mem_image_get_info param_value param_value_size_ret) call =
    HasOutput call × Lands param_value param_value_size_ret
Adequate (ext_device_select_binary selected_binary_ind) call =
    HasCount call × (selected_binary_ind ≢ 0)
Adequate (program_create_with_binary ret_program) _ = (ret_program ≢ 0)
Adequate (program_create ret_program) _ = (ret_program ≢ 0)
Adequate (program_get_info param_value param_value_size_ret) call =
    HasOutput call × Lands param_value param_value_size_ret
Adequate (kernel_create _ ret_kernel) _ = (ret_kernel ≢ 0)
Adequate (kernel_get_info _ _ param_value param_value_size_ret) call =
    HasOutput call × Lands param_value param_value_size_ret
Adequate (kernel_get_group_info param_value param_value_size_ret) call =
    HasOutput call × Lands param_value param_value_size_ret
Adequate (enqueue_kernel_launch event) _ = (event ≢ 0)
Adequate (enqueue_mem_unmap event) _ = (event ≢ 0)
Adequate (enqueue_events_wait event) _ = (event ≢ 0)
Adequate (enqueue_events_wait_with_barrier event) _ = (event ≢ 0)
Adequate (enqueue_mem_buffer_map event ret_map) call = HasMemory call × (event ≢ 0) × (ret_map ≢ 0)
Adequate (enqueue_mem_buffer_read _ ptr event) call = HasMemory call × (ptr ≢ 0) × (event ≢ 0)
Adequate (ext_usm_enqueue_memcpy dst_ptr _ event) _ = (dst_ptr ≢ 0) × (event ≢ 0)
Adequate (ext_usm_host_alloc result_ptr _) _ = (result_ptr ≢ 0)
Adequate (ext_usm_device_alloc result_ptr _) _ = (result_ptr ≢ 0)
Adequate (ext_usm_enqueue_memset event) _ = (event ≢ 0)
Adequate _ _ = Unit {0}
