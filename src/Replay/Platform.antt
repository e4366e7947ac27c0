-- ===== src/Replay/Platform.antt =====
-- Platforms, devices, contexts and queues. Handles and pointers are addresses; arguments that the
-- source leaves alone are left out.
use dpcpp_trace.Prelude.{
  ℕ, zero, suc, ◌+◌, true, false, not, ◌&&◌, ltb, ◌==◌, if◌then◌else◌, le_bytes,
}
use dpcpp_trace.Replay.Plugin.{
  M, ◌>>=◌, ◌>>◌, done, Runtime, expect_record, new_int, write_at, first, u32_at, ApiKind,
}
use dpcpp_trace.Trace.Api.{ApiCall}

-- `replayGetInfo`: the first output goes to the value, or to the size if there is no value.
unfoldable pub replay_get_info : ApiCall → ℕ → ℕ → M (Unit {0})
replay_get_info call param_value ret_size = do
  out ← first call.small_outputs
  write_at (if param_value == 0 then ret_size else param_value) out

-- The loop over `platforms` or `devs`: a new handle in each of the eight-byte elements.
unfoldable pub fill_handles : ℕ → ℕ → M (Unit {0})
fill_handles zero p = done tt
fill_handles (suc n) p = do handle ← new_int; write_at p (le_bytes 8 handle); fill_handles n (p + 8)

-- `if (counter != nullptr)`: the recorded count is copied.
unfoldable pub copy_count : ApiCall → ℕ → M (Unit {0})
copy_count call p = do out ← first call.small_outputs; n ← u32_at out; write_at p (le_bytes 4 n)

unfoldable pub write_count : ApiCall → ℕ → M (Unit {0})
write_count call p = elim (p == 0) [ true ↦ done tt | false ↦ copy_count call p ]

-- `if (numEntries > 0 && array != nullptr)`
unfoldable pub write_entries : ℕ → ℕ → M (Unit {0})
write_entries num_entries p = elim (ltb 0 num_entries && not (p == 0)) [
  | true ↦ fill_handles num_entries p
  | false ↦ done tt
]

module _ (rt : Runtime) where
  unfoldable pub pi_platforms_get : ℕ → ℕ → ℕ → M ℕ
  pi_platforms_get num_entries platforms num_platforms = do
    call ← expect_record rt ApiKind.platforms_get
    write_count call num_platforms
    write_entries num_entries platforms
    done call.return_value

  unfoldable pub pi_platform_get_info : ℕ → ℕ → M ℕ
  pi_platform_get_info param_value param_value_size_ret = do
    call ← expect_record rt ApiKind.platform_get_info
    replay_get_info call param_value param_value_size_ret
    done call.return_value

  unfoldable pub pi_devices_get : ℕ → ℕ → ℕ → M ℕ
  pi_devices_get num_entries devs num_devices = do
    call ← expect_record rt ApiKind.devices_get
    write_count call num_devices
    write_entries num_entries devs
    done call.return_value

  unfoldable pub pi_device_get_info : ℕ → ℕ → M ℕ
  pi_device_get_info param_value param_value_size_ret = do
    call ← expect_record rt ApiKind.device_get_info
    replay_get_info call param_value param_value_size_ret
    done call.return_value

  unfoldable pub pi_device_retain : M ℕ
  pi_device_retain = do call ← expect_record rt ApiKind.device_retain; done call.return_value

  unfoldable pub pi_device_release : M ℕ
  pi_device_release = do call ← expect_record rt ApiKind.device_release; done call.return_value

  unfoldable pub pi_context_create : ℕ → M ℕ
  pi_context_create ret_context = do
    call ← expect_record rt ApiKind.context_create
    handle ← new_int
    write_at ret_context (le_bytes 8 handle)
    done call.return_value

  unfoldable pub pi_context_get_info : ℕ → ℕ → M ℕ
  pi_context_get_info param_value param_value_size_ret = do
    call ← expect_record rt ApiKind.context_get_info
    replay_get_info call param_value param_value_size_ret
    done call.return_value

  unfoldable pub pi_context_release : M ℕ
  pi_context_release = do call ← expect_record rt ApiKind.context_release; done call.return_value

  unfoldable pub pi_context_retain : M ℕ
  pi_context_retain = do call ← expect_record rt ApiKind.context_retain; done call.return_value

  unfoldable pub pi_queue_create : ℕ → M ℕ
  pi_queue_create queue = do
    call ← expect_record rt ApiKind.queue_create
    handle ← new_int
    write_at queue (le_bytes 8 handle)
    done call.return_value

  unfoldable pub pi_queue_get_info : ℕ → ℕ → M ℕ
  pi_queue_get_info param_value param_value_size_ret = do
    call ← expect_record rt ApiKind.queue_get_info
    replay_get_info call param_value param_value_size_ret
    done call.return_value

  unfoldable pub pi_queue_retain : M ℕ
  pi_queue_retain = do call ← expect_record rt ApiKind.queue_retain; done call.return_value

  unfoldable pub pi_queue_release : M ℕ
  pi_queue_release = do call ← expect_record rt ApiKind.queue_release; done call.return_value

  unfoldable pub pi_queue_finish : M ℕ
  pi_queue_finish = do call ← expect_record rt ApiKind.queue_finish; done call.return_value
