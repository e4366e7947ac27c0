-- ===== src/Record/Dispatch.antt =====
-- record_handler.cpp `RecordHandler`: which handler takes which call, and the times around a call.
use dpcpp_trace.Prelude.{ℕ, ◌-◌, ◌%◌, ◌^◌, Option, List}
use dpcpp_trace.Replay.Memory.{Memory}
use dpcpp_trace.Record.Args.{Value}
use dpcpp_trace.Record.Recorder.{Environment, Recorder, Handled}
use dpcpp_trace.Record.Handlers.{
  basic_handler, handle_platforms_get, handle_devices_get, handle_get_info,
  handle_kernel_get_group_info,
}
use dpcpp_trace.Record.Memory.{
  handle_enqueue_mem_buffer_map, handle_enqueue_mem_buffer_read, handle_usm_enqueue_memcpy,
}

-- The information queries that have a handler of their own.
pub data InfoQuery : Type 0 where
  platform_info device_info context_info kernel_info : InfoQuery

-- A finished call as the arguments' reader unpacks it; `other` is a call of any other function.
-- `piextDeviceSelectBinary` is `handle_select_binary` of Record/Binaries.
pub data Finished : Type 0 where
  platforms_get : ℕ → ℕ → ℕ → Finished
  devices_get : ℕ → ℕ → ℕ → ℕ → ℕ → Finished
  enqueue_mem_buffer_map : ℕ → ℕ → ℕ → ℕ → ℕ → ℕ → ℕ → ℕ → ℕ → ℕ → Finished
  enqueue_mem_buffer_read : ℕ → ℕ → ℕ → ℕ → ℕ → ℕ → ℕ → ℕ → ℕ → Finished
  usm_enqueue_memcpy : ℕ → ℕ → ℕ → ℕ → ℕ → ℕ → ℕ → ℕ → Finished
  get_info : InfoQuery → ℕ → Value → ℕ → ℕ → ℕ → Finished
  kernel_get_group_info : ℕ → ℕ → Value → ℕ → ℕ → ℕ → Finished
  other : List Value → Finished

module _ (env : Environment) where
  -- The handlers that the constructor installs.
  unfoldable pub run_handler : Recorder → Memory → Option ℕ → Finished → Handled
  run_handler r m res (platforms_get n p c) = handle_platforms_get env r m res n p c
  run_handler r m res (devices_get p t n d c) = handle_devices_get env r m res p t n d c
  run_handler r m res (enqueue_mem_buffer_map q b bl fl o s n w e p) =
      handle_enqueue_mem_buffer_map env r m res q b bl fl o s n w e p
  run_handler r m res (enqueue_mem_buffer_read q b bl o s p n w e) =
      handle_enqueue_mem_buffer_read env r m res q b bl o s p n w e
  run_handler r m res (usm_enqueue_memcpy q bl d s n k w e) =
      handle_usm_enqueue_memcpy env r m res q bl d s n k w e
  run_handler r m res (get_info _ obj name size value ret_size) =
      handle_get_info env r m res obj name size value ret_size
  run_handler r m res (kernel_get_group_info k d name size value ret_size) =
      handle_kernel_get_group_info env r m res k d name size value ret_size
  run_handler r m res (other args) = basic_handler env r res args

  -- `handle`
  unfoldable pub handle : Recorder → ℕ → ℕ → Memory → Option ℕ → Finished → Handled
  handle r event_id func_id m res call =
      run_handler (record r { last_event_id = event_id; last_function_id = func_id }) m res call

-- Microseconds since the start, as the caller reads them off the clock.
unfoldable pub timestamp_begin : Recorder → ℕ → ℕ → Recorder
timestamp_begin r start now = record r { timestamp_begin = (now - start) % 2 ^ 64 }

unfoldable pub timestamp_end : Recorder → ℕ → ℕ → Recorder
timestamp_end r start now = record r { timestamp_end = (now - start) % 2 ^ 64 }
