-- ===== src/Record/Handlers.antt =====
-- record_handler.cpp: the handlers whose calls give small outputs, and the one for all other calls.
use dpcpp_trace.Prelude.{ℕ, Option, List, [], ◌∷◌, ◌++◌, ◌==◌, if◌then◌else◌}
use dpcpp_trace.Trace.Api.{ApiCall}
use dpcpp_trace.Replay.Memory.{Memory, load}
use dpcpp_trace.Record.Args.{Value, pointer, unsigned}
use dpcpp_trace.Record.Recorder.{
  Environment, Recorder, Handled, begin_call, finish_call, with_result,
}

-- `if (p != nullptr) call.add_small_outputs(p, size)`
unfoldable pub add_output : Memory → ℕ → ℕ → ApiCall → ApiCall
add_output m p size call =
    if p == 0
    then call
    else record call { small_outputs = call.small_outputs ++ load size p m ∷ [] }

module _ (env : Environment) where
  unfoldable pub basic_handler : Recorder → Option ℕ → List Value → Handled
  basic_handler r res args = with_result res λ result. finish_call env r (begin_call r result args)

  unfoldable pub handle_platforms_get : Recorder → Memory → Option ℕ → ℕ → ℕ → ℕ → Handled
  handle_platforms_get r m res num_entries platforms num_platforms = with_result res λ result.
      finish_call env r (
        add_output m num_platforms 4 (
          begin_call r result
            (unsigned 4 num_entries ∷ pointer platforms ∷ pointer num_platforms ∷ [])))

  unfoldable pub handle_devices_get : Recorder → Memory → Option ℕ → ℕ → ℕ → ℕ → ℕ → ℕ → Handled
  handle_devices_get r m res platform type num_entries devs num_devices = with_result res λ result.
      finish_call env r (
        add_output m num_devices 4 (
          begin_call r result (
            pointer platform
            ∷ unsigned 8 type
            ∷ unsigned 4 num_entries
            ∷ pointer devs
            ∷ pointer num_devices
            ∷ [])))

  -- `T1 obj, T2 param_name`: a handle and an enumerator.
  unfoldable pub handle_get_info : Recorder → Memory → Option ℕ → ℕ → Value → ℕ → ℕ → ℕ → Handled
  handle_get_info r m res obj param_name size value ret_size = with_result res λ result.
      finish_call env r (
        add_output m ret_size 8 (
          add_output m value size (
            begin_call r result (
              pointer obj ∷ param_name ∷ unsigned 8 size ∷ pointer value ∷ pointer ret_size ∷ []))))

  unfoldable pub handle_kernel_get_group_info :
      Recorder → Memory → Option ℕ → ℕ → ℕ → Value → ℕ → ℕ → ℕ → Handled
  handle_kernel_get_group_info r m res kernel device param_name size value ret_size =
      with_result res λ result. finish_call env r (
        add_output m ret_size 8 (
          add_output m value size (
            begin_call r result (
              pointer kernel
              ∷ pointer device
              ∷ param_name
              ∷ unsigned 8 size
              ∷ pointer value
              ∷ pointer ret_size
              ∷ []))))
