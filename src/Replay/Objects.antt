-- ===== src/Replay/Objects.antt =====
-- Memory objects, binaries and programs.
use dpcpp_trace.Prelude.{ℕ, Bool, true, false, List, [], ◌∷◌, ◌==◌, if◌then◌else◌, le_bytes}
use dpcpp_trace.Replay.Plugin.{
  M, ◌>>=◌, ◌>>◌, done, Runtime, ok, expect_record, new_int, write_at, first, u32_at, ApiKind,
}
use dpcpp_trace.Replay.Platform.{replay_get_info}

-- `map[key]`: the value, or 0 behind a new entry for a key that is missing.
unfoldable pub subscript : ℕ → List (ℕ × ℕ) → ℕ × List (ℕ × ℕ)
subscript key [] = (0, (key, 0) ∷ [])
subscript key ((k, v) ∷ m) =
    if k == key then (v, (k, v) ∷ m) else (let (w, m') = subscript key m in (w, (k, v) ∷ m'))

-- `map[key] = value`
unfoldable pub assign : ℕ → ℕ → List (ℕ × ℕ) → List (ℕ × ℕ)
assign key value [] = (key, value) ∷ []
assign key value ((k, v) ∷ m) = if k == key then (k, value) ∷ m else (k, v) ∷ assign key value m

-- `GMemContextMap[mem] = context`, and reading it.
unfoldable pub set_mem_context : ℕ → ℕ → M (Unit {0})
set_mem_context mem context s =
    ok tt (record s { mem_contexts = assign mem context s.mem_contexts })

unfoldable pub mem_context : ℕ → M ℕ
mem_context mem s =
    let (context, m) = subscript mem s.mem_contexts in ok context (record s { mem_contexts = m })

-- What stands under `if (param_name == CL_MEM_CONTEXT)`.
unfoldable pub copy_context : Bool → ℕ → ℕ → M (Unit {0})
copy_context false mem p = done tt
copy_context true mem p = do context ← mem_context mem; write_at p (le_bytes 8 context)

module _ (rt : Runtime) where
  unfoldable pub pi_mem_buffer_create : ℕ → ℕ → M ℕ
  pi_mem_buffer_create context ret_mem = do
    call ← expect_record rt ApiKind.mem_buffer_create
    handle ← new_int
    write_at ret_mem (le_bytes 8 handle)
    set_mem_context handle context
    done call.return_value

  unfoldable pub pi_mem_get_info : ℕ → ℕ → ℕ → ℕ → M ℕ
  pi_mem_get_info mem param_name param_value param_value_size_ret = do
    call ← expect_record rt ApiKind.mem_get_info
    replay_get_info call param_value param_value_size_ret
    copy_context (param_name == rt.cl_mem_context) mem param_value
    done call.return_value

  unfoldable pub pi_mem_image_get_info : ℕ → ℕ → M ℕ
  pi_mem_image_get_info param_value param_value_size_ret = do
    call ← expect_record rt ApiKind.mem_image_get_info
    replay_get_info call param_value param_value_size_ret
    done call.return_value

  -- The record that is expected here is one of `piMemImageGetInfo`.
  unfoldable pub pi_mem_retain : M ℕ
  pi_mem_retain = do call ← expect_record rt ApiKind.mem_image_get_info; done call.return_value

  unfoldable pub pi_ext_device_select_binary : ℕ → M ℕ
  pi_ext_device_select_binary selected_binary_ind = do
    call ← expect_record rt ApiKind.device_select_binary
    out ← first call.small_outputs
    index ← u32_at out
    write_at selected_binary_ind (le_bytes 4 index)
    done call.return_value

  unfoldable pub pi_program_create_with_binary : ℕ → M ℕ
  pi_program_create_with_binary ret_program = do
    call ← expect_record rt ApiKind.program_create_with_binary
    handle ← new_int
    write_at ret_program (le_bytes 8 handle)
    done call.return_value

  unfoldable pub pi_program_create : ℕ → M ℕ
  pi_program_create ret_program = do
    call ← expect_record rt ApiKind.program_create
    handle ← new_int
    write_at ret_program (le_bytes 8 handle)
    done call.return_value

  unfoldable pub pi_program_build : M ℕ
  pi_program_build = do call ← expect_record rt ApiKind.program_build; done call.return_value

  unfoldable pub pi_program_get_info : ℕ → ℕ → M ℕ
  pi_program_get_info param_value param_value_size_ret = do
    call ← expect_record rt ApiKind.program_get_info
    replay_get_info call param_value param_value_size_ret
    done call.return_value

  unfoldable pub pi_program_compile : M ℕ
  pi_program_compile = do call ← expect_record rt ApiKind.program_compile; done call.return_value

  unfoldable pub pi_program_link : M ℕ
  pi_program_link = do call ← expect_record rt ApiKind.program_link; done call.return_value

  unfoldable pub pi_program_retain : M ℕ
  pi_program_retain = do call ← expect_record rt ApiKind.program_retain; done call.return_value

  unfoldable pub pi_ext_program_set_specialization_constant : M ℕ
  pi_ext_program_set_specialization_constant = do
    call ← expect_record rt ApiKind.program_set_specialization_constant
    done call.return_value

  unfoldable pub pi_mem_release : M ℕ
  pi_mem_release = do call ← expect_record rt ApiKind.mem_release; done call.return_value

  unfoldable pub pi_program_release : M ℕ
  pi_program_release = do call ← expect_record rt ApiKind.program_release; done call.return_value
