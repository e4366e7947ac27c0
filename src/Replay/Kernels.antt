-- ===== src/Replay/Kernels.antt =====
-- Kernels.
use dpcpp_trace.Prelude.{ℕ, Bool, true, false, not, ◌&&◌, ◌==◌, le_bytes}
use dpcpp_trace.Replay.Plugin.{
  M, ◌>>=◌, ◌>>◌, done, Runtime, ok, expect_record, new_int, write_at, ApiKind,
}
use dpcpp_trace.Replay.Platform.{replay_get_info}
use dpcpp_trace.Replay.Objects.{assign, subscript}

-- `GKernelProgramMap[kernel] = program`, and reading it.
unfoldable pub set_kernel_program : ℕ → ℕ → M (Unit {0})
set_kernel_program kernel program s =
    ok tt (record s { kernel_programs = assign kernel program s.kernel_programs })

unfoldable pub kernel_program : ℕ → M ℕ
kernel_program kernel s =
    let (program, m) = subscript kernel s.kernel_programs in
    ok program (record s { kernel_programs = m })

-- What stands under `if (param_name == PI_KERNEL_INFO_PROGRAM && param_value)`.
unfoldable pub copy_program : Bool → ℕ → ℕ → M (Unit {0})
copy_program false kernel p = done tt
copy_program true kernel p = do program ← kernel_program kernel; write_at p (le_bytes 8 program)

module _ (rt : Runtime) where
  unfoldable pub pi_kernel_create : ℕ → ℕ → M ℕ
  pi_kernel_create program ret_kernel = do
    call ← expect_record rt ApiKind.kernel_create
    handle ← new_int
    write_at ret_kernel (le_bytes 8 handle)
    set_kernel_program handle program
    done call.return_value

  unfoldable pub pi_kernel_set_exec_info : M ℕ
  pi_kernel_set_exec_info = do
    call ← expect_record rt ApiKind.kernel_set_exec_info
    done call.return_value

  unfoldable pub pi_kernel_get_info : ℕ → ℕ → ℕ → ℕ → M ℕ
  pi_kernel_get_info kernel param_name param_value param_value_size_ret = do
    call ← expect_record rt ApiKind.kernel_get_info
    replay_get_info call param_value param_value_size_ret
    copy_program (param_name == rt.pi_kernel_info_program && not (param_value == 0)) kernel
        param_value
    done call.return_value

  unfoldable pub pi_kernel_get_group_info : ℕ → ℕ → M ℕ
  pi_kernel_get_group_info param_value param_value_size_ret = do
    call ← expect_record rt ApiKind.kernel_get_group_info
    replay_get_info call param_value param_value_size_ret
    done call.return_value

  unfoldable pub pi_ext_kernel_set_arg_mem_obj : M ℕ
  pi_ext_kernel_set_arg_mem_obj = do
    call ← expect_record rt ApiKind.kernel_set_arg_mem_obj
    done call.return_value

  unfoldable pub pi_kernel_set_arg : M ℕ
  pi_kernel_set_arg = do call ← expect_record rt ApiKind.kernel_set_arg; done call.return_value

  unfoldable pub pi_kernel_retain : M ℕ
  pi_kernel_retain = do call ← expect_record rt ApiKind.kernel_retain; done call.return_value

  unfoldable pub pi_ext_kernel_set_arg_pointer : M ℕ
  pi_ext_kernel_set_arg_pointer = do
    call ← expect_record rt ApiKind.kernel_set_arg_pointer
    done call.return_value

  unfoldable pub pi_kernel_release : M ℕ
  pi_kernel_release = do call ← expect_record rt ApiKind.kernel_release; done call.return_value
