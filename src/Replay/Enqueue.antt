-- ===== src/Replay/Enqueue.antt =====
-- Commands on queues, events, and unified shared memory.
use dpcpp_trace.Prelude.{
  ℕ, none, some, List, [], ◌∷◌, ◌++◌, Bytes, length, drop, le_bytes, le_value,
}
use dpcpp_trace.Replay.Plugin.{
  M, ◌>>=◌, ◌>>◌, done, Runtime, ok, expect_record, new_int, new_chars, write_at, first, ApiKind,
}
use dpcpp_trace.Trace.Stream.{Stream, opened, unopened, read}

-- An input stream on a memory object's file under the trace's `buffers`; the file that `record_handler.cpp`
-- writes there is an eight-byte size and that many bytes.
unfoldable pub open_mem_file : Bytes → M Stream
open_mem_file name s = elim (s.mem_file name) [ none ↦ ok unopened s | some bs ↦ ok (opened bs) s ]

-- Reading the `size_t` at the head, on top of what the variable held.
unfoldable pub read_size : ℕ → Stream → ℕ × Stream
read_size junk s =
    let (got, s') = read 8 s in (le_value (got ++ drop (length got) (le_bytes 8 junk)), s')

module _ (rt : Runtime) where
  -- A memory object copied to `p`; the stored size is read and not looked at.
  unfoldable pub copy_mem_file : Bytes → ℕ → ℕ → M (Unit {0})
  copy_mem_file name p size = do
    file ← open_mem_file name
    let got = (read size (read_size rt.junk file).1).0
    write_at p got

  -- `if (record.mem_obj_outputs().size() > 0)`
  unfoldable pub copy_saved : List Bytes → ℕ → ℕ → M (Unit {0})
  copy_saved [] p size = done tt
  copy_saved (name ∷ _) p size = copy_mem_file name p size

  unfoldable pub pi_enqueue_kernel_launch : ℕ → M ℕ
  pi_enqueue_kernel_launch event = do
    call ← expect_record rt ApiKind.enqueue_kernel_launch
    handle ← new_int
    write_at event (le_bytes 8 handle)
    done call.return_value

  -- `delete[]` gives the block back, and the heap does not use it again.
  unfoldable pub pi_enqueue_mem_unmap : ℕ → M ℕ
  pi_enqueue_mem_unmap event = do
    call ← expect_record rt ApiKind.enqueue_mem_unmap
    handle ← new_int
    write_at event (le_bytes 8 handle)
    done call.return_value

  unfoldable pub pi_enqueue_events_wait : ℕ → M ℕ
  pi_enqueue_events_wait event = do
    call ← expect_record rt ApiKind.enqueue_events_wait
    handle ← new_int
    write_at event (le_bytes 8 handle)
    done call.return_value

  unfoldable pub pi_enqueue_events_wait_with_barrier : ℕ → M ℕ
  pi_enqueue_events_wait_with_barrier event = do
    call ← expect_record rt ApiKind.enqueue_events_wait_with_barrier
    handle ← new_int
    write_at event (le_bytes 8 handle)
    done call.return_value

  unfoldable pub pi_events_wait : M ℕ
  pi_events_wait = do call ← expect_record rt ApiKind.events_wait; done call.return_value

  unfoldable pub pi_event_release : M ℕ
  pi_event_release = do call ← expect_record rt ApiKind.event_release; done call.return_value

  unfoldable pub pi_enqueue_mem_buffer_map : ℕ → ℕ → M ℕ
  pi_enqueue_mem_buffer_map event ret_map = do
    call ← expect_record rt ApiKind.enqueue_mem_buffer_map
    name ← first call.mem_obj_outputs
    file ← open_mem_file name
    let size = (read_size rt.junk file).0
    let got = (read size (read_size rt.junk file).1).0
    memory ← new_chars size
    write_at memory got
    write_at ret_map (le_bytes 8 memory)
    handle ← new_int
    write_at event (le_bytes 8 handle)
    done call.return_value

  unfoldable pub pi_enqueue_mem_buffer_read : ℕ → ℕ → ℕ → M ℕ
  pi_enqueue_mem_buffer_read size ptr event = do
    call ← expect_record rt ApiKind.enqueue_mem_buffer_read
    name ← first call.mem_obj_outputs
    copy_mem_file name ptr size
    handle ← new_int
    write_at event (le_bytes 8 handle)
    done call.return_value

  unfoldable pub pi_ext_usm_enqueue_memcpy : ℕ → ℕ → ℕ → M ℕ
  pi_ext_usm_enqueue_memcpy dst_ptr size event = do
    call ← expect_record rt ApiKind.usm_enqueue_memcpy
    copy_saved call.mem_obj_outputs dst_ptr size
    handle ← new_int
    write_at event (le_bytes 8 handle)
    done call.return_value

  unfoldable pub pi_ext_usm_host_alloc : ℕ → ℕ → M ℕ
  pi_ext_usm_host_alloc result_ptr size = do
    call ← expect_record rt ApiKind.usm_host_alloc
    block ← new_chars size
    write_at result_ptr (le_bytes 8 block)
    done call.return_value

  unfoldable pub pi_ext_usm_device_alloc : ℕ → ℕ → M ℕ
  pi_ext_usm_device_alloc result_ptr size = do
    call ← expect_record rt ApiKind.usm_device_alloc
    block ← new_chars size
    write_at result_ptr (le_bytes 8 block)
    done call.return_value

  unfoldable pub pi_ext_usm_free : M ℕ
  pi_ext_usm_free = do call ← expect_record rt ApiKind.usm_free; done call.return_value

  unfoldable pub pi_ext_usm_enqueue_memset : ℕ → M ℕ
  pi_ext_usm_enqueue_memset event = do
    call ← expect_record rt ApiKind.usm_enqueue_memset
    handle ← new_int
    write_at event (le_bytes 8 handle)
    done call.return_value

-- `piTearDown` reads no record. `PI_SUCCESS` is 0.
unfoldable pub pi_tear_down : M ℕ
pi_tear_down = done 0
