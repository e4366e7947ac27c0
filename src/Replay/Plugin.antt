-- ===== src/Replay/Plugin.antt =====
-- The plugin's state, its runs, and what every call does first: open the trace, read the next
-- record, and compare its function with the one that was called.
use dpcpp_trace.Prelude.{
  ℕ, ◌+◌, Bool, true, false, Option, none, some, List, [], ◌∷◌, ltb, ◌==◌, Bytes, length, take,
  le_bytes, le_value,
}
use dpcpp_trace.Trace.Api.{ApiCall, Codec}
use dpcpp_trace.Trace.Stream.{Stream, opened, unopened}
use dpcpp_trace.Trace.Frame.{read_frame}
use dpcpp_trace.Replay.Memory.{Memory, store}

-- The functions of `pi.def` that the plugin names.
pub data ApiKind : Type 0 where
  platforms_get platform_get_info : ApiKind
  devices_get device_get_info device_retain device_release device_select_binary : ApiKind
  context_create context_get_info context_release context_retain : ApiKind
  queue_create queue_get_info queue_retain queue_release queue_finish : ApiKind
  mem_buffer_create mem_get_info mem_image_get_info mem_retain mem_release : ApiKind
  program_create_with_binary program_create program_build program_get_info program_compile : ApiKind
  program_link program_retain program_release program_set_specialization_constant : ApiKind
  kernel_create kernel_set_exec_info kernel_get_info kernel_get_group_info : ApiKind
  kernel_set_arg_mem_obj kernel_set_arg kernel_retain kernel_release kernel_set_arg_pointer :
      ApiKind
  enqueue_kernel_launch enqueue_mem_unmap enqueue_events_wait : ApiKind
  enqueue_events_wait_with_barrier events_wait event_release : ApiKind
  enqueue_mem_buffer_map enqueue_mem_buffer_read usm_enqueue_memcpy : ApiKind
  usm_host_alloc usm_device_alloc usm_free usm_enqueue_memset : ApiKind

-- What the plugin takes from outside the repository: the generated reader of messages, the numbers
-- of the enumerators, and the value of a local variable that nothing has written.
pub record Runtime : Type 0 where
  pub codec : Codec ApiCall
  pub kind_id : ApiKind → ℕ
  pub cl_mem_context : ℕ
  pub pi_kernel_info_program : ℕ
  pub junk : ℕ

-- `GTrace` is `trace` and `is_open`; the files are the thread's trace file and those of the memory
-- objects; `brk` is where the heap's next block goes, since freed blocks are not used again.
pub record Plugin : Type 0 where
  pub trace_file : Option Bytes
  pub mem_file : Bytes → Option Bytes
  pub trace : Stream
  pub is_open : Bool
  pub kernel_programs : List (ℕ × ℕ)
  pub mem_contexts : List (ℕ × ℕ)
  pub memory : Memory
  pub brk : ℕ

-- A call returns, leaves the process by `exit(-1)`, or does something undefined.
pub data Outcome (A : Type 0) : Type 0 where
  ok : A → Plugin → Outcome A
  exited : Outcome A
  fault : Outcome A

abbrev pub M : Type 0 → Type 0
M A = Plugin → Outcome A

infixl 5 ◌>>=◌ ◌>>◌
abbrev pub ◌>>=◌ : {A B : Type 0} → M A → (A → M B) → M B
◌>>=◌ m f s = elim (m s) [ ok a s' ↦ f a s' | exited ↦ exited | fault ↦ fault ]

abbrev pub ◌>>◌ : {A B : Type 0} → M A → M B → M B
m >> k = m >>= λ _. k

abbrev pub done : {A : Type 0} → A → M A
done a s = ok a s

abbrev pub or_fault : {A : Type 0} → Option A → M A
or_fault none s = fault
or_fault (some a) s = ok a s

-- Writing through a pointer. Nothing can be written at the null pointer.
unfoldable pub write_at : ℕ → Bytes → M (Unit {0})
write_at p [] s = ok tt s
write_at p (b ∷ bs) s = elim (p == 0) [
  | true ↦ fault
  | false ↦ ok tt (record s { memory = store p (b ∷ bs) s.memory })
]

-- `new char[n]`; its bytes are not written. No block is empty, so that all have their own address.
unfoldable pub new_chars : ℕ → M ℕ
new_chars n s = ok s.brk (record s { brk = s.brk + n + 1 })

-- `new int{1}`
unfoldable pub new_int : M ℕ
new_int s = ok s.brk (record s { brk = s.brk + 4; memory = store s.brk (le_bytes 4 1) s.memory })

-- `ensureTraceOpened`: a file that cannot be opened leaves a stream that fails, and is tried again.
unfoldable pub ensure_trace_opened : M (Unit {0})
ensure_trace_opened s = elim s.is_open [
  | true ↦ ok tt s
  | false ↦ elim s.trace_file [
    | none ↦ ok tt (record s { trace = unopened })
    | some bs ↦ ok tt (record s { trace = opened bs; is_open = true })
  ]
]

-- Element 0 of a repeated field, and the `pi_uint32` at the head of its bytes.
abbrev pub first : List Bytes → M Bytes
first [] s = fault
first (bs ∷ _) s = ok bs s

unfoldable pub u32_at : Bytes → M ℕ
u32_at bs s = elim (ltb (length bs) 4) [ true ↦ fault | false ↦ ok (le_value (take 4 bs)) s ]

module _ (rt : Runtime) where
  unfoldable pub get_next_record : M ApiCall
  get_next_record s = elim (read_frame rt.codec rt.junk s.trace) [
    | none ↦ fault
    | some (call, trace') ↦ ok call (record s { trace = trace' })
  ]

  unfoldable pub die_if_unexpected : ℕ → ApiKind → M (Unit {0})
  die_if_unexpected func_id expected s = elim (func_id == rt.kind_id expected) [
    | true ↦ ok tt s
    | false ↦ exited
  ]

  -- The first two statements of every call.
  unfoldable pub next_record : M ApiCall
  next_record = do ensure_trace_opened; get_next_record

  -- The first three statements of every call.
  unfoldable pub expect_record : ApiKind → M ApiCall
  expect_record expected = do
    call ← next_record
    die_if_unexpected call.function_id expected
    done call
