-- ===== src/Print/Flags.antt =====
-- src/pretty_printers.hpp: enumerators and bit fields by their names, argument by argument. Nothing in
-- the repository calls `PrintHelper`.
use dpcpp_trace.Prelude.{ℕ, List, [], ◌∷◌, ◌++◌, ◌==◌, if◌then◌else◌, Bytes, length, codes}
use Prim.Native.Nat.{bit_and}

-- The numbers of the runtime's headers that the printers name.
pub record PiConstants : Type 0 where
  pub queue_info_context : ℕ
  pub queue_info_device : ℕ
  pub queue_info_device_default : ℕ
  pub queue_info_properties : ℕ
  pub queue_info_reference_count : ℕ
  pub queue_info_size : ℕ
  pub platform_info_extensions : ℕ
  pub platform_info_name : ℕ
  pub platform_info_profile : ℕ
  pub platform_info_vendor : ℕ
  pub platform_info_version : ℕ
  pub queue_out_of_order_exec_mode_enable : ℕ
  pub queue_profiling_enable : ℕ
  pub queue_on_device : ℕ
  pub queue_on_device_default : ℕ
  pub mem_flags_access_rw : ℕ
  pub mem_flags_host_ptr_use : ℕ
  pub mem_flags_host_ptr_copy : ℕ
  pub mem_flags_host_ptr_alloc : ℕ
  pub map_read : ℕ
  pub map_write : ℕ
  pub map_write_invalidate_region : ℕ

-- A label with a name, with a number in hexadecimal, and with both.
pub data Formatted : Type 0 where
  named : Bytes → Bytes → Formatted
  numbered : Bytes → ℕ → Formatted
  flags : Bytes → ℕ → Bytes → Formatted

-- A switch over enumerators, with its default.
unfoldable pub name_of : List (ℕ × Bytes) → ℕ → Bytes
name_of [] info = codes "UNKNOWN"
name_of ((n, name) ∷ cases) info = if info == n then name else name_of cases info

-- `join_bars`
unfoldable pub join_bars : List Bytes → Bytes
join_bars [] = []
join_bars (v ∷ []) = v
join_bars (v ∷ w ∷ values) = v ++ codes " | " ++ join_bars (w ∷ values)

-- The names of the bits that are set.
unfoldable pub set_names : List (ℕ × Bytes) → ℕ → List Bytes
set_names [] bitfield = []
set_names ((bit, name) ∷ bits) bitfield =
    let rest = set_names bits bitfield in if bit_and bitfield bit == 0 then rest else name ∷ rest

unfoldable pub flag_names : List (ℕ × Bytes) → ℕ → List Bytes
unfolding set_names
flag_names bits bitfield =
    (if bitfield == 0 then codes "NONE" ∷ [] else []) ++ set_names bits bitfield

-- The interfaces that have a case of their own.
pub data PrintedKind : Type 0 where
  mem_buffer_create mem_image_create mem_buffer_partition queue_create : PrintedKind
  enqueue_mem_buffer_map other_kind : PrintedKind

-- An argument by its type.
pub data Argument : Type 0 where
  queue_info : ℕ → Argument
  platform_info : ℕ → Argument
  value : ℕ → Argument

abbrev number_of : Argument → ℕ
number_of (queue_info n) = n
number_of (platform_info n) = n
number_of (value n) = n

module _ (pi : PiConstants) where
  -- The specialisations of `printFormatted`, and the template.
  unfoldable pub print_formatted : Argument → Formatted
  unfolding name_of
  print_formatted (queue_info info) = named (codes "<pi_queue_info>") (
      name_of
        ((pi.queue_info_context, codes "PI_QUEUE_INFO_CONTEXT")
          ∷ (pi.queue_info_device, codes "PI_QUEUE_INFO_DEVICE")
          ∷ (pi.queue_info_device_default, codes "PI_QUEUE_INFO_DEVICE_DEFAULT")
          ∷ (pi.queue_info_properties, codes "PI_QUEUE_INFO_PROPERTIES")
          ∷ (pi.queue_info_reference_count, codes "PI_QUEUE_INFO_REFERENCE_COUNT")
          ∷ (pi.queue_info_size, codes "PI_QUEUE_INFO_SIZE")
          ∷ [])
        info)
  print_formatted (platform_info info) = named (codes "<pi_platform_info>") (
      name_of
        ((pi.platform_info_extensions, codes "PI_PLATFORM_INFO_EXTENSIONS")
          ∷ (pi.platform_info_name, codes "PI_PLATFORM_INFO_NAME")
          ∷ (pi.platform_info_profile, codes "PI_PLATFORM_INFO_PROFILE")
          ∷ (pi.platform_info_vendor, codes "PI_PLATFORM_INFO_VENDOR")
          ∷ (pi.platform_info_version, codes "PI_PLATFORM_INFO_VERSION")
          ∷ [])
        info)
  print_formatted (value n) = numbered (codes "<unknown>") n

  unfoldable pub print_queue_properties : ℕ → Formatted
  unfolding join_bars flag_names
  print_queue_properties bitfield = flags (codes "<pi_queue_properties>") bitfield (
      join_bars (
        flag_names
          ((pi.queue_out_of_order_exec_mode_enable, codes "PI_QUEUE_OUT_OF_ORDER_EXEC_MODE_ENABLE")
            ∷ (pi.queue_profiling_enable, codes "PI_QUEUE_PROFILING_ENABLE")
            ∷ (pi.queue_on_device, codes "PI_QUEUE_ON_DEVICE")
            ∷ (pi.queue_on_device_default, codes "PI_QUEUE_ON_DEVICE_DEFAULT")
            ∷ [])
          bitfield))

  unfoldable pub print_mem_flags : ℕ → Formatted
  unfolding join_bars flag_names
  print_mem_flags bitfield = flags (codes "<pi_mem_flags>") bitfield (
      join_bars (
        flag_names
          ((pi.mem_flags_access_rw, codes "PI_MEM_FLAGS_ACCESS_RW")
            ∷ (pi.mem_flags_host_ptr_use, codes "PI_MEM_FLAGS_HOST_PTR_USE")
            ∷ (pi.mem_flags_host_ptr_copy, codes "PI_MEM_FLAGS_HOST_PTR_COPY")
            ∷ (pi.mem_flags_host_ptr_alloc, codes "PI_MEM_FLAGS_HOST_PTR_ALLOC")
            ∷ [])
          bitfield))

  unfoldable pub print_map_flags : ℕ → Formatted
  unfolding join_bars flag_names
  print_map_flags bitfield = flags (codes "<pi_map_flags>") bitfield (
      join_bars (
        flag_names
          ((pi.map_read, codes "PI_MAP_READ")
            ∷ (pi.map_write, codes "PI_MAP_WRITE")
            ∷ (pi.map_write_invalidate_region, codes "PI_MAP_WRITE_INVALIDATE_REGION")
            ∷ [])
          bitfield))

  -- One argument, by the interface and by how many arguments follow it.
  unfoldable pub print_one : PrintedKind → ℕ → Argument → Formatted
  unfolding print_mem_flags print_queue_properties print_formatted
  print_one mem_buffer_create left arg =
      if left == 4 then print_mem_flags (number_of arg) else print_formatted arg
  print_one mem_image_create left arg =
      if left == 4 then print_mem_flags (number_of arg) else print_formatted arg
  print_one mem_buffer_partition left arg =
      if left == 3 then print_mem_flags (number_of arg) else print_formatted arg
  print_one queue_create left arg =
      if left == 1 then print_queue_properties (number_of arg) else print_formatted arg
  print_one enqueue_mem_buffer_map left arg =
      if left == 6 then print_queue_properties (number_of arg) else print_formatted arg
  print_one other_kind left arg = print_formatted arg

  -- `PrintHelper::print`
  unfoldable pub print_helper : PrintedKind → List Argument → List Formatted
  unfolding print_one
  print_helper kind [] = []
  print_helper kind (arg ∷ args) = print_one kind (length args) arg ∷ print_helper kind args
