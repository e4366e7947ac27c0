-- ===== src/Tests/Fixtures.antt =====
-- Small worlds for the tests: a serializer of records, a plugin, a recorder.
use dpcpp_trace.Prelude.{ℕ, refl, false, Option, none, some, List, [], ◌∷◌, arith, Bytes}
use dpcpp_trace.Trace.Api.{ApiCall, Codec, Fits}
use dpcpp_trace.Trace.Stream.{unopened}
use dpcpp_trace.Replay.Plugin.{ApiKind, Runtime, Plugin}

-- A record of the function `f`, which returned `value`, with one output of four bytes.
abbrev pub sample : ℕ → ℕ → ApiCall
sample f value = record {
  function_id = f;
  time_start = 0;
  time_end = 0;
  return_value = value;
  args = [];
  small_outputs = (2 ∷ 0 ∷ 0 ∷ 0 ∷ []) ∷ [];
  mem_obj_outputs = [];
}

-- Two bytes for each such record; any other text is read as one of function 0.
abbrev pub read_sample : Bytes → ApiCall
read_sample (f ∷ value ∷ _ ∷ []) = sample f value
read_sample _ = sample 0 0

abbrev pub sample_codec : Codec ApiCall
sample_codec = record { serialize = λ c. c.function_id ∷ c.return_value ∷ []; parse = read_sample }

abbrev pub sample_fits : (f value : ℕ) → Fits sample_codec (sample f value)
sample_fits f value = record { parse-serialize = refl; size_fits = omega arith }

abbrev pub sample_kind_id : ApiKind → ℕ
sample_kind_id ApiKind.platforms_get = 1
sample_kind_id ApiKind.devices_get = 2
sample_kind_id ApiKind.enqueue_mem_buffer_read = 3
sample_kind_id ApiKind.queue_finish = 4
sample_kind_id _ = 0

abbrev pub runtime_of : Codec ApiCall → Runtime
runtime_of codec = record {
  codec = codec;
  kind_id = sample_kind_id;
  cl_mem_context = 1;
  pi_kernel_info_program = 2;
  junk = 7;
}

abbrev pub sample_runtime : Runtime
sample_runtime = runtime_of sample_codec

-- A plugin that has not opened its trace yet.
abbrev pub plugin_on : Bytes → (Bytes → Option Bytes) → Plugin
plugin_on trace mem_file = record {
  trace_file = some trace;
  mem_file = mem_file;
  trace = unopened;
  is_open = false;
  kernel_programs = [];
  mem_contexts = [];
  memory = λ a. 0;
  brk = 1000;
}

abbrev pub two_records : List ApiCall
two_records = sample 1 0 ∷ sample 4 5 ∷ []

abbrev pub no_mem_file : Bytes → Option Bytes
no_mem_file name = none
