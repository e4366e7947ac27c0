-- ===== src/Tests/Recording.antt =====
-- The recorder's oddities at concrete calls.
use dpcpp_trace.Prelude.{◌+◌, ◌%◌, true, [], ◌∷◌, codes}
use dpcpp_trace.Record.Recorder.{Environment, Recorder}
use dpcpp_trace.Record.Binaries.{DeviceBinary, Formats}
use dpcpp_trace.Trace.Api.{Codec}
use dpcpp_trace.Replay.Memory.{Memory}
use dpcpp_trace.Tests.Fixtures.{sample_codec}

abbrev pub environment : Environment
environment = record {
  codec = sample_codec;
  events_wait = λ event m. m;
  usm_alloc_type = λ context p. 0;
  pi_mem_type_unknown = 0;
  pi_mem_type_host = 1;
  thread_name = codes "42";
  to_string = λ n. (b'0' + n % 10) ∷ [];
}

abbrev pub recorder : Recorder
recorder = record {
  os = [];
  mem_files = [];
  last_event_id = 3;
  last_function_id = 1;
  timestamp_begin = 10;
  timestamp_end = 20;
  skip_mem_objects = true;
}

abbrev pub zeros : Memory
zeros a = 0

abbrev pub formats : Formats
formats = record { spirv = 1; native = 2; llvmir_bitcode = 3; none_ = 0 }

abbrev pub binary_codec : Codec DeviceBinary
binary_codec = record {
  serialize = λ b. b.device_target_spec;
  parse = λ bs. record {
    version = 0;
    kind = 0;
    format = 0;
    device_target_spec = bs;
    compile_options = [];
    link_options = [];
    offload_entries = [];
    property_sets = [];
    manifest = [];
  };
}
