-- ===== src/Record/Recorder.antt =====
-- record_handler.hpp `RecordHandler`: the thread's stream, the last call's numbers and times.
use dpcpp_trace.Prelude.{ℕ, Bool, Option, none, some, List, [], ◌++◌, Bytes}
use dpcpp_trace.Trace.Api.{ApiCall, Codec}
use dpcpp_trace.Trace.Frame.{write_frame}
use dpcpp_trace.Replay.Memory.{Memory}
use dpcpp_trace.Record.Args.{Value, collect_args}

-- What the handlers take from outside the repository: the generated serializer, the plugin that
-- runs the calls (waiting for an event may change memory), the thread's name, and `std::to_string`.
pub record Environment : Type 0 where
  pub codec : Codec ApiCall
  pub events_wait : ℕ → Memory → Memory
  pub usm_alloc_type : ℕ → ℕ → ℕ
  pub pi_mem_type_unknown : ℕ
  pub pi_mem_type_host : ℕ
  pub thread_name : Bytes
  pub to_string : ℕ → Bytes

-- `os` is what was written to the thread's stream and not flushed; `mem_files` what was written under
-- `buffers`, newest first. `skip_mem_objects` is the field of that name, which holds `!shouldSkipMemObjects()`.
pub record Recorder : Type 0 where
  pub os : Bytes
  pub mem_files : List (Bytes × Bytes)
  pub last_event_id : ℕ
  pub last_function_id : ℕ
  pub timestamp_begin : ℕ
  pub timestamp_end : ℕ
  pub skip_mem_objects : Bool

-- `res.value()` throws if there is no result.
pub data Handled : Type 0 where
  handled : Recorder → Handled
  bad_optional_access : Handled

-- A record before its outputs: what every handler sets first.
unfoldable pub begin_call : Recorder → ℕ → List Value → ApiCall
begin_call r result args = record {
  function_id = r.last_function_id;
  time_start = r.timestamp_begin;
  time_end = r.timestamp_end;
  return_value = result;
  args = collect_args args;
  small_outputs = [];
  mem_obj_outputs = [];
}

-- The end of every handler.
unfoldable pub finish_call : Environment → Recorder → ApiCall → Handled
finish_call env r call = handled (record r { os = r.os ++ write_frame env.codec call })

abbrev pub with_result : Option ℕ → (ℕ → Handled) → Handled
with_result none f = bad_optional_access
with_result (some result) f = f result
