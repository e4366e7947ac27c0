-- ===== src/Record/Threads.antt =====
-- lib/plugin_record/record.cpp: the subscriber's entry points, on the threads of one process.
use dpcpp_trace.Prelude.{
  ℕ, Bool, not, Option, none, some, List, [], ◌∷◌, ◌++◌, ◌==◌, if◌then◌else◌, Bytes, same_text,
  codes,
}
use dpcpp_trace.Replay.Memory.{Memory}
use dpcpp_trace.Record.Recorder.{Environment, Recorder, handled, bad_optional_access}
use dpcpp_trace.Record.Dispatch.{Finished, handle, timestamp_begin, timestamp_end}

-- `trace_point_type_t`: the clock's reading, and at the end what `UserData` points to: the instance,
-- the function, the memory, the result and the arguments.
pub data TracePoint : Type 0 where
  function_with_args_begin : ℕ → TracePoint
  function_with_args_end : ℕ → ℕ → ℕ → Memory → ℕ → Finished → TracePoint
  other_point : TracePoint

-- What the process fixes: the threads' names, `GStartTime`, and whether the variable that switches
-- memory objects off is set.
pub record Site : Type 0 where
  pub environment : Environment
  pub names : ℕ → Bytes
  pub start_time : ℕ
  pub skips_memory : Bool

-- `GRecordHandler` of each thread, and what the files of the trace hold; a file that is not there
-- reads as empty.
pub record Process : Type 0 where
  pub handlers : ℕ → Option Recorder
  pub trace : Bytes → Bytes

abbrev pub trace_ext : Bytes
trace_ext = codes ".pi_trace"

abbrev pub debug_stream_name : Bytes
debug_stream_name = codes "sycl.pi.debug"

-- What `xptiTraceInit` ends in: `std::terminate`, the two callbacks, or nothing.
pub data Subscription : Type 0 where
  terminated subscribed ignored : Subscription

-- `xptiTraceInit`; the variable with the trace's path comes first.
unfoldable pub xpti_trace_init : Option Bytes → Bytes → Subscription
xpti_trace_init none stream_name = terminated
xpti_trace_init (some path) stream_name =
    if same_text stream_name debug_stream_name then subscribed else ignored

unfoldable pub set_handler : ℕ → Option Recorder → (ℕ → Option Recorder) → ℕ → Option Recorder
set_handler t o handlers i = if i == t then o else handlers i

-- A write to a file that is open with `std::ios::app`.
unfoldable pub append_to : Bytes → Bytes → (Bytes → Bytes) → Bytes → Bytes
append_to name bytes trace n = if same_text n name then trace n ++ bytes else trace n

module _ (site : Site) where
  open site use {environment, names, start_time, skips_memory}

  abbrev pub thread_file : ℕ → Bytes
  thread_file t = names t ++ trace_ext

  -- `RecordHandler`'s constructor: its numbers are not set, and the model takes zeros.
  unfoldable pub new_handler : Recorder
  new_handler = record {
    os = [];
    mem_files = [];
    last_event_id = 0;
    last_function_id = 0;
    timestamp_begin = 0;
    timestamp_end = 0;
    skip_mem_objects = not skips_memory;
  }

  unfoldable pub get_handler : Option Recorder → Recorder
  unfolding new_handler
  get_handler none = new_handler
  get_handler (some r) = r

  abbrev pub on_thread : ℕ → Environment
  on_thread t = record environment { thread_name = names t }

  -- `flush`
  unfoldable pub flush : ℕ → Process → Process
  unfolding set_handler append_to
  flush t p = elim (p.handlers t) [
    | none ↦ p
    | some r ↦ record {
      handlers = set_handler t (some (record r { os = [] })) p.handlers;
      trace = append_to (thread_file t) r.os p.trace;
    }
  ]

  -- `tpCallback` on a thread; `none` is an exception that leaves it.
  unfoldable pub record_callback : ℕ → TracePoint → Process → Option Process
  unfolding get_handler set_handler flush
  record_callback t (function_with_args_begin now) p =
      let r = get_handler (p.handlers t) in
      some
        (record p { handlers = set_handler t (some (timestamp_begin r start_time now)) p.handlers })
  record_callback t (function_with_args_end now instance function_id m result call) p =
      elim (p.handlers t) [
        | none ↦ some p
        | some r ↦
            elim (handle (on_thread t) (timestamp_end r start_time now) instance function_id m
              (some result) call) [
                | handled r' ↦
                    some (flush t (record p { handlers = set_handler t (some r') p.handlers }))
                | bad_optional_access ↦ none
              ]
      ]
  record_callback t other_point p = some p

  -- The callbacks in the order in which they run, each with its thread.
  unfoldable pub run_callbacks : List (ℕ × TracePoint) → Process → Option Process
  run_callbacks [] p = some p
  run_callbacks ((t, x) ∷ es) p = elim (record_callback t x p) [
    | none ↦ none
    | some q ↦ run_callbacks es q
  ]

  -- `deinit`, on the thread that ends the process.
  unfoldable pub deinit : ℕ → Process → Process
  unfolding flush set_handler
  deinit t p = elim (p.handlers t) [
    | none ↦ p
    | some r ↦ let q = flush t p in record q { handlers = set_handler t none q.handlers }
  ]
