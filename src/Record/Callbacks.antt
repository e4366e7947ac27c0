-- ===== src/Record/Callbacks.antt =====
-- lib/plugin_record/record.cpp: what a flush and the end of a call do to the process.
use dpcpp_trace.Prelude.{
  ℕ, ◌-◌, ◌%◌, ◌^◌, ◌≡◌, ◌≢◌, Option, some, List, [], ◌++◌, arith, Bytes, same_text_refl,
  same_text-eq,
}
use dpcpp_trace.Trace.Frame.{write_frame}
use dpcpp_trace.Replay.Memory.{Memory}
use dpcpp_trace.Record.Recorder.{Recorder, handled}
use dpcpp_trace.Record.Dispatch.{Finished, handle, timestamp_end}
use dpcpp_trace.Record.Calls.{call_of, run_handler-call_of}
use dpcpp_trace.Record.Threads.{
  function_with_args_end, Site, Process, set_handler, append_to, thread_file, on_thread, flush,
  record_callback,
}

pub set_handler_self :
    (t : ℕ) (o : Option Recorder) (h : ℕ → Option Recorder) → set_handler t o h t ≡ o
unfolding set_handler
set_handler_self t o h = ground arith

pub set_handler_other :
    (t i : ℕ) (o : Option Recorder) (h : ℕ → Option Recorder) → t ≢ i → set_handler t o h i ≡ h i
unfolding set_handler
set_handler_other t i o h ne = ground arith

pub append_to_self :
    (name bytes : Bytes) (trace : Bytes → Bytes)
    → append_to name bytes trace name ≡ trace name ++ bytes
unfolding append_to
append_to_self name bytes trace = rw (same_text_refl name)

pub append_to_other :
    (name n bytes : Bytes) (trace : Bytes → Bytes)
    → name ≢ n
    → append_to name bytes trace n ≡ trace n
unfolding append_to
append_to_other name n bytes trace ne = ground (arith, same_text-eq n name)

module _ (site : Site) where
  open site use {environment, names, start_time, skips_memory}

  handle_total :
      (t : ℕ) (r : Recorder) (ev f : ℕ) (m : Memory) (result : ℕ) (call : Finished)
      → (files : List (Bytes × Bytes)) × (handle (on_thread site t) r ev f m (some result) call
          ≡ handled (record r {
            last_event_id = ev;
            last_function_id = f;
            os =
                r.os
                ++ write_frame environment.codec (
                    call_of
                      (on_thread site t)
                      (record r { last_event_id = ev; last_function_id = f })
                      m
                      result
                      call);
            mem_files = files;
          }))
  unfolding handle
  handle_total t r ev f m result call =
      run_handler-call_of (on_thread site t) (record r { last_event_id = ev; last_function_id = f })
        m result call

  pub flush_lem :
      (t : ℕ) (p : Process) (r : Recorder)
      → p.handlers t ≡ some r
      → flush site t p ≡ record {
        handlers = set_handler t (some (record r { os = [] })) p.handlers;
        trace = append_to (thread_file site t) r.os p.trace;
      }
  unfolding flush
  flush_lem t p r e = ground arith

  -- The end of a call on a thread that has a handler.
  pub ended :
      (t now ev f : ℕ) (m : Memory) (result : ℕ) (call : Finished) (p : Process) (r : Recorder)
      → p.handlers t ≡ some r
      → let r₁ = record r {
        timestamp_end = (now - start_time) % 2 ^ 64;
        last_event_id = ev;
        last_function_id = f;
      } in
        (files : List (Bytes × Bytes)) × (h : ℕ → Option Recorder) × (record_callback site t
            (function_with_args_end now ev f m result call)
            p
          ≡ some (record {
            handlers = set_handler t (some (record r₁ { os = []; mem_files = files })) h;
            trace =
                append_to
                  (thread_file site t)
                  (r.os
                    ++ write_frame environment.codec (call_of (on_thread site t) r₁ m result call))
                  p.trace;
          }))
        × ((i : ℕ) → t ≢ i → h i ≡ p.handlers i)
  unfolding record_callback timestamp_end
  ended t now ev f m result call p r e =
      let r₁ : Recorder = record r { timestamp_end = (now - start_time) % 2 ^ 64 } in
      let (files, done) = handle_total t r₁ ev f m result call in
      let r₂ : Recorder = record r₁ {
        last_event_id = ev;
        last_function_id = f;
        os =
            r.os
            ++ write_frame environment.codec (
                call_of (on_thread site t) (record r₁ { last_event_id = ev; last_function_id = f })
                  m result call);
        mem_files = files;
      } in
      let h = set_handler t (some r₂) p.handlers in
      (
        files,
        h,
        ground (
          arith,
          done,
          flush_lem t (record p { handlers = h }) r₂ (set_handler_self t (some r₂) p.handlers),
        ),
        λ i ne. set_handler_other t i (some r₂) p.handlers ne,
      )
