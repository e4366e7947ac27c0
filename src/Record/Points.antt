-- ===== src/Record/Points.antt =====
-- lib/plugin_record/record.cpp: one callback, seen from one thread's handler and file.
use dpcpp_trace.Prelude.{
  ℕ, ◌-◌, ◌%◌, ◌^◌, ◌≡◌, refl, ap, ◌∙◌, ◌≢◌, inl, inr, Bool, not, Option, none, some, List, [], ◌∷◌,
  ◌++◌, append_assoc, Option-cases, Bytes,
}
use dpcpp_trace.Trace.Api.{ApiCall}
use dpcpp_trace.Trace.Read.{write_frames}
use dpcpp_trace.Replay.Memory.{Memory}
use dpcpp_trace.Record.Recorder.{Recorder, begin_call}
use dpcpp_trace.Record.Dispatch.{Finished, timestamp_begin}
use dpcpp_trace.Record.Calls.{call_of}
use dpcpp_trace.Record.Threads.{
  TracePoint, function_with_args_begin, function_with_args_end, other_point, Site, Process,
  thread_file, new_handler, get_handler, on_thread, record_callback,
}
use dpcpp_trace.Record.Callbacks.{
  set_handler_self, set_handler_other, append_to_self, append_to_other, ended,
}

module _ (site : Site) where
  open site use {environment, names, start_time, skips_memory}

  -- A fresh handler with the numbers of one call.
  abbrev pub numbered : ℕ → ℕ → ℕ → ℕ → Recorder
  numbered began now instance function_id = record {
    os = [];
    mem_files = [];
    last_event_id = instance;
    last_function_id = function_id;
    timestamp_begin = began;
    timestamp_end = (now - start_time) % 2 ^ 64;
    skip_mem_objects = not skips_memory;
  }

  -- The calls that a thread's points tell of: every end after the first begin is one, and it began
  -- at the latest begin before it.
  unfoldable pub calls_of : ℕ → Option ℕ → List TracePoint → List ApiCall
  calls_of i began [] = []
  calls_of i began (function_with_args_begin now ∷ xs) =
      calls_of i (some ((now - start_time) % 2 ^ 64)) xs
  calls_of i none (function_with_args_end now instance function_id m result call ∷ xs) =
      calls_of i none xs
  calls_of i (some began) (function_with_args_end now instance function_id m result call ∷ xs) =
      call_of (on_thread site i) (numbered began now instance function_id) m result call
      ∷ calls_of i (some began) xs
  calls_of i began (other_point ∷ xs) = calls_of i began xs

  abbrev pub began : Option Recorder → Option ℕ
  began none = none
  began (some r) = some r.timestamp_begin

  -- Between callbacks nothing waits in the stream.
  abbrev pub Flushed : Option Recorder → Type 0
  Flushed none = Unit
  Flushed (some r) = (r.os ≡ []) × (r.skip_mem_objects ≡ not skips_memory)

  -- A callback on another thread leaves the handler and the file alone.
  pub foreign :
      (i t : ℕ) (x : TracePoint) (p : Process)
      → t ≢ i
      → thread_file site t ≢ thread_file site i
      → (q : Process) × (record_callback site t x p ≡ some q)
        × (q.handlers i ≡ p.handlers i)
        × (q.trace (thread_file site i) ≡ p.trace (thread_file site i))
  unfolding record_callback
  foreign i t (function_with_args_begin now) p ne apart =
      (_, refl, set_handler_other t i _ p.handlers ne, refl)
  foreign i t (function_with_args_end now ev f m result call) p ne apart =
      elim (Option-cases (p.handlers t)) [
        | inl e ↦ (p, rw (e, record_callback) refl, refl, refl)
        | inr (r, e) ↦
            let (files, h, done, same) = ended site t now ev f m result call p r e in
            (
              _,
              done,
              set_handler_other t i _ h ne ∙ same i ne,
              append_to_other (thread_file site t) (thread_file site i) _ p.trace apart,
            )
      ]
  foreign i t other_point p ne apart = (p, refl, refl, refl)

  call_of_numbered :
      (i began now ev f : ℕ) (m : Memory) (result : ℕ) (call : Finished) (r : Recorder)
      → r.skip_mem_objects ≡ not skips_memory
      → call_of
          (on_thread site i)
          (record r {
            os = [];
            timestamp_begin = began;
            timestamp_end = (now - start_time) % 2 ^ 64;
            last_event_id = ev;
            last_function_id = f;
          })
          m
          result
          call
        ≡ call_of (on_thread site i) (numbered began now ev f) m result call
  unfolding call_of begin_call
  call_of_numbered i began now ev f m result call r h =
      ap
        (λ (b : Bool).
          call_of (on_thread site i) (record (numbered began now ev f) { skip_mem_objects = b }) m
            result call)
        h

  -- What a thread has written, and what its later points will add.
  abbrev pub Written : ℕ → Option Recorder → List TracePoint → Process → Bytes
  Written i o xs p =
      p.trace (thread_file site i) ++ write_frames environment.codec (calls_of i (began o) xs)

  -- A callback on the thread itself adds what the thread's points tell of.
  pub own_point :
      (i : ℕ) (x : TracePoint) (p : Process) (o : Option Recorder)
      → p.handlers i ≡ o
      → Flushed o
      → (q : Process) × (o' : Option Recorder) × (record_callback site i x p ≡ some q)
        × (q.handlers i ≡ o')
        × Flushed o'
        × ((xs : List TracePoint) → Written i o' xs q ≡ Written i o (x ∷ xs) p)
  unfolding record_callback calls_of write_frames timestamp_begin get_handler new_handler
  own_point i (function_with_args_begin now) p none e ready = (
    _,
    _,
    refl,
    set_handler_self i _ p.handlers
        ∙ ap (λ (o : Option Recorder). some (timestamp_begin (get_handler site o) start_time now))
            e,
    (refl, refl),
    λ xs. refl,
  )
  own_point i (function_with_args_begin now) p (some r) e ready = (
    _,
    _,
    refl,
    set_handler_self i _ p.handlers
        ∙ ap (λ (o : Option Recorder). some (timestamp_begin (get_handler site o) start_time now))
            e,
    ready,
    λ xs. refl,
  )
  own_point i (function_with_args_end now ev f m result call) p none e ready =
      (p, none, rw (e, record_callback) refl, e, tt, λ xs. refl)
  own_point i (function_with_args_end now ev f m result call) p (some r) e (flushed, keeps) =
      let (files, h, done, same) = ended site i now ev f m result call p r e in
      (
        _,
        _,
        done,
        set_handler_self i _ h,
        (refl, keeps),
        λ xs.
            rw
              (
                append_to_self (thread_file site i),
                flushed,
                call_of_numbered i r.timestamp_begin now ev f m result call r keeps,
                append_assoc,
              )
              refl,
      )
  own_point i other_point p o e ready = (p, o, refl, e, ready, λ xs. refl)
