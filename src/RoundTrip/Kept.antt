-- ===== src/RoundTrip/Kept.antt =====
-- record_handler.cpp `handleEnqueueMemBufferRead`: the record and the file that a read leaves.
use dpcpp_trace.Prelude.{
  ℕ, ◌≡◌, refl, sym, ap, true, some, List, [], ◌∷◌, ◌++◌, arith, Bytes, le_bytes,
}
use dpcpp_trace.Trace.Api.{ApiCall}
use dpcpp_trace.Replay.Memory.{Memory, load}
use dpcpp_trace.Replay.Plugin.{Runtime, ApiKind}
use dpcpp_trace.Record.Args.{pointer, unsigned}
use dpcpp_trace.Record.Recorder.{Environment, Recorder, Handled, handled, begin_call, finish_call}
use dpcpp_trace.Record.Memory.{mem_file_name, save_memory, handle_enqueue_mem_buffer_read}

-- A memory object's file, as the recorder writes it.
abbrev pub contents : ℕ → Bytes → Bytes
contents size bs = le_bytes 8 size ++ bs

-- The record that the handler writes: with the name of the file that it kept.
module _ (env : Environment) (r : Recorder) where
  abbrev pub read_call : ℕ → ℕ → ℕ → ℕ → ℕ → ℕ → ℕ → ℕ → ℕ → ℕ → ApiCall
  read_call result queue buffer blocking offset size ptr num wait event =
      record (begin_call r result (
        pointer queue
        ∷ pointer buffer
        ∷ unsigned 4 blocking
        ∷ unsigned 8 offset
        ∷ unsigned 8 size
        ∷ pointer ptr
        ∷ unsigned 4 num
        ∷ pointer wait
        ∷ pointer event
        ∷ [])) { mem_obj_outputs = mem_file_name env r.last_event_id ∷ [] }

  -- The recorder with the file.
  abbrev pub keeping : Memory → ℕ → ℕ → Recorder
  keeping m size ptr = record r {
    mem_files = (mem_file_name env r.last_event_id, contents size (load size ptr m)) ∷ r.mem_files;
  }

  pub kept_by_read :
      (r' : Recorder) (m : Memory) (result queue buffer blocking offset size ptr num wait event : ℕ)
      → handle_enqueue_mem_buffer_read env r m
          (some result)
          queue
          buffer
          blocking
          offset
          size
          ptr
          num
          wait
          event
        ≡ handled r'
      → r.skip_mem_objects ≡ true
      → finish_call env
          (keeping (env.events_wait event m) size ptr)
          (read_call result queue buffer blocking offset size ptr num wait event)
        ≡ handled r'
  unfolding handle_enqueue_mem_buffer_read save_memory begin_call
  kept_by_read r' m result queue buffer blocking offset size ptr num wait event e k = ground arith

-- The files that the handler leaves, the one that it kept first.
abbrev files_of : Handled → List (Bytes × Bytes)
files_of (handled r) = r.mem_files
files_of _ = []

pub mem_files-finish_call :
    (env : Environment) (r r' : Recorder) (call : ApiCall)
    → finish_call env r call ≡ handled r'
    → r'.mem_files ≡ r.mem_files
unfolding finish_call
mem_files-finish_call env r r' call e = sym (ap files_of e)

pub call_kept :
    (env : Environment) (rt : Runtime) (r : Recorder)
    (result queue buffer blocking offset size ptr num wait event : ℕ)
    → r.last_function_id ≡ rt.kind_id ApiKind.enqueue_mem_buffer_read
    → ((read_call env r result queue buffer blocking offset size ptr num wait event).function_id
        ≡ rt.kind_id ApiKind.enqueue_mem_buffer_read)
      × ((read_call env r result queue buffer blocking offset size ptr num wait event).return_value
          ≡ result)
unfolding begin_call
call_kept env rt r result queue buffer blocking offset size ptr num wait event i = (i, refl)
