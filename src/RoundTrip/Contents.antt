-- ===== src/RoundTrip/Contents.antt =====
-- record_handler.cpp `handleEnqueueMemBufferRead` against replay.cpp `piEnqueueMemBufferRead`: the bytes
-- that were read from a memory object.
use dpcpp_trace.Prelude.{ℕ, Bytes, le_bytes, same_text_refl, same_text_refl}
use dpcpp_trace.Replay.Memory.{Memory, store}
use dpcpp_trace.Replay.Plugin.{Plugin}
use dpcpp_trace.Record.Recorder.{Recorder}

-- The memory after the read: the object's bytes, the event's new block, the event.
abbrev after_read : Plugin → Bytes → ℕ → ℕ → Memory
after_read s bs ptr event =
    store event (le_bytes 8 s.brk) (store s.brk (le_bytes 4 1) (store ptr bs s.memory))
