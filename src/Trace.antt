-- ===== src/Trace.antt =====
-- The trace that `record` writes and `print` and `replay` read: api_call.proto's messages, the
-- streams that they go through, and the frame of a 32-bit size before each message.
pub mod Api
pub mod Stream
pub mod Frame
pub mod Read
