-- ===== src/Replay.antt =====
-- lib/plugin_replay/replay.cpp: the plugin that answers the runtime's calls from a trace.
pub mod Memory
pub mod Plugin
pub mod Platform
pub mod Objects
pub mod Kernels
pub mod Enqueue
pub mod Table
