-- ===== src/Record.antt =====
-- lib/plugin_record: the subscriber that writes a record for every call of the runtime.
pub mod Args
pub mod Recorder
pub mod Handlers
pub mod Binaries
pub mod Memory
pub mod Dispatch
pub mod Calls
pub mod Threads
pub mod Callbacks
pub mod Points
pub mod Interleaving
