-- ===== src/Gdb.antt =====
-- src/debug_server: the server that speaks the GDB remote protocol for a debugger.
pub mod Hex
pub mod Debugger
pub mod Packets
pub mod Transfer
pub mod Running
pub mod Dispatch
pub mod Modes
pub mod Serving
pub mod Threads
pub mod Slices
pub mod Contents
