-- ===== src/Tests.antt =====
-- Concrete runs, and the theorems at concrete inputs.
pub mod Fixtures
pub mod Reading
pub mod Replaying
pub mod Recording
pub mod Debugging
pub mod Commands
pub mod Printing
pub mod Tracing
pub mod Graphs
pub mod Launching
pub mod Hosting
pub mod Threading
pub mod Showing
pub mod Breaking
