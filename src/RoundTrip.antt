-- ===== src/RoundTrip.antt =====
-- What `record` wrote on one side of lib/ is what `replay` gives back on the other.
pub mod Counts
pub mod Kept
pub mod Contents
pub mod Threads
