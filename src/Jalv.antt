-- ===== src/Jalv.antt =====
-- The plugin host of ATTIC/galv/golang/jalv.
pub mod Symap
pub mod Evbuf
pub mod Comm
pub mod Types
pub mod Process
pub mod Worker
pub mod Cycle
pub mod Setup
pub mod JackBackend
pub mod Host
pub mod JackLatency
pub mod Console
pub mod Update
pub mod State
pub mod Controls
