-- ===== src/Lph.antt =====
-- The PipeWire host of ATTIC/lv2-pw-host/lph.
pub mod AtomInput
pub mod AtomOutput
pub mod UriTable
pub mod Ports
