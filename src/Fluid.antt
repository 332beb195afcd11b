-- ===== src/Fluid.antt =====
-- The web interface of fluidsynth, ATTIC/fluidsynth/fluid-ui.
pub mod Outcome
pub mod Tokens
pub mod Client
pub mod Controls
pub mod Server
