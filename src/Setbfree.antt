-- ===== src/Setbfree.antt =====
-- ATTIC/setbfree/src/plugin.c: the plugin that turns control ports into MIDI for the organ.
pub mod Midi
pub mod Instance
pub mod Run
