-- ===== src/Synth.antt =====
-- example/synth: the synthetic protocol of the tests.
pub mod Wire
pub mod Examples
