-- ===== src/Nathole.antt =====
-- pkg/nathole: which end of a hole punch does what, from the kinds of their networks.
pub mod Behavior
pub mod Classify
pub mod Records
pub mod Analyzer
