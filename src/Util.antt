-- ===== src/Util.antt =====
-- The helpers of pkg/util.
pub mod Int64
pub mod Range
pub mod Version
