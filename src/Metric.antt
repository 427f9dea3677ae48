-- ===== src/Metric.antt =====
-- pkg/util/metric: the counters of the server's statistics.
pub mod DateCounter
pub mod Server
