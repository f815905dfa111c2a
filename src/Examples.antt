-- ===== src/Examples.antt =====
-- The theorems applied to small concrete inputs.
mod Intervals
mod Aggregations
mod Numbers
mod Processors
mod Routing
mod Managing
mod Starting
mod Powers
mod Sampled
mod Jobs
mod Counted
