-- ===== src/Frequency.antt =====
-- pkg/fuzz/frequency: the parameters that are found uninteresting too often.
pub mod Tracker
pub mod Counting
pub mod Tests
