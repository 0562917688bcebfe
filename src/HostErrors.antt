-- ===== src/HostErrors.antt =====
-- pkg/protocols/common/hosterrorscache: hosts that are skipped.
pub mod Cache
pub mod Counting
pub mod Tests
