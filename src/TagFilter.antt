-- ===== src/TagFilter.antt =====
-- pkg/templates/tag_filter.go: which templates run.
pub mod Filter
pub mod Config
pub mod Verdict
pub mod Tests
