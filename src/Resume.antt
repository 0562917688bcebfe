-- ===== src/Resume.antt =====
-- pkg/types/resume.go and pkg/core/executors.go: how an interrupted scan goes on.
pub mod Info
pub mod Targets
pub mod Progress
pub mod Tests
