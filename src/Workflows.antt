-- ===== src/Workflows.antt =====
-- pkg/workflows/workflows.go and pkg/core/workflow_execute.go: templates that run on the results of others.
pub mod Matcher
pub mod Step
pub mod Total
pub mod Tests
