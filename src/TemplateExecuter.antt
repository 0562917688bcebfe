-- ===== src/TemplateExecuter.antt =====
-- pkg/tmplexec with pkg/scan: the execution of a template on a target.
pub mod ScanContext
pub mod Generic
pub mod Execute
pub mod Writes
pub mod Tests
