-- ===== src/Extractors.antt =====
-- pkg/operators/extractors: what an extractor takes out of a response, and its compilation.
pub mod Types
pub mod Extract
pub mod Compile
pub mod Found
pub mod Compilation
pub mod Tests
