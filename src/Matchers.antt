-- ===== src/Matchers.antt =====
-- pkg/operators/matchers: the matcher, and its evaluation against a response.
pub mod Types
pub mod Loops
pub mod Verdict
pub mod Words
pub mod Patterns
pub mod Compile
pub mod CompileMatchers
pub mod Ready
pub mod Dsl
pub mod Tests
