-- ===== src/Operators.antt =====
-- pkg/operators: the operators of a request.
pub mod ExcludeMatchers
pub mod Types
pub mod Execute
pub mod Outcome
pub mod Merge
pub mod Rounds
pub mod MergeOutput
pub mod Extracts
pub mod Tests
