-- ===== src/Expressions.antt =====
-- pkg/protocols/common/expressions: the variables that a request still holds.
pub mod Variables
pub mod Unresolved
pub mod Tests
