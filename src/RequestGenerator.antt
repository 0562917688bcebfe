-- ===== src/RequestGenerator.antt =====
-- pkg/protocols/http/request_generator.go: the requests that a template sends, for each of its payloads.
pub mod Generator
pub mod Rounds
pub mod Calls
pub mod Sent
pub mod Payloads
pub mod Tests
