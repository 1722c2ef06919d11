-- ===== src/Validator/Schema.antt =====
-- validator/schema.go: building a schema from a document, and checking it.
pub mod State
pub mod Covariant
pub mod Check
pub mod Implements
pub mod Build
pub mod Load
pub mod Sound
