-- ===== src/Parser/Schema.antt =====
-- The parser of schemas: parser/schema.go.
pub mod Fields
pub mod Types
pub mod Extensions
pub mod Document
pub mod Ends
