-- ===== src/Parser/Schema/Ends.antt =====
-- The parser of schemas ends on its fuel.
pub mod Fields
pub mod Types
pub mod Extensions
pub mod Rounds
pub mod Document
