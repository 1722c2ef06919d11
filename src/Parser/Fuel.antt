-- ===== src/Parser/Fuel.antt =====
-- The fuel of the parser is enough.
pub mod Weight
pub mod Steps
pub mod Token
pub mod Flow
pub mod Many
pub mod Value
pub mod Arguments
pub mod Selection
pub mod Query
pub mod Document
