-- ===== src/Ast.antt =====
-- The data that the parts of the program exchange: package ast.
pub mod Source
pub mod Path
pub mod Subtype
pub mod TypeRef
pub mod Value
pub mod Document
pub mod Definition
pub mod Lookup
pub mod Named
pub mod Merged
