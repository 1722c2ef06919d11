-- ===== src/Parser.antt =====
-- The parser: package parser.
pub mod State
pub mod Many
pub mod Value
pub mod Selection
pub mod Query
pub mod Schema
pub mod Fuel
