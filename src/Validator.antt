-- ===== src/Validator.antt =====
-- The validator: package validator.
pub mod Schema
pub mod Walk
pub mod Rules
