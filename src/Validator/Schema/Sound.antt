-- ===== src/Validator/Schema/Sound.antt =====
-- What the checks of validator/schema.go accept.
pub mod Logic
pub mod Covariant
pub mod Implements
pub mod Steps
pub mod Distinct
pub mod Frame
pub mod Stages
pub mod Pointers
pub mod Ready
