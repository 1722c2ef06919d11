-- ===== src/Validator/Rules.antt =====
-- validator/rules/: the rules, each as what its observers report on the events of a walk.
pub mod Rule
pub mod Unique
pub mod Known
pub mod Variables
pub mod Fields
pub mod Possible
pub mod Overlap
pub mod Spread
pub mod Clean
pub mod Arguments
pub mod Distinct
pub mod Operations
pub mod Lone
