-- ===== src/Validator/Walk.antt =====
-- validator/walk.go: the walk over a query document, as the events that observers are called with.
pub mod Event
pub mod Value
pub mod Selection
pub mod Document
pub mod Ends
pub mod Quiet
pub mod Covers
