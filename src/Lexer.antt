-- ===== src/Lexer.antt =====
-- The lexer: package lexer.
pub mod Token
pub mod State
pub mod Scan
pub mod Number
pub mod Str
pub mod Block
pub mod Read
pub mod Bounds
pub mod Progress
pub mod Hex
pub mod BlockSpec
pub mod Indent
pub mod BlockText
