-- ===== src/Lexer/Bounds.antt =====
-- The lexer (lexer/lexer.go) stays inside its input: byte and rune offsets, and the positions of its
-- tokens. The subtractions of the source on these offsets never go below zero.
pub mod Makers
pub mod Number
pub mod Text
pub mod Token
