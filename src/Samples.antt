-- ===== src/Samples.antt =====
-- Runs of the program's functions on inputs of its own test files.
mod Lexing
mod Parsing
mod Witnesses
mod Scanning
mod Schemas
mod Validating
mod Walking
