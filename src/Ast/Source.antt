-- ===== src/Ast/Source.antt =====
-- ast/source.go: a source file, and a place in it.
use gqlparser.Base.{ℕ, Bool, Bytes}

pub record Source : Type 0 where
  pub name : Bytes
  pub input : Bytes
  pub built_in : Bool

pub record Position : Type 0 where
  pub start : ℕ
  pub end : ℕ
  pub line : ℕ
  pub column : ℕ
  pub src : Source
