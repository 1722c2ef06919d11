-- ===== src/Lexer/BlockSpec.antt =====
-- What the value of a block string is, as relations: the counterpart of lexer/blockstring.go.
use gqlparser.Base.{ℕ, suc, ◌≤◌, ◌<◌, ◌≢◌, Bytes, List, [], ◌∷◌, ◌++◌, length}
use gqlparser.Base.{Every}

pub data IsBlank : ℕ → Type 0 where
  space : IsBlank b' '
  tab : IsBlank b'\t'

pub data NotBlank (c : ℕ) : Type 0 where
  not_blank : c ≢ b' ' → c ≢ b'\t' → NotBlank c

abbrev pub BlankLine : Bytes → Type 0
BlankLine = Every IsBlank

-- The line has its first byte that is not blank at that place.
pub data TextAt : ℕ → Bytes → Type 0 where
  text_here : {c : ℕ} {s : Bytes} → NotBlank c → TextAt 0 (c ∷ s)
  text_behind : {k b : ℕ} {s : Bytes} → IsBlank b → TextAt k s → TextAt (suc k) (b ∷ s)

-- The line is blank, or indented by as much at least.
pub data Indented (c : ℕ) (line : Bytes) : Type 0 where
  blank : BlankLine line → Indented c line
  deep : {k : ℕ} → TextAt k line → c ≤ k → Indented c line

pub data OneHas (P : Bytes → Type 0) : List Bytes → Type 0 where
  this_has : {line : Bytes} {lines : List Bytes} → P line → OneHas P (line ∷ lines)
  later_has : {line : Bytes} {lines : List Bytes} → OneHas P lines → OneHas P (line ∷ lines)

-- The least indentation of the lines that have text; 0 if none has.
pub data CommonIndent (lines : List Bytes) : ℕ → Type 0 where
  least : {c : ℕ} → Every (Indented c) lines → OneHas (TextAt c) lines → CommonIndent lines c
  no_text : Every BlankLine lines → CommonIndent lines 0

-- So many blanks are taken off the front.
pub data Strips : ℕ → Bytes → Bytes → Type 0 where
  strips_none : {s : Bytes} → Strips 0 s s
  strips_one : {n b : ℕ} {s t : Bytes} → IsBlank b → Strips n s t → Strips (suc n) (b ∷ s) t

-- A blank line that is too short is left empty.
pub data Dedents (c : ℕ) : List Bytes → List Bytes → Type 0 where
  no_lines : Dedents c [] []
  stripped :
      {line kept : Bytes} {lines rest : List Bytes}
      → Strips c line kept
      → Dedents c lines rest
      → Dedents c (line ∷ lines) (kept ∷ rest)
  emptied :
      {line : Bytes} {lines rest : List Bytes}
      → BlankLine line
      → length line < c
      → Dedents c lines rest
      → Dedents c (line ∷ lines) ([] ∷ rest)

-- The lines without the blank ones at their start.
pub data TrimsStart : List Bytes → List Bytes → Type 0 where
  nothing_left : TrimsStart [] []
  starts_in_text :
      {k : ℕ} {line : Bytes} {lines : List Bytes}
      → TextAt k line
      → TrimsStart (line ∷ lines) (line ∷ lines)
  drops_first :
      {line : Bytes} {lines kept : List Bytes}
      → BlankLine line
      → TrimsStart lines kept
      → TrimsStart (line ∷ lines) kept

-- The lines without the blank ones at their end.
pub data TrimsEnd : List Bytes → List Bytes → Type 0 where
  all_blank : {lines : List Bytes} → Every BlankLine lines → TrimsEnd lines []
  ends_in_text :
      {k : ℕ} {line : Bytes} {lines : List Bytes}
      → TextAt k line
      → Every BlankLine lines
      → TrimsEnd (line ∷ lines) (line ∷ [])
  keeps_first :
      {line next : Bytes} {lines kept : List Bytes}
      → TrimsEnd lines (next ∷ kept)
      → TrimsEnd (line ∷ lines) (line ∷ next ∷ kept)

-- The lines with a line feed between each two of them.
pub data Joined : List Bytes → Bytes → Type 0 where
  joined_none : Joined [] []
  joined_last : {line : Bytes} → Joined (line ∷ []) line
  joined_more :
      {line next text : Bytes} {lines : List Bytes}
      → Joined (next ∷ lines) text
      → Joined (line ∷ next ∷ lines) (line ++ b'\n' ∷ text)

abbrev pub OneLine : Bytes → Type 0
OneLine = Every (λ c. c ≢ b'\n')

-- The value: the lines of the raw text, those behind the first without the indentation that all of
-- them, the first one included, have in common, and without the blank lines at both ends.
pub data BlockValue (raw value : Bytes) : Type 0 where
  block_value :
      {first : Bytes} {others dedented trimmed kept : List Bytes} {c : ℕ}
      → Joined (first ∷ others) raw
      → Every OneLine (first ∷ others)
      → CommonIndent (first ∷ others) c
      → Dedents c others dedented
      → TrimsStart (first ∷ dedented) trimmed
      → TrimsEnd trimmed kept
      → Joined kept value
      → BlockValue raw value
