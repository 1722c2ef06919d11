-- ===== src/Lexer/BlockText.antt =====
-- lexer/blockstring.go: the lines of a block string's value.
use gqlparser.Base.{Every-both}
use gqlparser.Base.{
  drop, length-drop, ltb, if_both, length, inl, inr, ◌≤◌, ◌<◌, Every, nothing, each_one,
}
use gqlparser.Lexer.Block.{
  dedent, dedent_all, common_indent, block_string_value, split_lines, max_int32,
}
use gqlparser.Lexer.BlockSpec.{
  BlankLine, Indented, blank, deep, CommonIndent, least, no_text, Dedents, BlockValue, block_value,
  joined_more,
}
use gqlparser.Lexer.Indent.{
  Finds, finds, common_indent-Finds, dedent_all-Dedents, undented, TextAt-lt,
}
use mathlib.Core.Path.{subst}
use gqlparser.Base.{
  if_both, ℕ, ◌≤◌, ◌≡◌, inl, inr, ◌==◌, ==_iff, Bool, true, false, Bytes, List, [], ◌∷◌, length,
  refl, sym, arith, if◌then◌else◌, Every, nothing, each_one, Every-map,
}
use gqlparser.Lexer.Block.{
  split_lines, join_lines, is_blank_line, trim_start, trim_end, cons_unless_blank,
}
use gqlparser.Lexer.BlockSpec.{
  TrimsStart, nothing_left, starts_in_text, drops_first, TrimsEnd, all_blank, ends_in_text,
  keeps_first, Joined, joined_none, joined_last, joined_more, OneLine,
}
use gqlparser.Lexer.Indent.{Short, is_blank_line-cases}

trim_start-TrimsStart :
    (lines : List Bytes) → Every Short lines → TrimsStart lines (trim_start lines)
unfolding trim_start
trim_start-TrimsStart [] short = nothing_left
trim_start-TrimsStart (line ∷ lines) (each_one s short) = elim (is_blank_line-cases line s) [
  | inl (e, b) ↦ rw e (drops_first b (trim_start-TrimsStart lines short))
  | inr (e, (k, t)) ↦ rw e (starts_in_text t)
]

trim_start-Short : (lines : List Bytes) → Every Short lines → Every Short (trim_start lines)
unfolding trim_start
trim_start-Short [] short = nothing
trim_start-Short (line ∷ lines) (each_one s short) =
    if_both (Every Short) (is_blank_line line) (trim_start-Short lines short) (each_one s short)

cons-TrimsEnd :
    {line : Bytes} {lines kept : List Bytes}
    → Short line
    → TrimsEnd lines kept
    → TrimsEnd (line ∷ lines) (cons_unless_blank line kept)
cons-TrimsEnd {line} s (all_blank bs) = elim (is_blank_line-cases line s) [
  | inl (e, b) ↦ rw e (all_blank (each_one b bs))
  | inr (e, (k, t)) ↦ rw e (ends_in_text t bs)
]
cons-TrimsEnd s (ends_in_text t bs) = keeps_first (ends_in_text t bs)
cons-TrimsEnd s (keeps_first e) = keeps_first (keeps_first e)

trim_end-TrimsEnd : (lines : List Bytes) → Every Short lines → TrimsEnd lines (trim_end lines)
unfolding trim_end
trim_end-TrimsEnd [] short = all_blank nothing
trim_end-TrimsEnd (line ∷ lines) (each_one s short) =
    cons-TrimsEnd s (trim_end-TrimsEnd lines short)

join_lines-Joined : (lines : List Bytes) → Joined lines (join_lines lines)
unfolding join_lines
join_lines-Joined [] = joined_none
join_lines-Joined (line ∷ []) = joined_last
join_lines-Joined (line ∷ next ∷ lines) = joined_more (join_lines-Joined (next ∷ lines))

-- The lines of a text: it is what they make up, and none of them is longer than it.
data Splits (s : Bytes) : Bytes × List Bytes → Type 0 where
  splits :
      {line : Bytes} {lines : List Bytes}
      → Joined (line ∷ lines) s
      → Every OneLine (line ∷ lines)
      → Every (λ l. length l ≤ length s) (line ∷ lines)
      → Splits s (line, lines)

Joined-byte :
    {c : ℕ} {line s : Bytes} {lines : List Bytes}
    → Joined (line ∷ lines) s
    → Joined ((c ∷ line) ∷ lines) (c ∷ s)
Joined-byte joined_last = joined_last
Joined-byte (joined_more j) = joined_more j

longer :
    (c : ℕ) (s : Bytes) (lines : List Bytes)
    → Every (λ l. length l ≤ length s) lines
    → Every (λ l. length l ≤ length (c ∷ s)) lines
longer c s lines = Every-map (λ l h. omega (arith, h))

split_byte :
    {s : Bytes} {r : Bytes × List Bytes} (c : ℕ) (at_break : Bool)
    → (c == b'\n') ≡ at_break
    → Splits s r
    → Splits (c ∷ s) (if at_break then ([], r.0 ∷ r.1) else (c ∷ r.0, r.1))
split_byte {s} c true e (splits {line} {lines} j one len) =
    splits
      (subst (λ x. Joined ([] ∷ line ∷ lines) (x ∷ s)) (sym ((==_iff c b'\n').0 e))
        (joined_more {line = []} j))
      (each_one nothing one) (each_one (omega arith) (longer c s _ len))
split_byte {s} c false e (splits j (each_one o one) (each_one l len)) =
    splits (Joined-byte j) (each_one (each_one (λ same. cc (e, (==_iff c b'\n').1 same)) o) one)
      (each_one (omega (arith, l)) (longer c s _ len))

split_lines-Splits : (s : Bytes) → Splits s (split_lines s)
unfolding split_lines
split_lines-Splits [] =
    splits joined_last (each_one nothing nothing) (each_one (omega arith) nothing)
split_lines-Splits (c ∷ s) = split_byte c (c == b'\n') refl (split_lines-Splits s)

drop-Short : (c : ℕ) (line : Bytes) → Short line → Short (drop c line)
unfolding Short
drop-Short c line s = omega (arith, length-drop c line, s)

nil-Short : Short []
unfolding Short
nil-Short = omega arith

dedent_all-Short :
    (c : ℕ) (lines : List Bytes) → Every Short lines → Every Short (dedent_all c lines)
unfolding dedent_all dedent
dedent_all-Short c [] short = nothing
dedent_all-Short c (line ∷ lines) (each_one s short) =
    each_one (if_both Short (ltb (length line) c) nil-Short (drop-Short c line s))
      (dedent_all-Short c lines short)

undeep : (line : Bytes) → Short line → Indented max_int32 line → BlankLine line
unfolding Short
undeep line s (blank b) = b
undeep line s (deep {k} t le) = elim (apart (length line) k s (TextAt-lt t) le) [ ]
  where
    apart : (l k : ℕ) → l < max_int32 → k < l → max_int32 ≤ k → ⊥
    apart l k h h' h'' = omega (arith, h, h', h'')

-- What is taken off the lines behind the first, and what is left of them.
data Undented (first : Bytes) (others kept : List Bytes) : Type 0 where
  undented_by :
      {c : ℕ}
      → CommonIndent (first ∷ others) c
      → Dedents c others kept
      → Every Short kept
      → Undented first others kept

undent :
    {first : Bytes} {others : List Bytes} {c : ℕ} (no_indent : Bool)
    → (c == max_int32) ≡ no_indent
    → Every Short (first ∷ others)
    → Finds max_int32 (first ∷ others) c
    → Undented first others (if no_indent then others else dedent_all c others)
undent {first} {others} {c} true e (each_one s short) (finds le all least_one) =
    let blanks =
      Every-both (λ line. undeep line) (each_one s short)
        (subst (λ n. Every (Indented n) (first ∷ others)) ((==_iff c max_int32).0 e) all) in
    undented_by (no_text blanks) (undented others) short
undent {c} false e short (finds le all (inl same)) = cc (e, (==_iff c max_int32).1 same)
undent {c} false e (each_one s short) (finds le (each_one i all) (inr one)) =
    undented_by (least (each_one i all) one) (dedent_all-Dedents c all) (dedent_all-Short c _ short)

lines-Short :
    (raw : Bytes) {lines : List Bytes}
    → length raw < max_int32
    → Every (λ l. length l ≤ length raw) lines
    → Every Short lines
unfolding Short
lines-Short raw h = Every-map (λ l le. omega (arith, le, h))

finish :
    {raw line : Bytes} {lines kept : List Bytes}
    → Joined (line ∷ lines) raw
    → Every OneLine (line ∷ lines)
    → Every Short (line ∷ lines)
    → Undented line lines kept
    → BlockValue raw (join_lines (trim_end (trim_start (line ∷ kept))))
finish {line} {kept} j one (each_one short others) (undented_by c d short_kept) =
    let short = each_one short short_kept in
    block_value j one c d (trim_start-TrimsStart (line ∷ kept) short)
      (trim_end-TrimsEnd (trim_start (line ∷ kept)) (trim_start-Short (line ∷ kept) short))
      (join_lines-Joined (trim_end (trim_start (line ∷ kept))))

assemble :
    (raw : Bytes) {r : Bytes × List Bytes}
    → length raw < max_int32
    → Splits raw r
    → let common = common_indent max_int32 (r.0 ∷ r.1) in
      let lines = if common == max_int32 then r.1 else dedent_all common r.1 in
      BlockValue raw (join_lines (trim_end (trim_start (r.0 ∷ lines))))
assemble raw h (splits {line} {lines} j one len) =
    let short = lines-Short raw h len in
    finish j one short (
      undent (common_indent max_int32 (line ∷ lines) == max_int32) refl short
        (common_indent-Finds max_int32 (line ∷ lines) (omega arith) short))

-- The value of a block string of less than math.MaxInt32 bytes, by relations that share nothing with
-- the code: its raw text is cut at line feeds; the lines behind the first lose the least indentation
-- of all lines that have text, the first one included (a shorter blank line is left empty); blank
-- lines are dropped at both ends and no others; the rest is joined by line feeds.
pub block_string_value-BlockValue :
    (raw : Bytes) → length raw < max_int32 → BlockValue raw (block_string_value raw)
unfolding block_string_value
block_string_value-BlockValue raw h = assemble raw h (split_lines-Splits raw)
