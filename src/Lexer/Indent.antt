-- ===== src/Lexer/Indent.antt =====
-- lexer/blockstring.go: the indentation that is found and taken away.
use gqlparser.Base.{Bool, ltb→lt, ==_iff, List}
use gqlparser.Lexer.Block.{max_int32}
use gqlparser.Base.{
  List, inl, inr, drop, ltb, ◌&&◌, ◌==◌, if◌then◌else◌, ◌≤◌, ◌⊎◌, length, zero, suc, true, false,
  Bool-cases, Every, nothing, each_one,
}
use gqlparser.Lexer.Block.{common_indent, dedent, dedent_all, max_int32, leading_whitespace}
use gqlparser.Lexer.BlockSpec.{
  text_here, text_behind, Indented, blank, deep, OneHas, this_has, later_has, Strips, strips_none,
  strips_one, Dedents, no_lines, stripped, emptied,
}
use mathlib.Core.Path.{subst}
use gqlparser.Base.{
  ℕ, ◌+◌, ◌<◌, ◌≡◌, ◌⊎◌, inl, inr, ◌==◌, ==_iff, true, false, Bool-cases, Bytes, [], ◌∷◌, length,
  refl, sym, arith,
}
use gqlparser.Lexer.Block.{max_int32, is_blank, leading_from, leading_whitespace, is_blank_line}
use gqlparser.Lexer.BlockSpec.{
  IsBlank, space, tab, NotBlank, not_blank, BlankLine, TextAt, text_here, text_behind,
}
use gqlparser.Base.{nothing, each_one}

-- Go's int32 can count the bytes of the line.
unfoldable pub Short : Bytes → Type 0
Short line = length line < max_int32

is_blank-cases : (c : ℕ) → ((is_blank c ≡ true) × IsBlank c) ⊎ ((is_blank c ≡ false) × NotBlank c)
is_blank-cases c = elim (Bool-cases (c == b' ')) [
  | inl e ↦ inl (rw e refl, subst IsBlank (sym ((==_iff c b' ').0 e)) space)
  | inr e ↦ elim (Bool-cases (c == b'\t')) [
    | inl f ↦ inl (rw (e, f) refl, subst IsBlank (sym ((==_iff c b'\t').0 f)) tab)
    | inr f ↦ inr (
      rw (e, f) refl,
      not_blank (λ same. cc (e, (==_iff c b' ').1 same)) (λ same. cc (f, (==_iff c b'\t').1 same)),
    )
  ]
]

-- What `leadingWhitespace` finds.
pub data Leading (i : ℕ) (s : Bytes) (n : ℕ) : Type 0 where
  blank_all : BlankLine s → n ≡ max_int32 → Leading i s n
  text_found : {k : ℕ} → TextAt k s → n ≡ i + k → Leading i s n

leading_from-Leading : (i : ℕ) (s : Bytes) → Leading i s (leading_from i s)
unfolding leading_from
leading_from-Leading i [] = blank_all nothing refl
leading_from-Leading i (c ∷ s) = elim (is_blank-cases c) [
  | inl (e, b) ↦ rw e (behind b (leading_from-Leading (i + 1) s))
  | inr (e, n) ↦ rw e (text_found (text_here n) (omega arith))
]
  where
    behind : {n : ℕ} → IsBlank c → Leading (i + 1) s n → Leading i (c ∷ s) n
    behind b (blank_all all e) = blank_all (each_one b all) e
    behind b (text_found t e) = text_found (text_behind b t) (omega (arith, e))

pub leading_whitespace-Leading : (s : Bytes) → Leading 0 s (leading_whitespace s)
unfolding leading_whitespace
leading_whitespace-Leading s = leading_from-Leading 0 s

pub TextAt-lt : {k : ℕ} {s : Bytes} → TextAt k s → k < length s
TextAt-lt (text_here n) = omega arith
TextAt-lt (text_behind b t) = omega (arith, TextAt-lt t)

below_test : (n : ℕ) → n < max_int32 → (n == max_int32) ≡ false
below_test n h = ground (arith, h)

-- `isBlank`-tests of lines that int32 can count.
pub is_blank_line-cases :
    (line : Bytes)
    → Short line
    → ((is_blank_line line ≡ true) × BlankLine line)
      ⊎ ((is_blank_line line ≡ false) × ((k : ℕ) × TextAt k line))
unfolding is_blank_line Short
is_blank_line-cases line short = go (leading_whitespace-Leading line)
  where
    go :
        {n : ℕ}
        → Leading 0 line n
        → (((n == max_int32) ≡ true) × BlankLine line)
          ⊎ (((n == max_int32) ≡ false) × ((k : ℕ) × TextAt k line))
    go (blank_all b e) = inl ((==_iff _ max_int32).1 e, b)
    go {n} (text_found {k} t e) = inr (below_test n (omega (arith, TextAt-lt t, short, e)), (k, t))

-- What the loop over the lines finds from the least indentation so far.
pub data Finds (common : ℕ) (lines : List Bytes) (r : ℕ) : Type 0 where
  finds :
      r ≤ common
      → Every (Indented r) lines
      → (r ≡ common) ⊎ OneHas (TextAt r) lines
      → Finds common lines r

any_depth : {line : Bytes} → Leading 0 line (leading_whitespace line) → Indented 0 line
any_depth (blank_all b e) = blank b
any_depth (text_found t e) = deep t (omega arith)

all_at_zero : (lines : List Bytes) → Every (Indented 0) lines
all_at_zero [] = nothing
all_at_zero (line ∷ lines) =
    each_one (any_depth (leading_whitespace-Leading line)) (all_at_zero lines)

skip_line :
    {common r : ℕ} {line : Bytes} {lines : List Bytes}
    → ((n : ℕ) → n ≤ common → Indented n line)
    → Finds common lines r
    → Finds common (line ∷ lines) r
skip_line here (finds le all (inl same)) = finds le (each_one (here _ le) all) (inl same)
skip_line here (finds le all (inr one)) = finds le (each_one (here _ le) all) (inr (later_has one))

take_line :
    {common k r : ℕ} {line : Bytes} {lines : List Bytes}
    → TextAt k line
    → k < common
    → Finds k lines r
    → Finds common (line ∷ lines) r
take_line {line} t h (finds le all (inl same)) =
    finds (omega (arith, le, h)) (each_one (deep t le) all)
      (inr (this_has (subst (λ n. TextAt n line) (sym same) t)))
take_line t h (finds le all (inr one)) =
    finds (omega (arith, le, h)) (each_one (deep t le) all) (inr (later_has one))

not_lower : (k l common n : ℕ) → k < l → (ltb k l && ltb k common) ≡ false → n ≤ common → n ≤ k
not_lower k l common n h e le = ground (arith, h, e, le)

is_lower : (k l common : ℕ) → (ltb k l && ltb k common) ≡ true → (k < l) × (k < common)
is_lower k l common e = ground (arith, e)

-- One turn of the loop, by the outcome of its two tests.
turn-Finds :
    {common indent : ℕ} {line : Bytes} {lines : List Bytes} (lower at_zero : Bool)
    → Short line
    → common ≤ max_int32
    → Leading 0 line indent
    → (ltb indent (length line) && ltb indent common) ≡ lower
    → (indent == 0) ≡ at_zero
    → ((c : ℕ) → c ≤ max_int32 → Finds c lines (common_indent c lines))
    → Finds common
        (line ∷ lines)
        (if lower && at_zero then 0 else common_indent (if lower then indent else common) lines)
unfolding Short
turn-Finds {common} false z short h (blank_all b e) low zero_test rest =
    skip_line (λ n le. blank b) (rest common h)
turn-Finds {common} {indent} {line} false z short h (text_found {k} t e) low zero_test rest =
    let same : indent ≡ k = omega (arith, e) in
    skip_line
      (λ n le. deep t (
        subst (λ x. n ≤ x) same
          (not_lower indent (length line) common n (omega (arith, TextAt-lt t, e)) low le)))
      (rest common h)
turn-Finds {common} {indent} {line} true z short h (blank_all b e) low zero_test rest =
    let (lt, lc) = is_lower indent (length line) common low in
    elim (impossible (length line) indent short e lt) [ ]
  where
    impossible : (l n : ℕ) → l < max_int32 → n ≡ max_int32 → n < l → ⊥
    impossible l n short e lt = omega (arith, short, e, lt)
turn-Finds {common} {indent} {line} {lines} true true short h (text_found {k} t e) low zero_test
      rest =
    let first : k ≡ 0 = omega (arith, e, (==_iff indent 0).0 zero_test) in
    finds (omega arith) (all_at_zero (line ∷ lines))
      (inr (this_has (subst (λ n. TextAt n line) first t)))
turn-Finds {common} {indent} {line} true false short h (text_found {k} t e) low zero_test rest =
    let (lt, lc) = is_lower indent (length line) common low in
    let same : k ≡ indent = omega (arith, e) in
    take_line (subst (λ n. TextAt n line) same t) lc (rest indent (omega (arith, lc, h)))

pub common_indent-Finds :
    (common : ℕ) (lines : List Bytes)
    → common ≤ max_int32
    → Every Short lines
    → Finds common lines (common_indent common lines)
unfolding common_indent
common_indent-Finds common [] h short = finds (omega arith) nothing (inl refl)
common_indent-Finds common (line ∷ lines) h (each_one s short) =
    turn-Finds (ltb (leading_whitespace line) (length line) && ltb (leading_whitespace line) common)
      (leading_whitespace line == 0) s h (leading_whitespace-Leading line) refl refl
      (λ c le. common_indent-Finds c lines le short)

-- As many blanks as are asked for are there to be taken away.
blank-Strips :
    (c : ℕ) (line : Bytes) → BlankLine line → c ≤ length line → Strips c line (drop c line)
blank-Strips zero line b h = strips_none
blank-Strips (suc c) [] b h = elim (not_below c h) [ ]
  where
    not_below : (c : ℕ) → suc c ≤ 0 → ⊥
    not_below c h = omega (arith, h)
blank-Strips (suc c) (x ∷ line) (each_one b bs) h =
    strips_one b (blank-Strips c line bs (omega (arith, h)))

text-Strips : (c : ℕ) {k : ℕ} {line : Bytes} → TextAt k line → c ≤ k → Strips c line (drop c line)
text-Strips zero t h = strips_none
text-Strips (suc c) (text_here n) h = elim (not_below c h) [ ]
  where
    not_below : (c : ℕ) → suc c ≤ 0 → ⊥
    not_below c h = omega (arith, h)
text-Strips (suc c) (text_behind b t) h = strips_one b (text-Strips c t (omega (arith, h)))

dedent_cases :
    {c : ℕ} {line : Bytes} {lines rest : List Bytes} (short : Bool)
    → ltb (length line) c ≡ short
    → Indented c line
    → Dedents c lines rest
    → Dedents c (line ∷ lines) ((if short then [] else drop c line) ∷ rest)
dedent_cases {c} {line} true e (blank b) d = emptied b (ltb→lt (length line) c e) d
dedent_cases {c} {line} true e (deep t le) d =
    elim (apart (length line) c _ (ltb→lt (length line) c e) (TextAt-lt t) le) [ ]
  where
    apart : (l c k : ℕ) → l < c → k < l → c ≤ k → ⊥
    apart l c k h h' h'' = omega (arith, h, h', h'')
dedent_cases {c} {line} false e (blank b) d =
    stripped (blank-Strips c line b (long (length line) c e)) d
  where
    long : (l c : ℕ) → ltb l c ≡ false → c ≤ l
    long l c e = ground (arith, e)
dedent_cases {c} {line} false e (deep t le) d = stripped (text-Strips c t le) d

pub dedent_all-Dedents :
    (c : ℕ) {lines : List Bytes} → Every (Indented c) lines → Dedents c lines (dedent_all c lines)
unfolding dedent_all dedent
dedent_all-Dedents c {lines = []} nothing = no_lines
dedent_all-Dedents c {lines = line ∷ lines} (each_one i is) =
    dedent_cases (ltb (length line) c) refl i (dedent_all-Dedents c is)

pub undented : (lines : List Bytes) → Dedents 0 lines lines
undented [] = no_lines
undented (line ∷ lines) = stripped strips_none (undented lines)
