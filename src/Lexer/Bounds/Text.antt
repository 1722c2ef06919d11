-- ===== src/Lexer/Bounds/Text.antt =====
-- readString and readBlockString of lexer/lexer.go stay inside the input.
use gqlparser.Lexer.Bounds.Makers.{
  length-input, advance-InToken, make_error-Placed, Moves-InToken, InToken, Placed,
}
use gqlparser.Lexer.Block.{
  block_turn-Moves, block-falls, block_remaining, block_step, block_rune, read_block_string,
  block_return, triple_quote, BlockState, block_turn, close_block,
}
use gqlparser.Lexer.Str.{
  string_turn-Moves, string-falls, string_remaining, string_step, read_string, next_rune,
  write_rune, simple_escape, StringState, string_turn, escape_turn, unhex, close_string,
  unicode_escape,
}
use gqlparser.Base.{
  none, ◌++◌, repeat_post, Post-eq_inr, ◌<◌, ◌||◌, ◌&&◌, not, ltb, Option-cases, Post-intro, Option,
  ◌+◌, inl, inr, ◌==◌, drop, take, leb, starts_with, true, if_both, Bool-cases, refl, [], ◌∷◌,
  leaves, goes_on, Post, ◌⊎◌, arith, ap, Bytes, length, ◌≡◌, ◌≤◌,
}
use gqlparser.Lexer.State.{
  invalid_in_string, unterminated, advance, make_token, make_value_token, Lexer, Reading, rest,
  length-rest,
}

pub close_string-Placed :
    {o s : Lexer} (buf : Option Bytes)
    → InToken o s
    → 1 ≤ length (rest s)
    → Placed o (close_string buf s)
unfolding close_string make_token make_value_token
close_string-Placed {o} {s} buf i h = record {
  lexer = advance-InToken 1 i h;
  src = i.same_source;
  start_le = omega (arith, i.start_runes_le);
  end_le = omega (arith, i.runes_le, i.end_le, length-rest s, length-input i);
}

pub close_block-Placed :
    {o s : Lexer} (buf : Bytes) → InToken o s → 3 ≤ length (rest s) → Placed o (close_block buf s)
unfolding close_block make_value_token
close_block-Placed {o} {s} buf i h = record {
  lexer = advance-InToken 3 i h;
  src = i.same_source;
  start_le = omega (arith, i.start_runes_le);
  end_le = omega (arith, i.runes_le, i.end_le, length-rest s, length-input i);
}

pub length-starts_with : (p s : Bytes) → starts_with p s ≡ true → length p ≤ length s
unfolding starts_with
length-starts_with [] s h = omega arith
length-starts_with (c ∷ p) [] h = cc
length-starts_with (c ∷ p) (d ∷ s) h = ground (arith, length-starts_with p s)

-- `Placed`, wherever a turn leaves its loop; `inl` is settled by `Moves`.
abbrev pub LeavesPlaced : {S : Type 0} → Lexer → S ⊎ Reading → Type 0
LeavesPlaced {S} o = Post (λ (_ : S). Unit) (Placed o)

pub unicode_escape-Placed :
    {o : Lexer} (buf : Bytes) (s : Lexer) (l : Bytes)
    → InToken o s
    → 1 ≤ length (rest s)
    → LeavesPlaced o (unicode_escape buf s l)
unfolding unicode_escape
unicode_escape-Placed {o} buf s l i h =
    let i1 = advance-InToken 1 i h in
    if_both (LeavesPlaced o) (leb (length l) 6) (leaves (make_error-Placed _ i1))
      (elim (Option-cases (unhex (take 4 (drop 2 l)))) [
        | inl e ↦ rw e (leaves (make_error-Placed _ i1))
        | inr (r, e) ↦ rw e (goes_on tt)
      ])

pub escape_turn-Placed :
    {o : Lexer} (buf : Bytes) (s : Lexer) (l : Bytes)
    → InToken o s
    → 1 ≤ length (rest s)
    → LeavesPlaced o (escape_turn buf s l)
unfolding escape_turn
escape_turn-Placed buf s [] i h = leaves (make_error-Placed _ (advance-InToken 1 i h))
escape_turn-Placed {o} buf s (e ∷ l) i h =
    if_both (LeavesPlaced o) (e == b'u') (unicode_escape-Placed buf s (b'\\' ∷ e ∷ l) i h)
      (elim (Option-cases (simple_escape e)) [
        | inl q ↦ rw q (leaves (make_error-Placed _ (advance-InToken 1 i h)))
        | inr (b, q) ↦ rw q (goes_on tt)
      ])

pub string_turn-Placed :
    {o : Lexer} (p : StringState) (l : Bytes)
    → l ≡ rest p.1
    → InToken o p.1
    → LeavesPlaced o (string_turn p l)
unfolding string_turn
string_turn-Placed (buf, s) [] q i = leaves (make_error-Placed _ i)
string_turn-Placed {o} (buf, s) (r ∷ l) q i =
    let here : 1 ≤ length (rest s) = omega (arith, ap length q) in
    if_both (LeavesPlaced o) (r == b'\n' || r == b'\r') (leaves (make_error-Placed unterminated i))
      (if_both (LeavesPlaced o) (ltb r 0x20 && not (r == b'\t'))
        (leaves (make_error-Placed (invalid_in_string r) i))
        (if_both (LeavesPlaced o) (r == b'"') (leaves (close_string-Placed buf i here)) (
          if_both (LeavesPlaced o) (r == b'\\') (escape_turn-Placed _ s l i here)
            (goes_on {s = (write_rune (next_rune r l).0 buf, advance (next_rune r l).1 1 s)} tt))))

pub block_turn-Placed :
    {o : Lexer} (p : BlockState) (l : Bytes)
    → l ≡ rest p.1
    → InToken o p.1
    → LeavesPlaced o (block_turn p l)
unfolding block_turn
block_turn-Placed (buf, s) [] q i = leaves (make_error-Placed _ i)
block_turn-Placed {o} (buf, s) (r ∷ l) q i = elim (Bool-cases (starts_with triple_quote (r ∷ l))) [
  | inl h ↦ rw h (
      leaves (
        close_block-Placed buf i
          (omega (arith, ap length q, length-starts_with triple_quote (r ∷ l) h))))
  | inr h ↦ rw h (
      if_both (LeavesPlaced o)
        (ltb r 0x20 && not (r == b'\t') && not (r == b'\n') && not (r == b'\r'))
        (leaves (make_error-Placed (invalid_in_string r) i))
        (if_both (LeavesPlaced o) (starts_with (b'\\' ∷ triple_quote) (r ∷ l))
          (goes_on {s = (buf ++ triple_quote, advance 4 4 s)} tt)
          (if_both (LeavesPlaced o) (r == b'\r') (goes_on {s = block_return (buf, s) l} tt)
            (goes_on {s = block_rune (buf, s) r l} tt))))
]

pub read_string-Placed :
    {o : Lexer} (s : Lexer)
    → InToken o s
    → s.start < s.end
    → s.start_runes < s.end_runes
    → Placed o (read_string s)
unfolding read_string
read_string-Placed {o} s i h k =
    repeat_post string_step string_remaining string-falls (λ p. InToken o p.1) (Placed o)
      (λ p j.
        Post-intro (string_step p) (λ p' e. Moves-InToken (string_turn-Moves p p' (rest p.1) e) j)
          (λ r e. Post-eq_inr (string_turn-Placed p (rest p.1) refl j) e))
      (none, record s { start = s.start + 1; start_runes = s.start_runes + 1 })
      (record {
        same_source = i.same_source;
        forward = i.forward;
        end_le = i.end_le;
        runes_le = i.runes_le;
        start_le = omega arith;
        start_runes_le = omega arith;
        line_start_le = omega (arith, i.line_start_le);
      })

pub read_block_string-Placed :
    {o : Lexer} (s : Lexer)
    → InToken o s
    → s.start < s.end
    → s.start_runes < s.end_runes
    → 2 ≤ length (rest s)
    → Placed o (read_block_string s)
unfolding read_block_string
read_block_string-Placed {o} s i h k two =
    repeat_post block_step block_remaining block-falls (λ p. InToken o p.1) (Placed o)
      (λ p j.
        Post-intro (block_step p) (λ p' e. Moves-InToken (block_turn-Moves p p' (rest p.1) e) j)
          (λ r e. Post-eq_inr (block_turn-Placed p (rest p.1) refl j) e))
      ([], advance 2 2 (record s { start = s.start + 3; start_runes = s.start_runes + 3 }))
      (record {
        same_source = i.same_source;
        forward = omega (arith, i.forward);
        end_le = omega (arith, i.end_le, length-rest s, length-input i);
        runes_le = omega (arith, i.runes_le);
        start_le = omega arith;
        start_runes_le = omega arith;
        line_start_le = omega (arith, i.line_start_le);
      })
