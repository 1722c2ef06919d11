-- ===== src/Lexer/Scan.antt =====
-- lexer/lexer.go: what is skipped between tokens (ws, readComment), names and digits.
use gqlparser.Base.Utf8.{decode_rune, decode_rune-pos, decode_rune-width}
use gqlparser.Base.{
  ℕ, ◌+◌, ◌<◌, ◌≤◌, ◌≡◌, refl, ◌∙◌, Bool, true, false, ◌&&◌, ◌||◌, Bytes, List, [], ◌∷◌, ◌⊎◌, inl,
  inr, ◌==◌, ltb, within, if◌then◌else◌, length, arith, repeat, repeat_ind,
}
use gqlparser.Lexer.State.{
  Moves, Moves-falls, Lexer, Reading, rest, remaining, length-rest, advance, make_token,
}
use gqlparser.Lexer.Token.{comment, name}

-- `s.line++; s.lineStartRunes = s.endRunes`
abbrev pub newline : Lexer → Lexer
newline s = record s { line = s.line + 1; line_start_runes = s.end_runes }

-- skip the following newline if it is there
abbrev pub skip_line_feed : Bytes → Lexer → Lexer
skip_line_feed [] s = s
skip_line_feed (c ∷ _) s = if c == b'\n' then advance 1 1 s else s

-- the rest of a byte order mark
abbrev pub is_mark : Bytes → Bool
is_mark (b ∷ c ∷ _) = b == 0xbb && c == 0xbf
is_mark _ = false

-- One turn of the loop of `ws`, with `s.Input[s.end:]` at hand.
unfoldable pub ws_turn : Lexer → Bytes → Lexer ⊎ Lexer
ws_turn s [] = inr s
ws_turn s (c ∷ cs) =
    if c == b'\t' || c == b' ' || c == b','
    then inl (advance 1 1 s)
    else if c == b'\n'
    then inl (newline (advance 1 1 s))
    else if c == b'\r'
    then inl (skip_line_feed cs (newline (advance 1 1 s)))
    else if c == 0xef && is_mark cs
    then inl (advance 3 1 s)
    else inr s

abbrev pub ws_step : Lexer → Lexer ⊎ Lexer
ws_step s = ws_turn s (rest s)

ws_turn-falls :
    (s s' : Lexer) (l : Bytes)
    → length l ≡ remaining s
    → ws_turn s l ≡ inl s'
    → remaining s' < remaining s
unfolding ws_turn
ws_turn-falls s s' [] h e = cc
ws_turn-falls s s' (c ∷ []) h e = ground arith
ws_turn-falls s s' (c ∷ d ∷ []) h e = ground arith
ws_turn-falls s s' (c ∷ d ∷ f ∷ l) h e = ground arith

pub ws-falls : (s s' : Lexer) → ws_step s ≡ inl s' → remaining s' < remaining s
ws-falls s s' = ws_turn-falls s s' (rest s) (length-rest s)

unfoldable pub ws : Lexer → Lexer
unfolding repeat ws_turn
ws = repeat ws_step remaining ws-falls

-- SourceCharacter but not LineTerminator
abbrev pub is_comment_rune : ℕ → Bool
is_comment_rune r = ltb 0x1f r || r == b'\t'

unfoldable pub comment_turn : Lexer → Bytes → Lexer ⊎ Lexer
comment_turn s [] = inr s
comment_turn s (c ∷ cs) =
    let (r, w) = decode_rune (c ∷ cs) in if is_comment_rune r then inl (advance w 1 s) else inr s

abbrev pub comment_step : Lexer → Lexer ⊎ Lexer
comment_step s = comment_turn s (rest s)

pub comment_turn-Moves : (s s' : Lexer) (l : Bytes) → comment_turn s l ≡ inl s' → Moves s s' l
unfolding comment_turn
comment_turn-Moves s s' [] e = cc
comment_turn-Moves s s' (c ∷ cs) e =
    ground (arith, decode_rune-pos c cs, decode_rune-width (c ∷ cs))

pub comment-falls : (s s' : Lexer) → comment_step s ≡ inl s' → remaining s' < remaining s
comment-falls s s' e = Moves-falls (comment_turn-Moves s s' (rest s) e) (length-rest s)

-- the loop of `readComment`
unfoldable pub skip_comment : Lexer → Lexer
unfolding repeat comment_turn decode_rune
skip_comment = repeat comment_step remaining comment-falls

unfoldable pub read_comment : Lexer → Reading
unfolding skip_comment make_token
read_comment s = make_token comment (skip_comment s)

-- `s'` reads the same source as `s`, and is not behind it.
pub record Follows (s s' : Lexer) : Type 0 where
  pub same_source : s'.source ≡ s.source
  pub end_le : s.end ≤ s'.end

ws_turn-Follows : (s s' : Lexer) (l : Bytes) → ws_turn s l ≡ inl s' → Follows s s'
unfolding ws_turn
ws_turn-Follows s s' [] e = cc
ws_turn-Follows s s' (c ∷ []) e = ground arith
ws_turn-Follows s s' (c ∷ d ∷ []) e = ground arith
ws_turn-Follows s s' (c ∷ d ∷ f ∷ l) e = ground arith

-- What stops `ws` is the lexer itself.
pub ws_turn-inr : (s r : Lexer) (l : Bytes) → ws_turn s l ≡ inr r → r ≡ s
unfolding ws_turn
ws_turn-inr s r [] e = cc
ws_turn-inr s r (c ∷ cs) e = ground arith

Moves-Follows : {s t : Lexer} {l : Bytes} → Moves s t l → Follows s t
Moves-Follows m = record { same_source = m.same_source; end_le = omega (arith, m.end_lt) }

Follows-trans : {s t u : Lexer} → Follows s t → Follows t u → Follows s u
Follows-trans {s} {t} {u} p q = record {
  same_source = q.same_source ∙ p.same_source;
  end_le = omega arith;
}

pub ws-Follows : (s : Lexer) → Follows s (ws s)
unfolding ws
ws-Follows s =
    repeat_ind ws_step remaining ws-falls (Follows s) (Follows s)
      (λ t t' i e. Follows-trans i (ws_turn-Follows t t' (rest t) e))
      (λ t r i e. rw (ws_turn-inr t r (rest t) e) i) s
      (record { same_source = refl; end_le = omega arith })

pub comment_turn-inr : (s r : Lexer) (l : Bytes) → comment_turn s l ≡ inr r → r ≡ s
unfolding comment_turn
comment_turn-inr s r [] e = cc
comment_turn-inr s r (c ∷ cs) e = ground arith

pub comment-Follows : (s : Lexer) → Follows s (skip_comment s)
unfolding skip_comment
comment-Follows s =
    repeat_ind comment_step remaining comment-falls (Follows s) (Follows s)
      (λ t t' i e. Follows-trans i (Moves-Follows (comment_turn-Moves t t' (rest t) e)))
      (λ t r i e. rw (comment_turn-inr t r (rest t) e) i) s
      (record { same_source = refl; end_le = omega arith })

unfoldable pub is_name_start : ℕ → Bool
is_name_start r = within b'A' b'Z' r || within b'a' b'z' r || r == b'_'

unfoldable pub is_name_rune : ℕ → Bool
is_name_rune r = within b'0' b'9' r || within b'A' b'Z' r || within b'a' b'z' r || r == b'_'

unfoldable pub name_turn : Lexer → Bytes → Lexer ⊎ Lexer
unfolding is_name_rune
name_turn s [] = inr s
name_turn s (c ∷ cs) =
    let (r, w) = decode_rune (c ∷ cs) in if is_name_rune r then inl (advance w 1 s) else inr s

abbrev pub name_step : Lexer → Lexer ⊎ Lexer
name_step s = name_turn s (rest s)

pub name_turn-Moves : (s s' : Lexer) (l : Bytes) → name_turn s l ≡ inl s' → Moves s s' l
unfolding name_turn
name_turn-Moves s s' [] e = cc
name_turn-Moves s s' (c ∷ cs) e = ground (arith, decode_rune-pos c cs, decode_rune-width (c ∷ cs))

pub name-falls : (s s' : Lexer) → name_step s ≡ inl s' → remaining s' < remaining s
name-falls s s' e = Moves-falls (name_turn-Moves s s' (rest s) e) (length-rest s)

-- the loop of `readName`
unfoldable pub skip_name : Lexer → Lexer
unfolding repeat name_turn decode_rune
skip_name = repeat name_step remaining name-falls

unfoldable pub read_name : Lexer → Reading
unfolding skip_name make_token
read_name s = make_token name (skip_name s)

-- The first accepted byte that stands at the end of what is read; `true` if one does.
unfoldable pub accept_on : List ℕ → Bytes → Lexer → Bool × Lexer
accept_on accepted [] s = (false, s)
accept_on [] (c ∷ cs) s = (false, s)
accept_on (a ∷ more) (c ∷ cs) s =
    if c == a then (true, advance 1 1 s) else accept_on more (c ∷ cs) s

-- `acceptByte`
unfoldable pub accept_byte : List ℕ → Lexer → Bool × Lexer
unfolding accept_on
accept_byte accepted s = accept_on accepted (rest s) s

unfoldable pub is_digit : ℕ → Bool
is_digit = within b'0' b'9'

unfoldable pub digits_turn : ℕ × Lexer → Bytes → (ℕ × Lexer) ⊎ (ℕ × Lexer)
unfolding is_digit
digits_turn (consumed, s) [] = inr (consumed, s)
digits_turn (consumed, s) (c ∷ cs) =
    if is_digit c then inl (consumed + 1, advance 1 1 s) else inr (consumed, s)

abbrev pub digits_step : ℕ × Lexer → (ℕ × Lexer) ⊎ (ℕ × Lexer)
digits_step p = digits_turn p (rest p.1)

abbrev pub digits_remaining : ℕ × Lexer → ℕ
digits_remaining p = remaining p.1

pub digits_turn-Moves : (p p' : ℕ × Lexer) (l : Bytes) → digits_turn p l ≡ inl p' → Moves p.1 p'.1 l
unfolding digits_turn
digits_turn-Moves (n, s) p' [] e = cc
digits_turn-Moves (n, s) p' (c ∷ cs) e = ground arith

pub digits-falls :
    (p p' : ℕ × Lexer) → digits_step p ≡ inl p' → digits_remaining p' < digits_remaining p
digits-falls p p' e = Moves-falls (digits_turn-Moves p p' (rest p.1) e) (length-rest p.1)

-- `acceptDigits`
unfoldable pub accept_digits : Lexer → ℕ × Lexer
unfolding repeat digits_turn
accept_digits s = repeat digits_step digits_remaining digits-falls (0, s)
