-- ===== src/Lexer/Bounds/Number.antt =====
-- readName, readComment and readNumber of lexer/lexer.go stay inside the input.
use gqlparser.Lexer.Bounds.Makers.{
  make_error-Placed, make_token-Placed, Placed, advance-InToken, InToken, Moves-InToken,
}
use gqlparser.Lexer.Number.{read_number, no_digit, read_fraction, read_exponent}
use mathlib.Core.Path.{subst}
use gqlparser.Lexer.Scan.{
  digits_turn, digits_turn-Moves, digits-falls, digits_remaining, accept_digits, digits_step,
  comment_turn-inr, comment_turn-Moves, name_turn-Moves, name-falls, comment-falls, name_step,
  comment_step, name_turn, accept_byte, skip_comment, accept_on, skip_name,
}
use gqlparser.Base.{
  repeat_post, Post-intro, ◌+◌, inl, inr, ◌==◌, false, true, if_both, Bool, Bool-cases, refl, sym,
  [], ◌∷◌, leaves, goes_on, List, Post, ◌⊎◌, arith, ap, Bytes, ◌∙◌, length, ◌≡◌, ℕ,
}
use gqlparser.Lexer.State.{back, remaining, advance, Lexer, Moves, rest}
use gqlparser.Lexer.Token.{int, float}

-- A loop that ends in a lexer.
abbrev pub Kept : Lexer → Lexer ⊎ Lexer → Type 0
Kept o = Post (InToken o) (InToken o)

pub Kept-intro :
    {o s : Lexer} (x : Lexer ⊎ Lexer)
    → InToken o s
    → ((s' : Lexer) → x ≡ inl s' → Moves s s' (rest s))
    → ((r : Lexer) → x ≡ inr r → r ≡ s)
    → Kept o x
Kept-intro (inl s') i go_on stop = goes_on (Moves-InToken (go_on s' refl) i)
Kept-intro {o} (inr r) i go_on stop = leaves (subst (InToken o) (sym (stop r refl)) i)

pub skip_comment-InToken : {o : Lexer} (s : Lexer) → InToken o s → InToken o (skip_comment s)
unfolding skip_comment
skip_comment-InToken {o} =
    repeat_post comment_step remaining comment-falls (InToken o) (InToken o) (λ s i.
      Kept-intro (comment_step s) i (λ s' e. comment_turn-Moves s s' (rest s) e)
        (λ r e. comment_turn-inr s r (rest s) e))

pub name_turn-inr : (s r : Lexer) (l : Bytes) → name_turn s l ≡ inr r → r ≡ s
unfolding name_turn
name_turn-inr s r [] e = cc
name_turn-inr s r (c ∷ cs) e = ground arith

pub skip_name-InToken : {o : Lexer} (s : Lexer) → InToken o s → InToken o (skip_name s)
unfolding skip_name
skip_name-InToken {o} = repeat_post name_step remaining name-falls (InToken o) (InToken o) (λ s i.
    Kept-intro (name_step s) i (λ s' e. name_turn-Moves s s' (rest s) e)
      (λ r e. name_turn-inr s r (rest s) e))

pub accept_on-InToken :
    {o : Lexer} (accepted : List ℕ) (l : Bytes) (s : Lexer)
    → l ≡ rest s
    → InToken o s
    → InToken o (accept_on accepted l s).1
unfolding accept_on
accept_on-InToken accepted [] s h i = i
accept_on-InToken [] (c ∷ cs) s h i = i
accept_on-InToken (a ∷ more) (c ∷ cs) s h i = elim (Bool-cases (c == a)) [
  | inl e ↦ rw e (advance-InToken 1 i (omega (arith, ap length h)))
  | inr e ↦ rw e (accept_on-InToken more (c ∷ cs) s h i)
]

pub accept_byte-InToken :
    {o s : Lexer} (accepted : List ℕ) → InToken o s → InToken o (accept_byte accepted s).1
unfolding accept_byte
accept_byte-InToken {o} {s} accepted i = accept_on-InToken accepted (rest s) s refl i

-- `n` digits were read, all of them counted.
pub record ReadDigits (o s : Lexer) (p : ℕ × Lexer) : Type 0 where
  pub inside : InToken o p.1
  pub counted : p.1 ≡ advance p.0 p.0 s

pub digits_turn-counted :
    (n : ℕ) (t : Lexer) (p' : ℕ × Lexer) (l : Bytes)
    → digits_turn (n, t) l ≡ inl p'
    → p' ≡ (n + 1, advance 1 1 t)
unfolding digits_turn
digits_turn-counted n t p' [] e = cc
digits_turn-counted n t p' (c ∷ l) e = ground arith

pub digits_turn-inr :
    (n : ℕ) (t : Lexer) (p' : ℕ × Lexer) (l : Bytes) → digits_turn (n, t) l ≡ inr p' → p' ≡ (n, t)
unfolding digits_turn
digits_turn-inr n t p' [] e = cc
digits_turn-inr n t p' (c ∷ l) e = ground arith

pub counted-suc :
    (n : ℕ) (s : Lexer) {t : Lexer} {p' : ℕ × Lexer}
    → p' ≡ (n + 1, advance 1 1 t)
    → t ≡ advance n n s
    → p'.1 ≡ advance p'.0 p'.0 s
counted-suc n s e h = ground arith

pub digits_step-ReadDigits :
    {o s : Lexer} (p : ℕ × Lexer)
    → ReadDigits o s p
    → Post (ReadDigits o s) (ReadDigits o s) (digits_step p)
digits_step-ReadDigits {o} {s} (n, t) h =
    Post-intro (digits_step (n, t))
      (λ p' e. record {
        inside = Moves-InToken (digits_turn-Moves (n, t) p' (rest t) e) h.inside;
        counted = counted-suc n s (digits_turn-counted n t p' (rest t) e) h.counted;
      })
      (λ p' e. subst (ReadDigits o s) (sym (digits_turn-inr n t p' (rest t) e)) h)

pub accept_digits-ReadDigits : {o s : Lexer} → InToken o s → ReadDigits o s (accept_digits s)
unfolding accept_digits
accept_digits-ReadDigits {o} {s} i =
    repeat_post digits_step digits_remaining digits-falls (ReadDigits o s) (ReadDigits o s)
      digits_step-ReadDigits (0, s) (record { inside = i; counted = ground arith })

pub back-advance : (n : ℕ) (s : Lexer) → back n (advance n n s) ≡ s
back-advance n s = ground arith

pub back-InToken : {o s t : Lexer} (n : ℕ) → InToken o s → t ≡ advance n n s → InToken o (back n t)
back-InToken {o} n i e = subst (InToken o) (sym (ap (back n) e ∙ back-advance n _)) i

pub no_digit-Placed : {o s : Lexer} → InToken o s → Placed o (no_digit s)
no_digit-Placed = make_error-Placed _

pub accept_digits-InToken : {o s : Lexer} → InToken o s → InToken o (accept_digits s).1
accept_digits-InToken i = (accept_digits-ReadDigits i).inside

pub read_exponent-Placed :
    {o s : Lexer} (is_float : Bool) → InToken o s → Placed o (read_exponent is_float s)
unfolding read_exponent
read_exponent-Placed {o} {s} is_float i =
    let i1 = accept_byte-InToken (b'e' ∷ b'E' ∷ []) i in
    let i3 = accept_digits-InToken (accept_byte-InToken (b'-' ∷ b'+' ∷ []) i1) in
    if_both (Placed o) _ (if_both (Placed o) _ (no_digit-Placed i3) (make_token-Placed float i3))
      (if_both (Placed o) is_float (make_token-Placed float i1) (make_token-Placed int i1))

pub read_fraction-Placed : {o s : Lexer} → InToken o s → Placed o (read_fraction s)
unfolding read_fraction
read_fraction-Placed {o} {s} i =
    let i1 = accept_byte-InToken (b'.' ∷ []) i in
    let i2 = accept_digits-InToken i1 in
    if_both (Placed o) _ (if_both (Placed o) _ (no_digit-Placed i2) (read_exponent-Placed true i2))
      (read_exponent-Placed false i1)

pub read_number-Placed : {o : Lexer} (s : Lexer) → InToken o (back 1 s) → Placed o (read_number s)
unfolding read_number
read_number-Placed {o} s i =
    let i2 = accept_byte-InToken (b'0' ∷ []) (accept_byte-InToken (b'-' ∷ []) i) in
    let d = accept_digits-ReadDigits i2 in
    if_both (Placed o) _
      (if_both (Placed o) _ (read_fraction-Placed d.inside)
        (make_error-Placed _ (back-InToken _ i2 d.counted)))
      (if_both (Placed o) _ (no_digit-Placed d.inside) (read_fraction-Placed d.inside))
