-- ===== src/Parser/Fuel/Flow.antt =====
-- Parsing functions put together: what each does to the weight, on fuel `f`.
use gqlparser.Lexer.Bounds.Makers.{Valid}
use gqlparser.Parser.Fuel.Steps.{next-Ends, report-Ends, peek_pos-Ends}
use gqlparser.Parser.Fuel.Token.{
  skip-Ends, Upto-le, expect-Ends, expect_keyword-Ends, unexpected_error-Ends,
  unexpected_token-Ends,
}
use gqlparser.Parser.Fuel.Weight.{Ends, ends, Ends-bind, Ends-weaken, Upto, weight, peek-Ends}
use gqlparser.Base.{ℕ, ◌<◌, ◌≤◌, ◌-◌, suc, Bool, true, false, if◌then◌else◌, arith, ◌≡◌, Bytes}
use gqlparser.Parser.State.{
  skip, unexpected_token, report, expect, unexpected_error, expect_keyword, next, peek_pos, M,
  Parser, ◌>>=◌, return, peek, Complaint,
}
use gqlparser.Lexer.Token.{Token, Kind, eof, kind_eq}

-- On enough fuel the function ends and leaves no more to read than there was.
pub record Keeps {A : Type 0} (f : ℕ) (m : M A) : Type 0 where
  pub keep : (w : ℕ) (p : Parser) → Upto w p → w < f → Ends (λ _ q. Upto w q) (m p)

-- The same, and it brings the weight down.
pub record Consumes {A : Type 0} (f : ℕ) (m : M A) : Type 0 where
  pub eat : (w : ℕ) (p : Parser) → Upto w p → w < f → Ends (λ _ q. Upto (w - 1) q) (m p)

-- The same, where something is left to read.
pub record Starts {A : Type 0} (f : ℕ) (m : M A) : Type 0 where
  pub start : (w : ℕ) (p : Parser) → Upto w p → 1 ≤ w → w < f → Ends (λ _ q. Upto (w - 1) q) (m p)

module _ {A : Type 0} {f : ℕ} {m : M A} where
  pub Consumes-Keeps : Consumes f m → Keeps f m
  Consumes-Keeps c = record {
    keep = λ w p u h. Ends-weaken (c.eat w p u h) (λ a q x. Upto-le (omega arith) x);
  }

  pub Consumes-Starts : Consumes f m → Starts f m
  Consumes-Starts c = record { start = λ w p u one h. c.eat w p u h }

pub Keeps-return : {A : Type 0} {f : ℕ} (a : A) → Keeps f (return a)
Keeps-return a = record { keep = λ w p u h. ends u }

module _ {A B : Type 0} {f : ℕ} {m : M A} {k : A → M B} where
  pub Keeps-bind : Keeps f m → ((a : A) → Keeps f (k a)) → Keeps f (m >>= k)
  Keeps-bind x y = record {
    keep = λ w p u h. Ends-bind (x.keep w p u h) (λ a q u'. (y a).keep w q u' h);
  }

  pub Consumes-bind : Consumes f m → ((a : A) → Keeps f (k a)) → Consumes f (m >>= k)
  Consumes-bind x y = record {
    eat =
        λ w p u h. Ends-bind (x.eat w p u h) (λ a q u'. (y a).keep (w - 1) q u' (omega (arith, h)));
  }

  pub bind-Consumes : Keeps f m → ((a : A) → Consumes f (k a)) → Consumes f (m >>= k)
  bind-Consumes x y = record {
    eat = λ w p u h. Ends-bind (x.keep w p u h) (λ a q u'. (y a).eat w q u' h);
  }

  -- A token is taken on one more fuel, and then there is enough for the rest.
  pub Starts-bind : Consumes (suc f) m → ((a : A) → Keeps f (k a)) → Starts (suc f) (m >>= k)
  Starts-bind x y = record {
    start = λ w p u one h.
        Ends-bind (x.eat w p u h) (λ a q u'. (y a).keep (w - 1) q u' (omega (arith, one, h)));
  }

  pub bind-Starts : Keeps f m → ((a : A) → Starts f (k a)) → Starts f (m >>= k)
  bind-Starts x y = record {
    start = λ w p u one h. Ends-bind (x.keep w p u h) (λ a q u'. (y a).start w q u' one h);
  }

module _ {A : Type 0} {f : ℕ} {m n : M A} where
  pub Keeps-if : (b : Bool) → Keeps f m → Keeps f n → Keeps f (if b then m else n)
  Keeps-if true x y = x
  Keeps-if false x y = y

  pub Consumes-if : (b : Bool) → Consumes f m → Consumes f n → Consumes f (if b then m else n)
  Consumes-if true x y = x
  Consumes-if false x y = y

  pub Starts-if : (b : Bool) → Starts f m → Starts f n → Starts f (if b then m else n)
  Starts-if true x y = x
  Starts-if false x y = y

-- What an end for each weight says of every bound on it.
pub Ends-Keeps :
    {A : Type 0} {f : ℕ} {m : M A}
    → ((p : Parser) → Valid p.lexer → Ends (λ _ q. Upto (weight p) q) (m p))
    → Keeps f m
Ends-Keeps x = record {
  keep = λ w p u h. Ends-weaken (x p u.valid) (λ a q y. Upto-le u.weight_le y);
}

pub Ends-Consumes :
    {A : Type 0} {f : ℕ} {m : M A}
    → ((p : Parser) → Valid p.lexer → Ends (λ _ q. Upto (weight p - 1) q) (m p))
    → Consumes f m
Ends-Consumes x = record {
  eat = λ w p u h. Ends-weaken (x p u.valid) (λ a q y. Upto-le (omega (arith, u.weight_le)) y);
}

pub Fails-Consumes :
    {A : Type 0} {f : ℕ} {m : M A}
    → ((p : Parser) → Valid p.lexer → Ends (λ _ q. Upto 0 q) (m p))
    → Consumes f m
Fails-Consumes x = record {
  eat = λ w p u h. Ends-weaken (x p u.valid) (λ a q y. Upto-le (omega arith) y);
}

pub Keeps-peek : {f : ℕ} → Keeps f peek
Keeps-peek = record {
  keep = λ w p u h. Ends-weaken (peek-Ends p u.valid) (λ a q (y, _). Upto-le u.weight_le y);
}

pub Keeps-next : {f : ℕ} → Keeps f next
Keeps-next = Ends-Keeps next-Ends

pub Keeps-peek_pos : {f : ℕ} → Keeps f peek_pos
Keeps-peek_pos = Ends-Keeps peek_pos-Ends

pub Consumes-expect : {f : ℕ} (kind : Kind) → kind_eq kind eof ≡ false → Consumes f (expect kind)
Consumes-expect kind k = Ends-Consumes (λ p v. expect-Ends kind p k v)

pub Consumes-expect_keyword : {f : ℕ} (word : Bytes) → Consumes f (expect_keyword word)
Consumes-expect_keyword word = Ends-Consumes (expect_keyword-Ends word)

pub Consumes-report : {f : ℕ} (tok : Token) (c : Complaint) → Consumes f (report tok c)
Consumes-report tok c = Fails-Consumes (report-Ends tok c)

pub Consumes-unexpected_error : {f : ℕ} → Consumes f unexpected_error
Consumes-unexpected_error = Fails-Consumes unexpected_error-Ends

pub Consumes-unexpected_token : {f : ℕ} (tok : Token) → Consumes f (unexpected_token tok)
Consumes-unexpected_token tok = Fails-Consumes (unexpected_token-Ends tok)

pub Keeps-skip : {f : ℕ} (kind : Kind) → kind_eq kind eof ≡ false → Keeps f (skip kind)
Keeps-skip kind k = Ends-Keeps (λ p v. Ends-weaken (skip-Ends kind p k v) (λ b q y. y.upto))
