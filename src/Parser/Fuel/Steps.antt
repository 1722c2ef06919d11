-- ===== src/Parser/Fuel/Steps.antt =====
-- next, error and peekPos of parser/parser.go: how far they bring the weight down.
use mathlib.Core.Path.{subst}
use gqlparser.Parser.Fuel.Weight.{
  Ends-weaken, state, weight, Upto, Ends, ends, Peeked, peek_on-Upto, is_heavy,
  read_token-remaining, one_le_if,
}
use mathlib.Core.Bool.{true≢false}
use gqlparser.Lexer.Bounds.Token.{read_token-Valid}
use gqlparser.Lexer.Read.{read_token}
use gqlparser.Lexer.Bounds.Makers.{Valid}
use gqlparser.Gqlerror.{Error}
use gqlparser.Lexer.State.{remaining, Lexer}
use gqlparser.Lexer.Token.{eof, kind_eq, Token}
use gqlparser.Parser.State.{
  Complaint, report, peek_pos, report_on, next, next_on, fault_of, Fault, Parser, peek_on,
}
use gqlparser.Base.{
  sym, ◌≤◌, ◌-◌, refl, none, some, true, false, ◌+◌, ap, ◌*◌, arith, Bool, ◌≡◌, Option, ℕ,
}

fault_of-weight :
    (l : Lexer) (pe : Option Error) (b : Bool) (t pt : Token) (e : Option Error)
    → b ≡ false
    → weight (state l (fault_of e) b t pe pt) ≤ 2 * remaining l + 1
unfolding weight
fault_of-weight l pe true t pt e h = cc
fault_of-weight l pe false t pt none h = omega arith
fault_of-weight l pe false t pt (some e) h = omega arith

next_on-Upto :
    (l : Lexer) (e : Option Fault) (b : Bool) (t : Token) (pe : Option Error) (pr : Token)
    → Valid l
    → Upto (weight (state l e b t pe pr)) (next_on e (state l e b t pe pr)).1
unfolding weight next_on
next_on-Upto l (some e) b t pe pr v = record { weight_le = omega arith; valid = v }
next_on-Upto l none true t pe pr v = record {
  weight_le = omega (arith, fault_of-weight l pe false t t pe refl, one_le_if (is_heavy t.kind pe));
  valid = v;
}
next_on-Upto l none false t pe pr v = record {
  weight_le = omega (
    arith,
    read_token-remaining l v,
    fault_of-weight (read_token l).lexer pe false t (read_token l).token (read_token l).err refl,
  );
  valid = read_token-Valid l v;
}

pub next-Ends : (p : Parser) → Valid p.lexer → Ends (λ tok q. Upto (weight p) q) (next p)
unfolding next
next-Ends p v = ends (next_on-Upto p.lexer p.err p.peeked p.peek_token p.peek_error p.prev v)

-- Taking a token that is not the end of the input brings the weight down.
next_on-Peeked :
    (l : Lexer) (e : Option Fault) (b : Bool) (t : Token) (pe : Option Error) (pr : Token)
    (tok : Token)
    → Valid l
    → Peeked tok (state l e b t pe pr)
    → kind_eq tok.kind eof ≡ false
    → Upto (weight (state l e b t pe pr) - 1) (next_on e (state l e b t pe pr)).1
unfolding weight next_on Peeked peek_on is_heavy
next_on-Peeked l (some e) b t pe pr tok v h k = record { weight_le = omega arith; valid = v }
next_on-Peeked l none true t none pr tok v h k =
    let same : t ≡ tok = ap (λ x. x.0) h in
    record { weight_le = rw (same, k) (omega arith); valid = v }
next_on-Peeked l none true t (some pe) pr tok v h k = record { weight_le = omega arith; valid = v }
next_on-Peeked l none false t pe pr tok v h k = absurd (true≢false (ap (λ x. x.1.peeked) h))

pub next-Peeked :
    (tok : Token) (p : Parser)
    → Valid p.lexer
    → Peeked tok p
    → kind_eq tok.kind eof ≡ false
    → Ends (λ t q. Upto (weight p - 1) q) (next p)
unfolding next
next-Peeked tok p v h k =
    ends (next_on-Peeked p.lexer p.err p.peeked p.peek_token p.peek_error p.prev tok v h k)

report_on-Upto :
    (l : Lexer) (e : Option Fault) (b : Bool) (t : Token) (pe : Option Error) (pr : Token)
    (tok : Token) (c : Complaint)
    → Valid l
    → Upto 0 (report_on e tok c (state l e b t pe pr))
unfolding weight report_on
report_on-Upto l (some e) b t pe pr tok c v = record { weight_le = omega arith; valid = v }
report_on-Upto l none b t pe pr tok c v = record { weight_le = omega arith; valid = v }

-- Once an error is reported nothing is left to do.
pub report-Ends :
    (tok : Token) (c : Complaint) (p : Parser)
    → Valid p.lexer
    → Ends (λ u q. Upto 0 q) (report tok c p)
unfolding report
report-Ends tok c p v =
    ends (report_on-Upto p.lexer p.err p.peeked p.peek_token p.peek_error p.prev tok c v)

peek_pos_cases :
    (l : Lexer) (e : Option Fault) (b : Bool) (t : Token) (pe : Option Error) (pr : Token)
    → Valid l
    → Ends (λ pos q. Upto (weight (state l e b t pe pr)) q) (peek_pos (state l e b t pe pr))
unfolding peek_pos
peek_pos_cases l (some e) b t pe pr v = ends (record { weight_le = omega arith; valid = v })
peek_pos_cases l none b t pe pr v = ends (peek_on-Upto l none b t pe pr v)

pub peek_pos-Ends : (p : Parser) → Valid p.lexer → Ends (λ pos q. Upto (weight p) q) (peek_pos p)
peek_pos-Ends p v = peek_pos_cases p.lexer p.err p.peeked p.peek_token p.peek_error p.prev v

peek_pos_at :
    (l : Lexer) (e : Option Fault) (b : Bool) (t : Token) (pe : Option Error) (pr : Token)
    (tok : Token)
    → Peeked tok (state l e b t pe pr)
    → Ends (λ pos q. q ≡ state l e b t pe pr) (peek_pos (state l e b t pe pr))
unfolding peek_pos Peeked peek_on
peek_pos_at l (some e) b t pe pr tok h = ends refl
peek_pos_at l none b t pe pr tok h = ends (ap (λ x. x.1) h)

pub peek_pos-Peeked : (tok : Token) (p : Parser) → Peeked tok p → Ends (λ pos q. q ≡ p) (peek_pos p)
peek_pos-Peeked tok p = peek_pos_at p.lexer p.err p.peeked p.peek_token p.peek_error p.prev tok

-- The position of a token that is read ahead leaves it so.
pub pos-Peeked :
    (tok : Token) (w : ℕ) (p : Parser)
    → Peeked tok p
    → Upto w p
    → Ends (λ _ q. Peeked tok q × Upto w q) (peek_pos p)
pos-Peeked tok w p pk u =
    Ends-weaken (peek_pos-Peeked tok p pk)
      (λ pos q e. subst (λ x. Peeked tok x × Upto w x) (sym e) (pk, u))
