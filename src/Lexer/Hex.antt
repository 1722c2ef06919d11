-- ===== src/Lexer/Hex.antt =====
-- unhex of lexer/lexer.go.
use gqlparser.Base.{ℕ, ◌<◌, ◌*◌, ◌+◌, ◌≡◌, refl, none, some, [], ◌∷◌, arith, Option, Bytes}
use gqlparser.Lexer.Str.{hex_digit, unhex_from, unhex}

hex_digit-lt : (c d : ℕ) → hex_digit c ≡ some d → d < 16
unfolding hex_digit
hex_digit-lt c d h = ground arith

-- One digit is read, and the rest with it.
digit_cases :
    (o : Option ℕ) (v r : ℕ) (b : Bytes)
    → ((d : ℕ) → o ≡ some d → d < 16)
    → elim o [ none ↦ none | some d ↦ unhex_from (v * 16 + d) b ] ≡ some r
    → (d : ℕ) × (d < 16) × (unhex_from (v * 16 + d) b ≡ some r)
digit_cases none v r b small h = cc
digit_cases (some d) v r b small h = (d, small d refl, h)

unhex_from_step :
    (v c r : ℕ) (b : Bytes)
    → unhex_from v (c ∷ b) ≡ some r
    → (d : ℕ) × (d < 16) × (unhex_from (v * 16 + d) b ≡ some r)
unfolding unhex_from
unhex_from_step v c r b h = digit_cases (hex_digit c) v r b (hex_digit-lt c) h

unhex_from_nil : (v r : ℕ) → unhex_from v [] ≡ some r → v ≡ r
unfolding unhex_from
unhex_from_nil v r h = cc

-- Where unhex reads four bytes as hexadecimal digits, the rune is below 65536.
pub unhex-lt : (a b c d r : ℕ) → unhex (a ∷ b ∷ c ∷ d ∷ []) ≡ some r → r < 65536
unfolding unhex
unhex-lt a b c d r h =
    let (x, x_lt, h1) = unhex_from_step 0 a r (b ∷ c ∷ d ∷ []) h in
    let (y, y_lt, h2) = unhex_from_step (0 * 16 + x) b r (c ∷ d ∷ []) h1 in
    let (z, z_lt, h3) = unhex_from_step ((0 * 16 + x) * 16 + y) c r (d ∷ []) h2 in
    let (w, w_lt, h4) = unhex_from_step (((0 * 16 + x) * 16 + y) * 16 + z) d r [] h3 in
    omega (arith, x_lt, y_lt, z_lt, w_lt, unhex_from_nil _ r h4)
