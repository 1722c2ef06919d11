-- ===== src/Lexer/Number.antt =====
-- lexer/lexer.go: readNumber.
use gqlparser.Base.{Bool, true, false, [], ◌∷◌, ◌==◌, if◌then◌else◌}
use gqlparser.Lexer.Scan.{accept_byte, accept_digits}
use gqlparser.Lexer.State.{
  Lexer, Reading, digit_after_zero, expected_digit, back, describe_next, make_token, make_error,
}
use gqlparser.Lexer.Token.{int, float}

-- "expected digit but got"
abbrev pub no_digit : Lexer → Reading
no_digit s = make_error (expected_digit (describe_next s)) s

-- From the exponent on; the flag is `float`, so far.
unfoldable pub read_exponent : Bool → Lexer → Reading
read_exponent is_float s =
    let (exponent, s1) = accept_byte (b'e' ∷ b'E' ∷ []) s in
    let (_, s2) = accept_byte (b'-' ∷ b'+' ∷ []) s1 in
    let (consumed, s3) = accept_digits s2 in
    if exponent
    then (if consumed == 0 then no_digit s3 else make_token float s3)
    else if is_float
    then make_token float s1
    else make_token int s1

-- From the decimal point on.
unfoldable pub read_fraction : Lexer → Reading
read_fraction s =
    let (point, s1) = accept_byte (b'.' ∷ []) s in
    let (consumed, s2) = accept_digits s1 in
    if point
    then (if consumed == 0 then no_digit s2 else read_exponent true s2)
    else read_exponent false s1

-- `readNumber`, with the first byte read already.
unfoldable pub read_number : Lexer → Reading
unfolding read_fraction read_exponent accept_byte accept_digits make_token make_error describe_next
read_number s =
    let (_, s1) = accept_byte (b'-' ∷ []) (back 1 s) in
    let (zero_first, s2) = accept_byte (b'0' ∷ []) s1 in
    let (consumed, s3) = accept_digits s2 in
    if zero_first
    then (if consumed == 0
        then read_fraction s3
        else make_error (digit_after_zero (describe_next (back consumed s3))) (back consumed s3))
    else if consumed == 0
    then no_digit s3
    else read_fraction s3
