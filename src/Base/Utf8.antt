-- ===== src/Base/Utf8.antt =====
-- Go's `unicode/utf8` and `string(rune)`: the first rune of a string with its width in bytes, and
-- the bytes of a rune. An invalid sequence is the replacement rune, one byte wide.
use mathlib.Core.Path.{◌≡◌}
use Prim.Native.Nat.{◌<◌, ℕ, ◌+◌, ◌*◌, ◌/◌, ◌%◌, ◌≤◌}
use mathlib.Core.Bool.{Bool, ◌&&◌, ◌||◌}
use mathlib.Core.List.{[], ◌∷◌}
use native.Mathlib.Omega.{arith}
use gqlparser.Base.Lists.{length}
use gqlparser.Base.Tests.{◌==◌, ltb, within, if◌then◌else◌}
use gqlparser.Base.Text.{Bytes}

abbrev pub rune_error : ℕ
rune_error = 0xfffd

abbrev invalid : ℕ × ℕ
invalid = (rune_error, 1)

-- The range of the second byte, by the first of a sequence of three or four.
abbrev second_ok : ℕ → ℕ → Bool
second_ok a b =
    within (if a == 0xe0 then 0xa0 else if a == 0xf0 then 0x90 else 0x80)
      (if a == 0xed then 0x9f else if a == 0xf4 then 0x8f else 0xbf) b

decode_two : ℕ → Bytes → ℕ × ℕ
decode_two a (b ∷ _) = if within 0x80 0xbf b then (a % 32 * 64 + b % 64, 2) else invalid
decode_two a _ = invalid

decode_three : ℕ → Bytes → ℕ × ℕ
decode_three a (b ∷ c ∷ _) =
    if second_ok a b && within 0x80 0xbf c
    then (a % 16 * 4096 + b % 64 * 64 + c % 64, 3)
    else invalid
decode_three a _ = invalid

decode_four : ℕ → Bytes → ℕ × ℕ
decode_four a (b ∷ c ∷ d ∷ _) =
    if second_ok a b && within 0x80 0xbf c && within 0x80 0xbf d
    then (a % 8 * 262144 + b % 64 * 4096 + c % 64 * 64 + d % 64, 4)
    else invalid
decode_four a _ = invalid

-- `utf8.DecodeRuneInString`
unfoldable pub decode_rune : Bytes → ℕ × ℕ
unfolding decode_two decode_three decode_four
decode_rune [] = (rune_error, 0)
decode_rune (a ∷ s) =
    if ltb a 0x80
    then (a, 1)
    else if ltb a 0xc2
    then invalid
    else if ltb a 0xe0
    then decode_two a s
    else if ltb a 0xf0
    then decode_three a s
    else if ltb a 0xf5
    then decode_four a s
    else invalid

abbrev pub is_surrogate : ℕ → Bool
is_surrogate = within 0xd800 0xdfff

-- `utf8.AppendRune` on an empty slice; `string(r)` and `bytes.Buffer.WriteRune` are the same.
unfoldable pub encode_rune : ℕ → Bytes
encode_rune r =
    if ltb r 0x80
    then r ∷ []
    else if ltb r 0x800
    then (0xc0 + r / 64) ∷ (0x80 + r % 64) ∷ []
    else if is_surrogate r || ltb 0x10ffff r
    then 0xef ∷ 0xbf ∷ 0xbd ∷ []
    else if ltb r 0x10000
    then (0xe0 + r / 4096) ∷ (0x80 + r / 64 % 64) ∷ (0x80 + r % 64) ∷ []
    else (0xf0 + r / 262144) ∷ (0x80 + r / 4096 % 64) ∷ (0x80 + r / 64 % 64) ∷ (0x80 + r % 64) ∷ []

-- A rune is never wider than the string that it is read from.
pub decode_rune-width : (s : Bytes) → (decode_rune s).1 ≤ length s
unfolding decode_rune
decode_rune-width [] = omega arith
decode_rune-width (a ∷ []) = ground arith
decode_rune-width (a ∷ b ∷ []) = ground arith
decode_rune-width (a ∷ b ∷ c ∷ []) = ground arith
decode_rune-width (a ∷ b ∷ c ∷ d ∷ s) = ground arith

-- A string that is not empty has a rune of at least one byte.
pub decode_rune-pos : (a : ℕ) (s : Bytes) → 1 ≤ (decode_rune (a ∷ s)).1
unfolding decode_rune
decode_rune-pos a [] = ground arith
decode_rune-pos a (b ∷ []) = ground arith
decode_rune-pos a (b ∷ c ∷ []) = ground arith
decode_rune-pos a (b ∷ c ∷ d ∷ s) = ground arith

-- A byte below 0x80 is a rune; no other byte begins such a rune.
pub decode_rune_ascii : (c : ℕ) (s : Bytes) → c < 0x80 → decode_rune (c ∷ s) ≡ (c, 1)
unfolding decode_rune
decode_rune_ascii c s h = ground arith

pub decode_rune_high : (c : ℕ) (s : Bytes) → 0x80 ≤ c → 0x80 ≤ (decode_rune (c ∷ s)).0
unfolding decode_rune
decode_rune_high c [] h = ground arith
decode_rune_high c (b ∷ []) h = ground arith
decode_rune_high c (b ∷ d ∷ []) h = ground arith
decode_rune_high c (b ∷ d ∷ e ∷ s) h = ground arith
