-- ===== src/Samples/Scanning.antt =====
-- The theorems on scanning and on block strings at concrete inputs.
use gqlparser.Lexer.Hex.{unhex-lt}
use gqlparser.Lexer.Str.{unhex}
use gqlparser.Lexer.Block.{block_string_value}
use gqlparser.Base.{arith, ◌<◌, Bytes, codes, refl}
use gqlparser.Lexer.BlockText.{block_string_value-BlockValue}
use gqlparser.Lexer.BlockSpec.{BlockValue}

abbrev indented : Bytes
indented = codes "\n    Hello,\n      World!\n\n    Yours,\n  "

block_string_value-BlockValue_example : BlockValue indented (block_string_value indented)
block_string_value-BlockValue_example = block_string_value-BlockValue indented (omega arith)

unhex-lt_example : 0x20ac < 65536
unfolding unhex
unhex-lt_example = unhex-lt b'2' b'0' b'a' b'C' 0x20ac refl
