-- ===== src/Number/Parse.antt =====
-- src/parser.c: `_parse_number` and `_parse_decimal_number`, which choose the format.
use ckdl.Prelude.{Bool, false, ◌&&◌, ◌||◌, Option, [], ◌∷◌, ◌==◌, if◌then◌else◌, Bytes}
use ckdl.Number.{Floats, Number}
use ckdl.Number.Integer.{
  parse_decimal_integer, parse_hex_number, parse_octal_number, parse_binary_number,
}
use ckdl.Number.Float.{parse_decimal_float}

-- "Check this is an integer or a decimal".
unfoldable pub has_float_mark : Bytes → Bool
has_float_mark [] = false
has_float_mark (c ∷ s) = c == b'.' || c == b'e' || c == b'E' || has_float_mark s

-- A sign is skipped, also where nothing follows it.
unfoldable pub skip_sign : Bytes → Bytes
skip_sign [] = []
skip_sign (c ∷ s) = if c == b'-' || c == b'+' then s else c ∷ s

module _ (F : Floats) where
  open F use {Double}

  unfoldable pub parse_decimal_number : Bytes → Option (Number Double)
  parse_decimal_number number =
      if has_float_mark number then parse_decimal_float F number else parse_decimal_integer number

  -- On the text `orig`, and what stands behind its sign.
  unfoldable pub choose_format : Bytes → Bytes → Option (Number Double)
  unfolding parse_decimal_number
  choose_format orig (z ∷ x ∷ d ∷ s) =
      if z == b'0' && x == b'x'
      then parse_hex_number orig
      else if z == b'0' && x == b'o'
      then parse_octal_number orig
      else if z == b'0' && x == b'b'
      then parse_binary_number orig
      else parse_decimal_number orig
  choose_format orig s = parse_decimal_number orig

  unfoldable pub parse_number : Bytes → Option (Number Double)
  unfolding choose_format skip_sign
  parse_number number = choose_format number (skip_sign number)
