-- ===== src/Tests/Numbers.antt =====
-- src/parser.c: number formats on concrete inputs.
use ckdl.Prelude.{ℕ, true, false, none, some, codes}
use ckdl.Number.Integer.{
  parse_decimal_integer, parse_hex_number, parse_octal_number, parse_binary_number,
}
use ckdl.Number.IntegerLaws.{
  Represents, parse_decimal_integer-Represents, parse_prefixed-Represents,
}

parse_decimal_integer_example :
    Represents ℕ true (some 1239) (parse_decimal_integer (codes "-1_239"))
parse_decimal_integer_example = parse_decimal_integer-Represents ℕ (codes "-1_239")

parse_prefixed_example :
    Represents ℕ false (some 0xff9) (parse_hex_number (codes "+0xfF9"))
    × Represents ℕ false none (parse_octal_number (codes "+0xfF9"))
    × Represents ℕ false none (parse_binary_number (codes "+0xfF9"))
parse_prefixed_example = parse_prefixed-Represents ℕ (codes "+0xfF9")
