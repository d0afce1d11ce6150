-- ===== src/Number/Integer.antt =====
-- src/parser.c: `_parse_decimal_integer`, `_parse_hex_number`, `_parse_octal_number` and
-- `_parse_binary_number`. `none` is the result `false`. The source writes the digit loop and the
-- reduction four times; here each stands once, over the format's digits and radix.
use ckdl.Prelude.{
  ℕ, ◌+◌, ◌-◌, Bool, not, ◌&&◌, ◌||◌, Option, none, some, [], ◌∷◌, ltb, within, ◌==◌, if◌then◌else◌,
  Bytes, ◌>>=◌, signed,
}
use ckdl.BigInt.{
  Ubigint, ubigint_new, ubigint_add_inplace, ubigint_multiply_inplace, ubigint_as_long_long,
  ubigint_as_string_sgn,
}
use ckdl.Number.{Number, integer, string_encoded, split_sign, starts_with_underscore}

-- The value of a character as a digit; `none` where the source jumps to `error`.
unfoldable pub decimal_digit : ℕ → Option ℕ
decimal_digit c = if ltb c b'0' || ltb b'9' c then none else some (c - b'0')

unfoldable pub hex_digit : ℕ → Option ℕ
hex_digit c =
    if within b'0' b'9' c
    then some (c - b'0')
    else if within b'a' b'f' c
    then some (c - b'a' + 0xa)
    else if within b'A' b'F' c
    then some (c - b'A' + 0xa)
    else none

unfoldable pub octal_digit : ℕ → Option ℕ
octal_digit c = if ltb c b'0' || ltb b'7' c then none else some (c - b'0')

unfoldable pub binary_digit : ℕ → Option ℕ
binary_digit c = if ltb c b'0' || ltb b'1' c then none else some (c - b'0')

module _ (digit_of : ℕ → Option ℕ) (radix : ℕ) where
  -- "scan through entire number": `n = n * radix + digit`, and an underscore is skipped.
  unfoldable pub scan_digits : Bytes → Ubigint → Option Ubigint
  scan_digits [] n = some n
  scan_digits (c ∷ s) n =
      let skip = scan_digits s n in
      let take = digit_of c >>= λ digit.
      scan_digits s (ubigint_add_inplace (ubigint_multiply_inplace n radix) digit) in
      if c == b'_' then skip else take

-- The three formats with a prefix `0x`, `0o` or `0b`: at least one character follows it, and that is
-- no underscore.
unfoldable pub after_prefix : ℕ → Bytes → Option Bytes
after_prefix letter (z ∷ x ∷ d ∷ s) =
    if z == b'0' && x == letter && not (d == b'_') then some (d ∷ s) else none
after_prefix letter s = none

module _ {D : Type 0} where
  -- "try to reduce down to long long"; the number is printed where that fails.
  unfoldable pub reduce : Bool → Ubigint → Option (Number D)
  reduce negative n = elim (ubigint_as_long_long n) [
    | some n_ll ↦ some (integer (signed negative n_ll))
    | none ↦ ubigint_as_string_sgn negative n >>= λ s. some (string_encoded s)
  ]

  unfoldable pub parse_decimal_integer : Bytes → Option (Number D)
  parse_decimal_integer number = do
    let (negative, s) = split_sign number
    n ← if starts_with_underscore s then none else scan_digits decimal_digit 10 s (ubigint_new 0)
    reduce negative n

  unfoldable pub parse_hex_number : Bytes → Option (Number D)
  parse_hex_number number = do
    let (negative, s) = split_sign number
    digits ← after_prefix b'x' s
    n ← scan_digits hex_digit 16 digits (ubigint_new 0)
    reduce negative n

  unfoldable pub parse_octal_number : Bytes → Option (Number D)
  parse_octal_number number = do
    let (negative, s) = split_sign number
    digits ← after_prefix b'o' s
    n ← scan_digits octal_digit 8 digits (ubigint_new 0)
    reduce negative n

  unfoldable pub parse_binary_number : Bytes → Option (Number D)
  parse_binary_number number = do
    let (negative, s) = split_sign number
    digits ← after_prefix b'b' s
    n ← scan_digits binary_digit 2 digits (ubigint_new 0)
    reduce negative n
