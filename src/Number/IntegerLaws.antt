-- ===== src/Number/IntegerLaws.antt =====
-- src/parser.c: the four integer formats against numerals of unbounded numbers.
use ckdl.Prelude.{
  ℕ, ◌+◌, ◌*◌, ◌<◌, ◌≡◌, refl, ap, ◌∙◌, subst, codes, inl, inr, arith, Bool, true, false, Option,
  none, some, [], ◌∷◌, ◌==◌, if◌then◌else◌, Bool-cases, Option-cases, Bytes, ◌>>=◌, All, signed,
}
use ckdl.BigInt.{Ubigint, ubigint_new, ubigint_add_inplace, ubigint_multiply_inplace, digit_base}
use ckdl.BigInt.Value.{value, IsNormal, add_inplace_lem, multiply_inplace_lem}
use ckdl.BigInt.Print.{
  fits_long_long, spell, IsDecimal, NoLeadingZero, as_long_long_lem, as_string_sgn_lem,
}
use ckdl.Number.{Number, integer, string_encoded, split_sign, starts_with_underscore}
use ckdl.Number.Spelling.{
  sign_and_rest, no_underscore, behind_prefix, decimal_value, hex_value, octal_value, binary_value,
  decimal_digit-value, hex_digit-value, octal_digit-value, binary_digit-value,
  split_sign-sign_and_rest, starts_with_underscore-no_underscore, after_prefix-behind_prefix,
}
use ckdl.Number.Integer.{
  decimal_digit, hex_digit, octal_digit, binary_digit, scan_digits, reduce, parse_decimal_integer,
  after_prefix, parse_hex_number, parse_octal_number, parse_binary_number,
}

-- The number that the digits of `s` spell behind `acc`, with no bound; `none` at a character that is
-- neither a digit nor an underscore.
abbrev pub numeral : (ℕ → Option ℕ) → ℕ → ℕ → Bytes → Option ℕ
numeral digit_of radix acc [] = some acc
numeral digit_of radix acc (c ∷ s) =
    let skip = numeral digit_of radix acc s in
    let take = digit_of c >>= λ d. numeral digit_of radix (acc * radix + d) s in
    if c == b'_' then skip else take

abbrev Agrees : Option ℕ → Option Ubigint → Type 0
Agrees none r = r ≡ none
Agrees (some v) r = (n : Ubigint) × (r ≡ some n) × IsNormal n × (value n ≡ v)

-- Every digit of the format is below its radix, which is a 32-bit number.
record IsFormat (digit_of : ℕ → Option ℕ) (radix : ℕ) : Type 0 where
  positive : 0 < radix
  small : radix < digit_base
  below : (c d : ℕ) → digit_of c ≡ some d → d < radix

module _ (digit_of : ℕ → Option ℕ) (radix : ℕ) (format : IsFormat digit_of radix) where
  scan_digits-Agrees :
      (s : Bytes) (n : Ubigint)
      → IsNormal n
      → Agrees (numeral digit_of radix (value n) s) (scan_digits digit_of radix s n)
  unfolding scan_digits
  scan_digits-Agrees [] n h = (n, refl, h, refl)
  scan_digits-Agrees (c ∷ s) n h = elim (Bool-cases (c == b'_')) [
    | inl e ↦ rw e (scan_digits-Agrees s n h)
    | inr e ↦ rw e (elim (Option-cases (digit_of c)) [
      | inl bad ↦ rw bad refl
      | inr (d, good) ↦
          let small = format.below c d good in
          let (product, normal) = multiply_inplace_lem n radix h format.positive format.small in
          let (total, normal') =
            add_inplace_lem (ubigint_multiply_inplace n radix) d normal
              (omega (arith, small, format.small)) in
          let same : value n * radix + d
              ≡ value (ubigint_add_inplace (ubigint_multiply_inplace n radix) d) =
            omega (arith, total, product) in
          rw (good, same)
            (scan_digits-Agrees s (ubigint_add_inplace (ubigint_multiply_inplace n radix) d)
              normal')
    ])
  ]

-- How the magnitude `v` under a sign is represented: by a `long long` where `fits_long_long` says so, else
-- by its shortest decimal text.
pub data Denotes {D : Type 0} (negative : Bool) (v : ℕ) : Number D → Type 0 where
  as_integer : fits_long_long v ≡ true → Denotes negative v (integer (signed negative v))
  as_text :
      (s : Bytes)
      → fits_long_long v ≡ false
      → spell 0 s ≡ v
      → All IsDecimal s
      → NoLeadingZero s
      → Denotes negative v (string_encoded (if negative then b'-' ∷ s else s))

new-IsNormal : IsNormal (ubigint_new 0)
new-IsNormal = (omega arith, tt, tt)

decimal-IsFormat : IsFormat decimal_digit 10
unfolding decimal_digit
decimal-IsFormat = record {
  positive = omega arith;
  small = omega arith;
  below = λ c d h. ground arith;
}

hex-IsFormat : IsFormat hex_digit 16
unfolding hex_digit
hex-IsFormat = record { positive = omega arith; small = omega arith; below = λ c d h. ground arith }

octal-IsFormat : IsFormat octal_digit 8
unfolding octal_digit
octal-IsFormat = record {
  positive = omega arith;
  small = omega arith;
  below = λ c d h. ground arith;
}

binary-IsFormat : IsFormat binary_digit 2
unfolding binary_digit
binary-IsFormat = record {
  positive = omega arith;
  small = omega arith;
  below = λ c d h. ground arith;
}

some-same : {A : Type 0} {a b : A} → some a ≡ some b → a ≡ b
some-same e = grind arith

bind_if :
    {A B C : Type 0} (b : Bool) (a : A) (f : A → Option B) (k : B → Option C)
    → ((if b then none else some a) >>= λ x. f x >>= k) ≡ ((if b then none else f a) >>= k)
bind_if true a f k = refl
bind_if false a f k = refl

bind_same :
    {A B : Type 0} {o o' : Option A} {f g : A → Option B}
    → o ≡ o'
    → ((a : A) → f a ≡ g a)
    → (o >>= f) ≡ (o' >>= g)
bind_same {o = none} {o' = none} e h = refl
bind_same {o = some a} {o' = some b} {f = f} e h = ap f (some-same e) ∙ h b
bind_same {o = none} {o' = some b} e h = ground arith
bind_same {o = some a} {o' = none} e h = ground arith

module _ (D : Type 0) where
  abbrev pub Represents : Bool → Option ℕ → Option (Number D) → Type 0
  Represents negative none r = r ≡ none
  Represents negative (some v) r = (n : Number D) × (r ≡ some n) × Denotes negative v n

  reduce-Denotes :
      (negative : Bool) (n : Ubigint)
      → IsNormal n
      → (r : Number D) × (reduce negative n ≡ some r) × Denotes negative (value n) r
  unfolding reduce
  reduce-Denotes negative n h = elim (Bool-cases (fits_long_long (value n))) [
    | inl e ↦
        (integer (signed negative (value n)), rw (as_long_long_lem n h, e, reduce), as_integer e)
    | inr e ↦
        let (s, run, spelled, decimals, leading, _) = as_string_sgn_lem negative n h in
        (
          string_encoded (if negative then b'-' ∷ s else s),
          rw (as_long_long_lem n h, e, run, reduce),
          as_text s e spelled decimals (leading (ground arith)),
        )
  ]

  reduce-Represents :
      (negative : Bool) (v : Option ℕ) (r : Option Ubigint)
      → Agrees v r
      → Represents negative v (r >>= λ n. reduce negative n)
  reduce-Represents negative none r e = rw e
  reduce-Represents negative (some v) r (n, e, normal, same) =
      rw (e, ← same) (reduce-Denotes negative n normal)

  spelled_digits :
      {f g : ℕ → Option ℕ} (radix : ℕ)
      → ((c : ℕ) → f c ≡ g c)
      → (acc : ℕ) (s : Bytes) → numeral f radix acc s ≡ numeral g radix acc s
  spelled_digits radix e acc [] = refl
  spelled_digits {f = f} {g = g} radix e acc (c ∷ s) =
      ap (λ skip. if c == b'_' then skip else f c >>= λ d. numeral f radix (acc * radix + d) s)
        (spelled_digits radix e acc s)
      ∙ ap (λ take. if c == b'_' then numeral g radix acc s else take)
          (bind_same (e c) (λ d. spelled_digits radix e (acc * radix + d) s))

  part-Represents :
      (digit_of value_of : ℕ → Option ℕ) (radix : ℕ) (negative : Bool) (part : Option Bytes)
      → IsFormat digit_of radix
      → ((c : ℕ) → digit_of c ≡ value_of c)
      → Represents negative
          (part >>= λ s. numeral value_of radix 0 s)
          (part >>= λ s. scan_digits digit_of radix s (ubigint_new 0) >>= λ n. reduce negative n)
  part-Represents digit_of value_of radix negative none format e = refl
  part-Represents digit_of value_of radix negative (some s) format e =
      subst
        (λ v.
          Represents negative v
            (scan_digits digit_of radix s (ubigint_new 0) >>= λ n. reduce negative n))
        (spelled_digits radix e 0 s)
        (reduce-Represents negative _ _
          (scan_digits-Agrees digit_of radix format s (ubigint_new 0) new-IsNormal))

  -- What a text denotes: a sign or none, and behind it the digits of the format.
  abbrev pub Spells :
      (Bytes → Option Bytes) → (ℕ → Option ℕ) → ℕ → Bytes → Option (Number D) → Type 0
  Spells digits value_of radix number r =
      Represents (sign_and_rest number).0
        (digits (sign_and_rest number).1 >>= λ s. numeral value_of radix 0 s) r

  format-Spells :
      (digit_of value_of : ℕ → Option ℕ) (radix : ℕ) (digits digits' : Bytes → Option Bytes)
      (number : Bytes)
      → IsFormat digit_of radix
      → ((c : ℕ) → digit_of c ≡ value_of c)
      → ((s : Bytes) → digits' s ≡ digits s)
      → Spells digits value_of radix number (
          digits' (split_sign number).1 >>= λ s.
          scan_digits digit_of radix s (ubigint_new 0) >>= λ n. reduce (split_sign number).0 n)
  format-Spells digit_of value_of radix digits digits' number format e h =
      rw (split_sign-sign_and_rest number, h (sign_and_rest number).1)
        (part-Represents digit_of value_of radix (sign_and_rest number).0
          (digits (sign_and_rest number).1) format e)

  -- `_parse_decimal_integer` takes a text exactly when, behind a sign that something follows, or without a
  -- sign, it does not start with an underscore and holds only the characters 0 to 9 and underscores; and the
  -- number it returns is the one spelled, negative behind a minus.
  pub parse_decimal_integer-Represents :
      (number : Bytes) → Spells no_underscore decimal_value 10 number (parse_decimal_integer number)
  unfolding parse_decimal_integer
  parse_decimal_integer-Represents number =
      subst (Spells no_underscore decimal_value 10 number)
        (bind_if (starts_with_underscore (split_sign number).1) (split_sign number).1
          (λ s. scan_digits decimal_digit 10 s (ubigint_new 0))
          (λ n. reduce (split_sign number).0 n))
        (format-Spells decimal_digit decimal_value 10 no_underscore
          (λ s. if starts_with_underscore s then none else some s) number decimal-IsFormat
          decimal_digit-value starts_with_underscore-no_underscore)

  -- The formats with a prefix, likewise: the prefix 0x, 0o or 0b is followed by a character other than an
  -- underscore, and holds underscores and 0 to 9 with a to f in either case, 0 to 7, or 0 and 1 from there on.
  pub parse_prefixed-Represents :
      (number : Bytes)
      → Spells (behind_prefix (codes "0x")) hex_value 16 number (parse_hex_number number)
        × Spells (behind_prefix (codes "0o")) octal_value 8 number (parse_octal_number number)
        × Spells (behind_prefix (codes "0b")) binary_value 2 number (parse_binary_number number)
  unfolding parse_hex_number parse_octal_number parse_binary_number
  parse_prefixed-Represents number = (
    format-Spells hex_digit hex_value 16 (behind_prefix (codes "0x")) (after_prefix b'x') number
        hex-IsFormat hex_digit-value (after_prefix-behind_prefix b'x'),
    format-Spells octal_digit octal_value 8 (behind_prefix (codes "0o")) (after_prefix b'o') number
        octal-IsFormat octal_digit-value (after_prefix-behind_prefix b'o'),
    format-Spells binary_digit binary_value 2 (behind_prefix (codes "0b")) (after_prefix b'b')
        number binary-IsFormat binary_digit-value (after_prefix-behind_prefix b'b'),
  )
