-- ===== src/Number/Spelling.antt =====
-- src/parser.c: how the integer formats of KDL are spelled, said without the functions of the parser.
use ckdl.Prelude.{
  ℕ, suc, ◌≡◌, refl, arith, Bool, true, false, Option, none, some, [], ◌∷◌, ◌==◌, if◌then◌else◌,
  Bytes, codes, ◌>>=◌,
}
use ckdl.Number.{split_sign, starts_with_underscore}
use ckdl.Number.Integer.{decimal_digit, hex_digit, octal_digit, binary_digit, after_prefix}

-- What follows this beginning of a text.
abbrev pub behind : Bytes → Bytes → Option Bytes
behind [] s = some s
behind (b ∷ bs) [] = none
behind (b ∷ bs) (c ∷ s) = if c == b then behind bs s else none

-- The text behind a sign, where there is one and something follows it; `none` without a sign.
abbrev pub not_empty : Option Bytes → Option Bytes
not_empty (some (d ∷ s)) = some (d ∷ s)
not_empty _ = none

abbrev pub or_else : Option (Bool × Bytes) → Bool × Bytes → Bool × Bytes
or_else (some r) other = r
or_else none other = other

-- Whether the number is negative, and what its sign stands in front of.
abbrev pub sign_and_rest : Bytes → Bool × Bytes
sign_and_rest s =
    or_else (not_empty (behind (codes "-") s) >>= λ r. some (true, r))
      (or_else (not_empty (behind (codes "+") s) >>= λ r. some (false, r)) (false, s))

-- The place of a character in a row, counted from `n`.
abbrev pub place : ℕ → Bytes → ℕ → Option ℕ
place n [] c = none
place n (d ∷ ds) c = if c == d then some n else place (suc n) ds c

-- What a character counts as a digit.
abbrev pub decimal_value : ℕ → Option ℕ
decimal_value c = place 0 (codes "0123456789") c

abbrev pub octal_value : ℕ → Option ℕ
octal_value c = place 0 (codes "01234567") c

abbrev pub binary_value : ℕ → Option ℕ
binary_value c = place 0 (codes "01") c

abbrev pub hex_value : ℕ → Option ℕ
hex_value c = elim (place 0 (codes "0123456789abcdef") c) [
  | some d ↦ some d
  | none ↦ place 10 (codes "ABCDEF") c
]

-- A text that does not start with an underscore.
abbrev pub no_underscore : Bytes → Option Bytes
no_underscore s = elim (behind (codes "_") s) [ none ↦ some s | some r ↦ none ]

-- The characters in which digits are looked for: behind the prefix, where something follows it that is no
-- underscore.
abbrev pub behind_prefix : Bytes → Bytes → Option Bytes
behind_prefix prefix s = not_empty (behind prefix s) >>= no_underscore

pub decimal_digit-value : (c : ℕ) → decimal_digit c ≡ decimal_value c
unfolding decimal_digit
decimal_digit-value c = ground arith

pub octal_digit-value : (c : ℕ) → octal_digit c ≡ octal_value c
unfolding octal_digit
octal_digit-value c = ground arith

pub binary_digit-value : (c : ℕ) → binary_digit c ≡ binary_value c
unfolding binary_digit
binary_digit-value c = ground arith

pub hex_digit-value : (c : ℕ) → hex_digit c ≡ hex_value c
unfolding hex_digit
hex_digit-value c = ground arith

pub split_sign-sign_and_rest : (s : Bytes) → split_sign s ≡ sign_and_rest s
unfolding split_sign
split_sign-sign_and_rest [] = refl
split_sign-sign_and_rest (c ∷ []) = ground arith
split_sign-sign_and_rest (c ∷ d ∷ s) = ground arith

pub starts_with_underscore-no_underscore :
    (s : Bytes) → (if starts_with_underscore s then none else some s) ≡ no_underscore s
starts_with_underscore-no_underscore [] = refl
starts_with_underscore-no_underscore (c ∷ s) = ground arith

pub after_prefix-behind_prefix :
    (letter : ℕ) (s : Bytes) → after_prefix letter s ≡ behind_prefix (b'0' ∷ letter ∷ []) s
unfolding after_prefix
after_prefix-behind_prefix letter [] = refl
after_prefix-behind_prefix letter (z ∷ []) = ground arith
after_prefix-behind_prefix letter (z ∷ x ∷ []) = ground arith
after_prefix-behind_prefix letter (z ∷ x ∷ d ∷ s) = ground arith
