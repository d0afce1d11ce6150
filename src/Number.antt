-- ===== src/Number.antt =====
-- include/kdl/value.h, src/parser.c: the representations of a number, and the start of its text.
pub mod Spelling
pub mod Integer
pub mod Float
pub mod Parse
pub mod IntegerLaws
use ckdl.Prelude.{ℕ, suc, Bool, true, false, [], ◌∷◌, ◌==◌, if◌then◌else◌, Bytes, ℤ}

-- `double`, INFINITY, NAN and the operations that the parser calls are C's: arguments of the model. `pow10 k` is
-- `pow(10.0, k)` and `of_ull` the conversion from `unsigned long long`.
pub record Floats : Type 1 where
  pub Double : Type 0
  pub of_ull : ℕ → Double
  pub negate : Double → Double
  pub times : Double → Double → Double
  pub over : Double → Double → Double
  pub pow10 : ℕ → Double
  pub infinity : Double
  pub nan : Double

-- `kdl_number`: a constructor for each `kdl_number_type`.
pub data Number (D : Type 0) : Type 0 where
  integer : ℤ → Number D
  floating_point : D → Number D
  string_encoded : Bytes → Number D

-- "handle sign": a sign is taken off if something follows it. The flag is `negative`.
unfoldable pub split_sign : Bytes → Bool × Bytes
split_sign (c ∷ d ∷ s) =
    if c == b'-' then (true, d ∷ s) else if c == b'+' then (false, d ∷ s) else (false, c ∷ d ∷ s)
split_sign s = (false, s)

abbrev pub starts_with_underscore : Bytes → Bool
starts_with_underscore [] = false
starts_with_underscore (c ∷ s) = c == b'_'
