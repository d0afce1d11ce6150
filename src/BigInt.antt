-- ===== src/BigInt.antt =====
-- src/bigint.c and src/bigint.h: the unsigned big integers of the number parser.
-- A `_kdl_ubigint` is the list of its 32-bit digits, the lowest first; `n_digits` is the length.
-- Digits are uint32_t and intermediate values uint64_t, with their wrap-around written out; on a
-- uint64_t `(tmp & HIGH_DIGIT_BITMASK) >> DIGIT_BITS` is `tmp / 2^32`, and `tmp & DIGIT_BITMASK` is
-- `tmp % 2^32`. Allocation succeeds.
pub mod Value
pub mod Print
use ckdl.Prelude.{
  ℕ, zero, suc, ◌+◌, ◌*◌, ◌/◌, ◌%◌, ◌^◌, Bool, true, false, not, ◌&&◌, ◌||◌, Option, none, some,
  List, [], ◌∷◌, ◌++◌, ltb, ◌==◌, if◌then◌else◌, Bytes, length, ◌>>=◌,
}

abbrev pub Ubigint : Type 0
Ubigint = List ℕ

abbrev pub digit_base : ℕ
digit_base = 2 ^ 32

abbrev pub u64 : ℕ → ℕ
u64 x = x % 2 ^ 64

-- `_kdl_ubigint_new`
abbrev pub ubigint_new : ℕ → Ubigint
ubigint_new v = v ∷ []

-- A new highest digit when the loop leaves a carry.
abbrev overflow_digit : ℕ → Ubigint
overflow_digit carry = if carry == 0 then [] else (carry % digit_base) ∷ []

-- The loop of `_kdl_ubigint_add_inplace` from some digit on, and the reallocation behind it.
add_carry : Ubigint → ℕ → Ubigint
add_carry [] carry = overflow_digit carry
add_carry (d ∷ ds) carry =
    let tmp = u64 (d + carry) in (tmp % digit_base) ∷ add_carry ds (tmp / digit_base)

-- `_kdl_ubigint_add_inplace`
pub ubigint_add_inplace : Ubigint → ℕ → Ubigint
ubigint_add_inplace a b = add_carry a b

-- The loop of `_kdl_ubigint_multiply_inplace`; here `carry` is a uint32_t.
multiply_carry : Ubigint → ℕ → ℕ → Ubigint
multiply_carry [] b carry = overflow_digit carry
multiply_carry (d ∷ ds) b carry =
    let tmp = u64 (u64 (d * b) + carry) in
    (tmp % digit_base) ∷ multiply_carry ds b (tmp / digit_base % digit_base)

-- `_kdl_ubigint_multiply_inplace`
pub ubigint_multiply_inplace : Ubigint → ℕ → Ubigint
ubigint_multiply_inplace a b = multiply_carry a b 0

-- The loop of `_kdl_ubigint_divide_inplace` runs from the highest digit down: the quotient digits, and
-- `rem`.
divide_down : Ubigint → ℕ → Ubigint × ℕ
divide_down [] b = ([], 0)
divide_down (d ∷ ds) b =
    let (qs, rem) = divide_down ds b in
    let tmp = u64 (d + u64 (rem * digit_base)) in ((tmp / b % digit_base) ∷ qs, tmp % b)

-- `--a->n_digits` while the highest digit is 0. `trim` may drop every digit; `shrink` keeps the lowest.
trim_onto : ℕ → Ubigint → Ubigint
trim_onto d [] = if d == 0 then [] else d ∷ []
trim_onto d (e ∷ es) = d ∷ e ∷ es

trim : Ubigint → Ubigint
unfolding trim_onto
trim [] = []
trim (d ∷ ds) = trim_onto d (trim ds)

shrink : Ubigint → Ubigint
shrink [] = []
shrink (d ∷ ds) = d ∷ trim ds

-- `_kdl_ubigint_divide_inplace`: the new number and the remainder.
pub ubigint_divide_inplace : Ubigint → ℕ → Ubigint × ℕ
ubigint_divide_inplace a b = let (qs, rem) = divide_down a b in (shrink qs, rem % digit_base)

-- Bit 31 of the highest digit, `i->num[i->n_digits - 1] & top_bit`.
top_bit_set : Ubigint → Bool
top_bit_set [] = false
top_bit_set (d ∷ []) = (d / 2 ^ 31 % 2) == 1
top_bit_set (d ∷ e ∷ ds) = top_bit_set (e ∷ ds)

-- `*dest <<= DIGIT_BITS; *dest += i->num[k]`, from the highest digit down.
collect : Ubigint → ℕ
collect [] = 0
collect (d ∷ ds) = u64 (u64 (collect ds * digit_base) + d)

-- `_kdl_ubigint_as_long_long`: `none` is `false`.
pub ubigint_as_long_long : Ubigint → Option ℕ
unfolding collect
ubigint_as_long_long i =
    if ltb 2 (length i) then none else if top_bit_set i then none else some (collect i)

-- `i->n_digits > 1 || i->num[0] != 0`
is_nonzero : Ubigint → Bool
is_nonzero [] = false
is_nonzero (d ∷ []) = not (d == 0)
is_nonzero (d ∷ e ∷ ds) = true

-- The decimal digits, last one first in the source's `buf`; it is read backwards, so that what is
-- written last stands first here. `room` is what is left of `buf`; `none` is a write behind its end.
decimal_digits : ℕ → Ubigint → Bytes → Option Bytes
decimal_digits zero i out = if is_nonzero i then none else some out
decimal_digits (suc room) i out =
    let (q, digit) = ubigint_divide_inplace i 10 in
    let more = decimal_digits room q ((b'0' + digit) ∷ out) in
    if is_nonzero i then more else some out

-- `_kdl_ubigint_as_string_sgn`; the flag is `sign < 0`.
pub ubigint_as_string_sgn : Bool → Ubigint → Option Bytes
ubigint_as_string_sgn negative i = do
  digits ← decimal_digits (length i * 10) i []
  some (if negative then b'-' ∷ digits else digits)

-- `_kdl_ubigint_as_string`
pub ubigint_as_string : Ubigint → Option Bytes
ubigint_as_string i = ubigint_as_string_sgn false i
