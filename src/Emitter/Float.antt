-- ===== src/Emitter/Float.antt =====
-- src/emitter.c: `_float_to_string`.
use ckdl.Prelude.{
  ℕ, zero, suc, ◌+◌, ◌-◌, ◌*◌, ◌%◌, ◌^◌, Bool, true, false, not, ◌&&◌, Option, none, some, [], ◌∷◌,
  ◌++◌, ltb, leb, ◌==◌, if◌then◌else◌, Bytes, codes, ◌>>=◌, ℤ, pos, negsuc, print_nat, print_int,
}
use ckdl.Emitter.{FloatPrintingOptions}
use ckdl.Emitter.Digits.{Queue, push_digit, finish_digits}

-- What the function uses of `double` and of the C library. `decimal_exponent f` is
-- `(int)floor(log10(f))`, `floor_int f` is `(int)floor(f)` of a value that is not negative, `of_nat` the
-- conversion from the integer types, and `tenth` the literal 0.1.
pub record PrintFloats (D : Type 0) : Type 0 where
  pub is_nan : D → Bool
  pub is_inf : D → Bool
  pub less : D → D → Bool
  pub at_most : D → D → Bool
  pub equal : D → D → Bool
  pub fabs : D → D
  pub plus : D → D → D
  pub minus : D → D → D
  pub times : D → D → D
  pub over : D → D → D
  pub pow10 : ℤ → D
  pub decimal_exponent : D → ℤ
  pub floor_int : D → ℕ
  pub of_nat : ℕ → D
  pub tenth : D

-- `abs`
abbrev pub magnitude : ℤ → ℕ
magnitude (pos n) = n
magnitude (negsuc n) = suc n

abbrev pub is_zero : ℤ → Bool
is_zero (pos n) = n == 0
is_zero (negsuc n) = false

abbrev pub is_not_negative : ℤ → Bool
is_not_negative (pos n) = true
is_not_negative (negsuc n) = false

module _ {D : Type 0} (F : PrintFloats D) where
  open F use {
    is_nan, is_inf, less, at_most, equal, fabs, plus, minus, times, over, pow10, decimal_exponent,
    floor_int, of_nat, tenth,
  }

  -- `while (f_intpart + (fractional_part_so_far + 1) * pos <= f)`, on `next_digit` and
  -- `fractional_part_so_far`; `none` where the fuel runs out. The second is an `unsigned long long`.
  unfoldable pub raise_digit : ℕ → D → D → D → ℕ → ℕ → Option (ℕ × ℕ)
  raise_digit zero f f_intpart digit_pos next_digit fraction = none
  raise_digit (suc fuel) f f_intpart digit_pos next_digit fraction =
      let more =
        raise_digit fuel f f_intpart digit_pos (next_digit + 1) ((fraction + 1) % 2 ^ 64) in
      if at_most (plus f_intpart (times (of_nat ((fraction + 1) % 2 ^ 64)) digit_pos)) f
      then more
      else some (next_digit, fraction)

  -- The digit that was found: above 9 it is cut to 9, and not written.
  unfoldable pub take_digit : ℕ → ℕ → Queue → ℕ × Queue
  unfolding push_digit
  take_digit digit fraction q =
      if leb 10 digit
      then ((2 ^ 64 + fraction - (digit - 9)) % 2 ^ 64, q)
      else (fraction, push_digit digit q)

  -- "while this digit makes a difference"
  unfoldable pub digit_loop : ℕ → D → D → D → D → ℕ → Queue → Option Queue
  unfolding raise_digit take_digit
  digit_loop zero f f_intpart digit_pos f_so_far fraction q = none
  digit_loop (suc fuel) f f_intpart digit_pos f_so_far fraction q =
      let next = floor_int (over (minus f f_so_far) digit_pos) in
      let more =
        raise_digit (suc fuel) f f_intpart digit_pos next ((10 * fraction + next) % 2 ^ 64)
        >>= (λ found.
            let so_far = plus f_intpart (times (of_nat (found.1)) digit_pos) in
            let taken = take_digit (found.0) (found.1) q in
            digit_loop fuel f f_intpart (over digit_pos (of_nat 10)) so_far (taken.0) (taken.1)) in
      if not (equal (plus f digit_pos) f) && less f_so_far f then more else some q

  -- The exponent, and the marks of a number that has none.
  unfoldable pub finish_number : FloatPrintingOptions → ℤ → Queue → Bytes
  finish_number opts exponent q =
      let add_point = not q.written_point && opts.always_write_decimal_point in
      let text = if add_point then q.text ++ codes ".0" else q.text in
      let written_point = if add_point then true else q.written_point in
      if not (is_zero exponent)
      then text
        ++ ((if opts.capital_e then b'E' else b'e')
            ∷ ((if is_not_negative exponent && opts.exponent_plus then b'+' ∷ [] else [])
                ++ print_int exponent))
      else if not written_point && opts.always_write_decimal_point_or_exponent
      then text ++ codes ".0"
      else text

  -- A finite number, from its sign and its absolute value.
  unfoldable pub print_finite : ℕ → FloatPrintingOptions → Bool → D → Option Bytes
  unfolding digit_loop finish_digits finish_number
  print_finite fuel opts negative f =
      let found = if not (equal f (of_nat 0)) then decimal_exponent f else ℤ.pos 0 in
      let plain = ltb (magnitude found) opts.min_exponent in
      let exponent = if plain then ℤ.pos 0 else found in
      let exp_factor = if plain then of_nat 1 else pow10 exponent in
      let integer_part = floor_int (over f exp_factor) in
      let sign = if negative then b'-' ∷ [] else if opts.plus then b'+' ∷ [] else [] in
      let f_intpart = times (of_nat integer_part) exp_factor in
      do
        q ← digit_loop fuel f f_intpart (times tenth exp_factor) f_intpart 0 (record {
          text = sign ++ print_nat integer_part;
          written_point = false;
          zeros = 0;
          nines = 0;
          queued_digit = none;
        })
        some (finish_number opts exponent (finish_digits q))

  -- `_float_to_string`, with fuel for its loops, whose end depends on the arithmetic.
  unfoldable pub float_to_string : ℕ → FloatPrintingOptions → D → Option Bytes
  unfolding print_finite
  float_to_string fuel opts f =
      if is_nan f
      then some (codes "#nan")
      else if is_inf f
      then some (if less f (of_nat 0) then codes "#-inf" else codes "#inf")
      else print_finite fuel opts (less f (of_nat 0)) (fabs f)
