-- ===== src/Number/Float.antt =====
-- src/parser.c: `_parse_decimal_float`.
use ckdl.Prelude.{
  ℕ, zero, suc, ◌+◌, ◌-◌, ◌*◌, ◌/◌, ◌%◌, ◌^◌, Bool, true, false, ◌&&◌, ◌||◌, Option, none, some, [],
  ◌∷◌, ltb, leb, within, ◌==◌, if◌then◌else◌, Bytes, ◌>>=◌,
}
use ckdl.Number.{Floats, Number, floating_point, string_encoded, split_sign, starts_with_underscore}

pub data FloatState : Type 0 where
  before_decimal after_decimal_nodigit after_decimal exponent_nodigit exponent : FloatState

-- The local variables that the loop changes. The three `int` counters do not overflow: two count
-- characters of the word, and the third stops growing at 285.
pub record FloatScan : Type 0 where
  pub digits_before_decimal : ℕ
  pub digits_after_decimal : ℕ
  pub decimal_mantissa : ℕ
  pub explicit_exponent : ℕ
  pub exponent_negative : Bool
  pub state : FloatState

abbrev pub float_start : FloatScan
float_start = record {
  digits_before_decimal = 0;
  digits_after_decimal = 0;
  decimal_mantissa = 0;
  explicit_exponent = 0;
  exponent_negative = false;
  state = before_decimal;
}

abbrev pub is_before_decimal : FloatState → Bool
is_before_decimal before_decimal = true
is_before_decimal _ = false

-- `state != exponent && state != after_decimal_nodigit`
abbrev pub may_start_exponent : FloatState → Bool
may_start_exponent exponent = false
may_start_exponent after_decimal_nodigit = false
may_start_exponent _ = true

-- What a digit does in each state.
unfoldable pub float_digit : FloatState → ℕ → FloatScan → FloatScan
float_digit exponent digit v = record v {
  explicit_exponent =
      if ltb v.explicit_exponent 285 then v.explicit_exponent * 10 + digit else v.explicit_exponent;
}
float_digit exponent_nodigit digit v = record v {
  state = exponent;
  explicit_exponent =
      if ltb v.explicit_exponent 285 then v.explicit_exponent * 10 + digit else v.explicit_exponent;
}
float_digit before_decimal digit v = record v {
  decimal_mantissa = (v.decimal_mantissa * 10 + digit) % 2 ^ 64;
  digits_before_decimal = v.digits_before_decimal + 1;
}
float_digit _ digit v = record v {
  decimal_mantissa = (v.decimal_mantissa * 10 + digit) % 2 ^ 64;
  state = after_decimal;
  digits_after_decimal = v.digits_after_decimal + 1;
}

-- `number.len - i <= 1 || number.data[i + 1] == '_'`, on what stands behind position `i`.
abbrev pub no_digit_follows : Bytes → Bool
no_digit_follows [] = true
no_digit_follows (c ∷ s) = c == b'_'

-- "scan through entire number". The second argument is what stands from position `i` on.
unfoldable pub float_scan : FloatScan → Bytes → Option FloatScan
unfolding float_digit
float_scan v [] = some v
float_scan v (c ∷ []) =
    if c == b'.' && is_before_decimal v.state
    then none
    else if (c == b'e' || c == b'E') && may_start_exponent v.state
    then some (record v { state = exponent_nodigit })
    else if within b'0' b'9' c
    then some (float_digit v.state (c - b'0') v)
    else if c == b'_'
    then some v
    else none
float_scan v (c ∷ d ∷ s) =
    let point = float_scan (record v { state = after_decimal_nodigit }) (d ∷ s) in
    let minus_exponent =
      float_scan (record v { state = exponent_nodigit; exponent_negative = true }) s in
    let plus_exponent = float_scan (record v { state = exponent_nodigit }) s in
    let plain_exponent = float_scan (record v { state = exponent_nodigit }) (d ∷ s) in
    let digit = float_scan (float_digit v.state (c - b'0') v) (d ∷ s) in
    let skip = float_scan v (d ∷ s) in
    if c == b'.' && is_before_decimal v.state
    then (if d == b'_' then none else point)
    else if (c == b'e' || c == b'E') && may_start_exponent v.state
    then (if d == b'-'
        then (if no_digit_follows s then none else minus_exponent)
        else if d == b'+'
        then (if no_digit_follows s then none else plus_exponent)
        else if d == b'_'
        then none
        else plain_exponent)
    else if within b'0' b'9' c
    then digit
    else if c == b'_'
    then skip
    else none

abbrev pub lacks_digit : FloatState → Bool
lacks_digit after_decimal_nodigit = true
lacks_digit exponent_nodigit = true
lacks_digit _ = false

-- "strip zeros": the mantissa and `digits_after_decimal`.
unfoldable pub strip_zeros : ℕ → ℕ → ℕ × ℕ
strip_zeros m zero = (m, 0)
strip_zeros m (suc after) =
    let next = strip_zeros (m / 10) after in if m % 10 == 0 then next else (m, suc after)

-- The text without its underscores.
unfoldable pub drop_underscores : Bytes → Bytes
drop_underscores [] = []
drop_underscores (c ∷ s) = if c == b'_' then drop_underscores s else c ∷ drop_underscores s

unfoldable pub drop_plus : Bytes → Bytes
drop_plus [] = []
drop_plus (c ∷ s) = if c == b'+' then s else c ∷ s

module _ (F : Floats) where
  open F use {Double, of_ull, negate, times, over, pow10}

  -- `n` times ten to the power `net_exponent`, which is `explicit_exponent` under its sign less the
  -- digits behind the point.
  unfoldable pub scale : Double → Bool → ℕ → ℕ → Double
  scale n exponent_negative explicit after =
      if exponent_negative
      then (if explicit + after == 0 then n else over n (pow10 (explicit + after)))
      else if ltb explicit after
      then over n (pow10 (after - explicit))
      else if ltb after explicit
      then times n (pow10 (explicit - after))
      else n

  -- The choice behind the loop: a double, or the text. `explicit_exponent > -285` always holds.
  unfoldable pub float_result : Bool → Bytes → FloatScan → Number Double
  float_result negative number v =
      let (mantissa, after) = strip_zeros v.decimal_mantissa v.digits_after_decimal in
      let n = of_ull mantissa in
      if leb (v.digits_before_decimal + v.digits_after_decimal) 15 && ltb v.explicit_exponent 285
      then floating_point
          (scale (if negative then negate n else n) v.exponent_negative v.explicit_exponent after)
      else string_encoded (drop_underscores (drop_plus number))

  unfoldable pub parse_decimal_float : Bytes → Option (Number Double)
  parse_decimal_float number = do
    let (negative, s) = split_sign number
    v ← if starts_with_underscore s then none else float_scan float_start s
    if lacks_digit v.state then none else some (float_result negative number v)
