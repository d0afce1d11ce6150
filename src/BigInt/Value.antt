-- ===== src/BigInt/Value.antt =====
-- src/bigint.c: the number that the digits stand for, and what each operation does to it.
use ckdl.Prelude.{
  ℕ, ◌+◌, ◌-◌, ◌*◌, ◌/◌, ◌%◌, ◌^◌, ◌≤◌, ◌<◌, ◌≡◌, ◌≢◌, refl, sym, arith, [], ◌∷◌, length, All,
}
use native.Mathlib.Nat.{div-lt_iff_lt-mul, div-add-mod', mod-lt}
use ckdl.BigInt.{
  Ubigint, digit_base, overflow_digit, u64, add_carry, ubigint_add_inplace, multiply_carry,
  ubigint_multiply_inplace, divide_down, trim, shrink, ubigint_divide_inplace,
}

abbrev pub value : Ubigint → ℕ
value [] = 0
value (d ∷ ds) = d + value ds * digit_base

abbrev pub IsDigit32 : ℕ → Type 0
IsDigit32 d = d < digit_base

abbrev pub Digits : Ubigint → Type 0
Digits a = All IsDigit32 a

-- The highest digit, if there is one, is not 0.
abbrev pub NoHighZero : Ubigint → Type 0
NoHighZero [] = Unit
NoHighZero (d ∷ []) = d ≢ 0
NoHighZero (d ∷ e ∷ ds) = NoHighZero (e ∷ ds)

-- What the parser's numbers satisfy: 32-bit digits, at least one, and no zero on top of others.
abbrev pub IsNormal : Ubigint → Type 0
IsNormal [] = ⊥
IsNormal (d ∷ ds) = IsDigit32 d × Digits ds × NoHighZero ds

value-add_carry :
    (a : Ubigint) (c : ℕ) → Digits a → c < digit_base → value (add_carry a c) ≡ value a + c
unfolding add_carry
value-add_carry [] c h hc = ground arith
value-add_carry (d ∷ ds) c (hd, hs) hc =
    omega (arith, value-add_carry ds ((d + c) % 2 ^ 64 / digit_base) hs (omega arith))

product_fits :
    (d b : ℕ) → d < digit_base → b < digit_base → d * b ≤ (digit_base - 1) * (digit_base - 1)
product_fits d b hd hb = grind arith

value-multiply_carry :
    (a : Ubigint) (b c : ℕ)
    → Digits a
    → b < digit_base
    → c < digit_base
    → value (multiply_carry a b c) ≡ value a * b + c
unfolding multiply_carry
value-multiply_carry [] b c h hb hc = ground arith
value-multiply_carry (d ∷ ds) b c (hd, hs) hb hc = omega (
  arith,
  product_fits d b hd hb,
  value-multiply_carry ds b (u64 (u64 (d * b) + c) / digit_base % digit_base) hs hb (omega arith),
)

-- One round of the long division, on the digit `d` under the remainder `r` of the digits above it.
divide_round :
    (d r b : ℕ)
    → d < digit_base
    → r < b
    → b < digit_base
    → (u64 (d + u64 (r * digit_base)) ≡ d + r * digit_base)
      × ((d + r * digit_base) / b % digit_base ≡ (d + r * digit_base) / b)
      × ((d + r * digit_base) / b < digit_base)
      × (d + r * digit_base ≡ (d + r * digit_base) / b * b + (d + r * digit_base) % b)
      × ((d + r * digit_base) % b < b)
divide_round d r b hd hr hb =
    let pb : 0 < b = omega arith in
    let small : (d + r * digit_base) / b < digit_base = (div-lt_iff_lt-mul pb).1 (omega arith) in
    (
      omega arith,
      omega (arith, small),
      small,
      sym (div-add-mod' (d + r * digit_base) b),
      mod-lt (d + r * digit_base) pb,
    )

divide_down_lem :
    (a : Ubigint) (b : ℕ)
    → Digits a
    → 0 < b
    → b < digit_base
    → (value a ≡ value (divide_down a b).0 * b + (divide_down a b).1)
      × ((divide_down a b).1 < b)
      × Digits (divide_down a b).0
unfolding divide_down
divide_down_lem [] b h pb hb = (omega arith, pb, tt)
divide_down_lem (d ∷ ds) b (hd, hs) pb hb =
    let (same, below, digits) = divide_down_lem ds b hs pb hb in
    let (exact, kept, fits, parts, rest) = divide_round d (divide_down ds b).1 b hd below hb in
    rw (exact, kept) (omega (arith, same, parts), rest, (fits, digits))

value-trim : (a : Ubigint) → value (trim a) ≡ value a
unfolding trim
value-trim [] = refl
value-trim (d ∷ ds) = ground (arith, value-trim ds)

trim_lem :
    (a : Ubigint) → Digits a → Digits (trim a) × NoHighZero (trim a) × (length (trim a) ≤ length a)
unfolding trim
trim_lem [] h = (tt, tt, omega arith)
trim_lem (d ∷ ds) (hd, hs) = ground (arith, trim_lem ds hs)

overflow_digit_lem :
    (c : ℕ) → c < digit_base → Digits (overflow_digit c) × NoHighZero (overflow_digit c)
overflow_digit_lem c h = ground arith

add_carry_shape :
    (a : Ubigint) (c : ℕ)
    → Digits a
    → c < digit_base
    → NoHighZero a
    → Digits (add_carry a c) × NoHighZero (add_carry a c)
unfolding add_carry
add_carry_shape [] c h hc top = ground arith
add_carry_shape (d ∷ []) c h hc top = ground arith
add_carry_shape (d ∷ e ∷ ds) c (hd, hs) hc top =
    let (digits, high) = add_carry_shape (e ∷ ds) (u64 (d + c) / digit_base) hs (omega arith) top in
    ((omega arith, digits), high)

multiply_carry_shape :
    (a : Ubigint) (b c : ℕ)
    → Digits a
    → 0 < b
    → b < digit_base
    → c < digit_base
    → NoHighZero a
    → Digits (multiply_carry a b c) × NoHighZero (multiply_carry a b c)
unfolding multiply_carry
multiply_carry_shape [] b c h pb hb hc top = ground arith
multiply_carry_shape (d ∷ []) b c (hd, hs) pb hb hc top =
    ground (arith, product_fits d b hd hb, let some_ : 0 < d * b = grind arith in some_)
multiply_carry_shape (d ∷ e ∷ ds) b c (hd, hs) pb hb hc top =
    let carry = u64 (u64 (d * b) + c) / digit_base % digit_base in
    let (digits, high) = multiply_carry_shape (e ∷ ds) b carry hs pb hb (omega arith) top in
    ((omega arith, digits), high)

-- `a += b` adds, and keeps the number normal.
pub add_inplace_lem :
    (a : Ubigint) (b : ℕ)
    → IsNormal a
    → b < digit_base
    → (value (ubigint_add_inplace a b) ≡ value a + b) × IsNormal (ubigint_add_inplace a b)
unfolding ubigint_add_inplace add_carry
add_inplace_lem [] b h hb = absurd h
add_inplace_lem (d ∷ ds) b (hd, hs, top) hb =
    let (digits, high) = add_carry_shape ds (u64 (d + b) / digit_base) hs (omega arith) top in
    (value-add_carry (d ∷ ds) b (hd, hs) hb, (omega arith, digits, high))

-- `a *= b` multiplies, and keeps the number normal.
pub multiply_inplace_lem :
    (a : Ubigint) (b : ℕ)
    → IsNormal a
    → 0 < b
    → b < digit_base
    → (value (ubigint_multiply_inplace a b) ≡ value a * b) × IsNormal (ubigint_multiply_inplace a b)
unfolding ubigint_multiply_inplace multiply_carry
multiply_inplace_lem [] b h pb hb = absurd h
multiply_inplace_lem (d ∷ ds) b (hd, hs, top) pb hb =
    let carry = u64 (u64 (d * b) + 0) / digit_base % digit_base in
    let (digits, high) = multiply_carry_shape ds b carry hs pb hb (omega arith) top in
    (
      omega (arith, value-multiply_carry (d ∷ ds) b 0 (hd, hs) hb (omega arith)),
      (omega arith, digits, high),
    )

-- `a /= b` leaves the quotient, normal, and returns the remainder.
pub divide_inplace_lem :
    (a : Ubigint) (b : ℕ)
    → IsNormal a
    → 0 < b
    → b < digit_base
    → (value a ≡ value (ubigint_divide_inplace a b).0 * b + (ubigint_divide_inplace a b).1)
      × ((ubigint_divide_inplace a b).1 < b)
      × IsNormal (ubigint_divide_inplace a b).0
unfolding ubigint_divide_inplace divide_down shrink
divide_inplace_lem [] b h pb hb = absurd h
divide_inplace_lem (d ∷ ds) b (hd, hs, top) pb hb =
    let (exact, below, (digit, digits)) = divide_down_lem (d ∷ ds) b (hd, hs) pb hb in
    let (digits', high, _) = trim_lem (divide_down ds b).0 digits in
    let small : (divide_down (d ∷ ds) b).1 % digit_base ≡ (divide_down (d ∷ ds) b).1 =
      omega (arith, below) in
    (rw (value-trim (divide_down ds b).0, small) exact, rw small below, (digit, digits', high))
