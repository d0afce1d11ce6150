-- ===== src/Bits.antt =====
-- The masks and unions that UTF-8 is written with (src/utf8.c, src/utf8.h), as arithmetic.
mod Digit
use Digit.{bit_or_digit, bit_and_digit, zero-bit_and, bit_or-zero}
use ckdl.Prelude.{
  ℕ, zero, suc, ◌+◌, ◌*◌, ◌/◌, ◌%◌, ◌<◌, bit_and, bit_or, ◌≡◌, refl, ap, arith, Bool, true, false,
  ◌&&◌, ◌==◌,
}

-- Two functions that agree on a table of values, checked by evaluation.
module _ (f g : ℕ → ℕ) where
  same_upto : ℕ → Bool
  same_upto zero = true
  same_upto (suc n) = (f n == g n) && same_upto n

  same_upto-eq : (n : ℕ) → same_upto n ≡ true → (x : ℕ) → x < n → f x ≡ g x
  unfolding same_upto
  same_upto-eq zero t x h = absurd (omega arith)
  same_upto-eq (suc n) t x h = ground (arith, same_upto-eq n (ground arith) x)

pub and_80 : (b : ℕ) → b < 256 → bit_and b 0x80 ≡ b / 128 * 128
unfolding same_upto
and_80 = same_upto-eq _ _ 256 refl

pub and_c0 : (b : ℕ) → b < 256 → bit_and b 0xc0 ≡ b / 64 * 64
unfolding same_upto
and_c0 = same_upto-eq _ _ 256 refl

pub and_e0 : (b : ℕ) → b < 256 → bit_and b 0xe0 ≡ b / 32 * 32
unfolding same_upto
and_e0 = same_upto-eq _ _ 256 refl

pub and_f0 : (b : ℕ) → b < 256 → bit_and b 0xf0 ≡ b / 16 * 16
unfolding same_upto
and_f0 = same_upto-eq _ _ 256 refl

pub and_f8 : (b : ℕ) → b < 256 → bit_and b 0xf8 ≡ b / 8 * 8
unfolding same_upto
and_f8 = same_upto-eq _ _ 256 refl

pub and_1f : (b : ℕ) → b < 256 → bit_and b 0x1f ≡ b % 32
unfolding same_upto
and_1f = same_upto-eq _ _ 256 refl

pub and_0f : (b : ℕ) → b < 256 → bit_and b 0x0f ≡ b % 16
unfolding same_upto
and_0f = same_upto-eq _ _ 256 refl

pub and_07 : (b : ℕ) → b < 256 → bit_and b 0x07 ≡ b % 8
unfolding same_upto
and_07 = same_upto-eq _ _ 256 refl

pub and_3f : (b : ℕ) → b < 256 → bit_and b 0x3f ≡ b % 64
unfolding same_upto
and_3f = same_upto-eq _ _ 256 refl

-- The lead bytes that are written: a marker over the top bits of the code point.
pub lead_c0 : (x : ℕ) → x < 32 → bit_or 0xc0 (bit_and 0x1f x) ≡ 0xc0 + x
unfolding same_upto
lead_c0 = same_upto-eq _ _ 32 refl

pub lead_e0 : (x : ℕ) → x < 16 → bit_or 0xe0 (bit_and 0x0f x) ≡ 0xe0 + x
unfolding same_upto
lead_e0 = same_upto-eq _ _ 16 refl

pub lead_f0 : (x : ℕ) → x < 8 → bit_or 0xf0 (bit_and 0x07 x) ≡ 0xf0 + x
unfolding same_upto
lead_f0 = same_upto-eq _ _ 8 refl

-- `0x3f & x` at any x: six binary digits.
mask_3f : (x : ℕ) → bit_and 0x3f x ≡ x % 64
mask_3f x = omega (
  arith,
  bit_and_digit 0x3f x,
  bit_and_digit 0x1f (x / 2),
  bit_and_digit 0x0f (x / 2 / 2),
  bit_and_digit 0x07 (x / 2 / 2 / 2),
  bit_and_digit 0x03 (x / 2 / 2 / 2 / 2),
  bit_and_digit 0x01 (x / 2 / 2 / 2 / 2 / 2),
  zero-bit_and (x / 2 / 2 / 2 / 2 / 2 / 2),
)

or_80 : (x : ℕ) → x < 64 → bit_or 0x80 x ≡ 0x80 + x
unfolding same_upto
or_80 = same_upto-eq _ _ 64 refl

-- A continuation byte holds the six lowest bits.
pub cont_80 : (x : ℕ) → bit_or 0x80 (bit_and 0x3f x) ≡ 0x80 + x % 64
cont_80 x = omega (arith, ap (bit_or 0x80) (mask_3f x), or_80 (x % 64) (omega arith))

or_done : (x y q : ℕ) → x ≡ q → y ≡ 0 → bit_or x y ≡ q
or_done x y q e z = rw (e, z) (bit_or-zero q)

-- A field over six free bits.
pub or_field : (q r : ℕ) → r < 64 → bit_or (q * 64) r ≡ q * 64 + r
or_field q r h = omega (
  arith,
  bit_or_digit (q * 64) r,
  bit_or_digit (q * 64 / 2) (r / 2),
  bit_or_digit (q * 64 / 2 / 2) (r / 2 / 2),
  bit_or_digit (q * 64 / 2 / 2 / 2) (r / 2 / 2 / 2),
  bit_or_digit (q * 64 / 2 / 2 / 2 / 2) (r / 2 / 2 / 2 / 2),
  bit_or_digit (q * 64 / 2 / 2 / 2 / 2 / 2) (r / 2 / 2 / 2 / 2 / 2),
  or_done (q * 64 / 2 / 2 / 2 / 2 / 2 / 2) (r / 2 / 2 / 2 / 2 / 2 / 2) q (omega arith)
      (omega arith),
)

or_double : (a b x y : ℕ) → x ≡ a * 2 → y ≡ b * 2 → bit_or x y ≡ bit_or a b * 2
or_double a b x y hx hy = omega (
  arith,
  bit_or_digit x y,
  ap (λ (t : ℕ). bit_or t (y / 2)) (let e : x / 2 ≡ a = omega arith in e),
  ap (bit_or a) (let e : y / 2 ≡ b = omega arith in e),
)

or_sixfold : (a b : ℕ) → bit_or (a * 64) (b * 64) ≡ bit_or a b * 64
or_sixfold a b = omega (
  arith,
  or_double (a * 32) (b * 32) (a * 64) (b * 64) (omega arith) (omega arith),
  or_double (a * 16) (b * 16) (a * 32) (b * 32) (omega arith) (omega arith),
  or_double (a * 8) (b * 8) (a * 16) (b * 16) (omega arith) (omega arith),
  or_double (a * 4) (b * 4) (a * 8) (b * 8) (omega arith) (omega arith),
  or_double (a * 2) (b * 2) (a * 4) (b * 4) (omega arith) (omega arith),
  or_double a b (a * 2) (b * 2) (omega arith) (omega arith),
)

-- Two fields of six bits, then three.
pub or_two_fields :
    (p q r : ℕ) → q < 64 → r < 64 → bit_or (bit_or (p * 4096) (q * 64)) r ≡ p * 4096 + q * 64 + r
or_two_fields p q r hq hr =
    let high : bit_or (p * 4096) (q * 64) ≡ (p * 64 + q) * 64 =
      rw (let e : p * 4096 ≡ p * 64 * 64 = omega arith in e)
        (omega (arith, or_sixfold (p * 64) q, or_field p q hq)) in
    rw high (omega (arith, or_field (p * 64 + q) r hr))

pub or_three_fields :
    (p q r t : ℕ)
    → q < 64
    → r < 64
    → t < 64
    → bit_or (bit_or (bit_or (p * 262144) (q * 4096)) (r * 64)) t
      ≡ p * 262144 + q * 4096 + r * 64 + t
or_three_fields p q r t hq hr ht =
    let top : bit_or (p * 262144) (q * 4096) ≡ (p * 64 + q) * 4096 =
      rw
        (
          let e : p * 262144 ≡ p * 64 * 64 * 64 = omega arith in e,
          let e : q * 4096 ≡ q * 64 * 64 = omega arith in e,
        )
        (omega
          (arith, or_sixfold (p * 64 * 64) (q * 64), or_sixfold (p * 64) q, or_field p q hq)) in
    rw top (omega (arith, or_two_fields (p * 64 + q) r t hr ht))
