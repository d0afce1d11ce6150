-- ===== src/BigInt/Print.antt =====
-- src/bigint.c: the conversions of a big integer to `long long` and to decimal text.
use native.Mathlib.Numerals.{towards_suc}
use native.Mathlib.Nat.{pow-suc}
use ckdl.Prelude.{
  ℕ, zero, suc, ◌+◌, ◌-◌, ◌*◌, ◌^◌, ◌≤◌, ◌<◌, ◌≡◌, ◌≢◌, ◌⊎◌, inl, inr, refl, ap, ◌∙◌, arith, Bool,
  true, false, ◌&&◌, ◌||◌, none, some, [], ◌∷◌, length, All, ltb, leb, if◌then◌else◌, Bool-cases,
  Bytes,
}
use ckdl.BigInt.{
  Ubigint, top_bit_set, ubigint_as_long_long, is_nonzero, ubigint_divide_inplace, decimal_digits,
  ubigint_as_string_sgn,
}
use ckdl.BigInt.Value.{value, Digits, NoHighZero, IsNormal, divide_inplace_lem}

high-pos : (d : ℕ) (ds : Ubigint) → NoHighZero (d ∷ ds) → 0 < value (d ∷ ds)
high-pos d [] h = omega arith
high-pos d (e ∷ ds) h = omega (arith, high-pos e ds h)

-- The values that fit: below 2^63, except for those of one digit with its top bit set.
abbrev pub fits_long_long : ℕ → Bool
fits_long_long v = ltb v (2 ^ 31) || leb (2 ^ 32) v && ltb v (2 ^ 63)

-- `_kdl_ubigint_as_long_long` gives the value itself, and gives it exactly for the values below 2^31
-- and those from 2^32 up to 2^63 - 1.
pub as_long_long_lem :
    (i : Ubigint)
    → IsNormal i
    → ubigint_as_long_long i ≡ (if fits_long_long (value i) then some (value i) else none)
unfolding ubigint_as_long_long top_bit_set
as_long_long_lem [] h = absurd h
as_long_long_lem (d ∷ []) h = ground arith
as_long_long_lem (d ∷ e ∷ []) h = ground arith
as_long_long_lem (d ∷ e ∷ f ∷ ds) (hd, (he, hs), top) = ground (arith, high-pos f ds top)

-- The number that decimal digits spell behind `n`.
abbrev pub spell : ℕ → Bytes → ℕ
spell n [] = n
spell n (c ∷ s) = spell (n * 10 + (c - b'0')) s

abbrev pub IsDecimal : ℕ → Type 0
IsDecimal c = (b'0' ≤ c) × (c ≤ b'9')

-- The text starts with a character other than '0'.
abbrev pub NoLeadingZero : Bytes → Type 0
NoLeadingZero [] = ⊥
NoLeadingZero (c ∷ s) = c ≢ b'0'

is_nonzero_lem : (i : Ubigint) → IsNormal i → is_nonzero i ≡ ltb 0 (value i)
unfolding is_nonzero
is_nonzero_lem [] h = absurd h
is_nonzero_lem (d ∷ []) h = ground arith
is_nonzero_lem (d ∷ e ∷ ds) (hd, hs, top) = ground (arith, high-pos e ds top)

record Printed (v : ℕ) (out : Bytes) (r : Bytes) : Type 0 where
  spelled : spell 0 r ≡ spell v out
  decimals : All IsDecimal out → All IsDecimal r
  leading : (0 < v) ⊎ NoLeadingZero out → NoLeadingZero r
  unchanged : v ≡ 0 → r ≡ out

Printed-zero : {v : ℕ} (out : Bytes) → v ≡ 0 → Printed v out out
Printed-zero {v} out e = record {
  spelled = rw e;
  decimals = λ h. h;
  leading = elim [ inl p ↦ absurd (omega arith) | inr h ↦ h ];
  unchanged = λ _. refl;
}

leading_digit :
    (q d : ℕ) (out : Bytes) → 0 < q * 10 + d → (0 < q) ⊎ NoLeadingZero ((b'0' + d) ∷ out)
leading_digit zero d out h = inr (omega arith)
leading_digit (suc q) d out h = inl (omega arith)

-- One more digit in front: the quotient `q` is printed before it.
Printed-digit :
    {v : ℕ} {out r : Bytes} (q d : ℕ)
    → v ≡ q * 10 + d
    → d < 10
    → 0 < v
    → Printed q ((b'0' + d) ∷ out) r
    → Printed v out r
Printed-digit {v} {out} q d e below pos p = record {
  spelled = p.spelled ∙ ap (λ t. spell t out) (omega arith);
  decimals = λ h. p.decimals ((omega arith, omega arith), h);
  leading = λ _. p.leading (leading_digit q d out (omega arith));
  unchanged = λ z. absurd (omega arith);
}

positive : (i : Ubigint) → IsNormal i → is_nonzero i ≡ true → 0 < value i
positive i h e = ground (arith, is_nonzero_lem i h)

vanishes : (i : Ubigint) → IsNormal i → is_nonzero i ≡ false → value i ≡ 0
vanishes i h e = ground (arith, is_nonzero_lem i h)

decimal_digits-Printed :
    (room : ℕ) (i : Ubigint) (out : Bytes)
    → IsNormal i
    → value i < 10 ^ room
    → (r : Bytes) × (decimal_digits room i out ≡ some r) × Printed (value i) out r
unfolding decimal_digits
decimal_digits-Printed zero i out h room =
    let none_left : value i ≡ 0 = omega arith in
    (out, rw (is_nonzero_lem i h, none_left), Printed-zero out none_left)
decimal_digits-Printed (suc n) i out h room = elim (Bool-cases (is_nonzero i)) [
  | inl e ↦
      let (exact, below, normal) = divide_inplace_lem i 10 h (omega arith) (omega arith) in
      let (r, run, p) =
        decimal_digits-Printed n (ubigint_divide_inplace i 10).0
          ((b'0' + (ubigint_divide_inplace i 10).1) ∷ out) normal
          (omega (arith, exact, pow-suc 10 n)) in
      (r, rw e run, Printed-digit _ _ exact below (positive i h e) p)
  | inr e ↦ (out, rw e, Printed-zero out (vanishes i h e))
]

ten_more : (k : ℕ) → 10 ^ (suc k * 10) ≡ 10_000_000_000 * 10 ^ (k * 10)
ten_more k =
    rw (let e : suc k * 10 ≡ k * 10 + 1 + 1 + 1 + 1 + 1 + 1 + 1 + 1 + 1 + 1 = omega arith in e)
      (simp (towards_suc, pow-suc) (omega arith))

value-lt : (a : Ubigint) → Digits a → value a < 10 ^ (length a * 10)
value-lt [] h = omega arith
value-lt (d ∷ ds) (hd, hs) = omega (arith, ten_more (length ds), value-lt ds hs)

Digits-of : (i : Ubigint) → IsNormal i → Digits i
Digits-of [] h = absurd h
Digits-of (d ∷ ds) (hd, hs, _) = (hd, hs)

-- `_kdl_ubigint_as_string_sgn` never writes behind its buffer. Its text is a minus sign, if asked for,
-- and decimal digits that spell the value, with no zero in front; for the value 0 there is no digit.
pub as_string_sgn_lem :
    (negative : Bool) (i : Ubigint)
    → IsNormal i
    → (s : Bytes) × (ubigint_as_string_sgn negative i ≡ some (if negative then b'-' ∷ s else s))
      × (spell 0 s ≡ value i)
      × All IsDecimal s
      × (0 < value i → NoLeadingZero s)
      × (value i ≡ 0 → s ≡ [])
unfolding ubigint_as_string_sgn
as_string_sgn_lem negative i h =
    let (s, run, p) = decimal_digits-Printed (length i * 10) i [] h (value-lt i (Digits-of i h)) in
    (s, rw run, p.spelled, p.decimals tt, λ pos. p.leading (inl pos), p.unchanged)
