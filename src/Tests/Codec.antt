-- ===== src/Tests/Codec.antt =====
-- src/utf8.c and src/bigint.c on concrete inputs.
use ckdl.Prelude.{
  ◌+◌, ◌*◌, ◌≤◌, ◌<◌, ◌≡◌, refl, arith, true, none, some, [], ◌∷◌, ◌++◌, if◌then◌else◌, Bytes,
  codes, length, All, IsByte, leb,
}
use ckdl.Utf8.{ok, incomplete, pop_codepoint, push_codepoint}
use ckdl.Utf8.RoundTrip.{pop-push, push_shape}
use ckdl.Utf8.Prefix.{Extends, pop_Extends, pop_takes}
use ckdl.BigInt.{
  ubigint_add_inplace, ubigint_multiply_inplace, ubigint_divide_inplace, ubigint_as_long_long,
  ubigint_as_string_sgn,
}
use ckdl.BigInt.Value.{value, IsNormal, add_inplace_lem, multiply_inplace_lem, divide_inplace_lem}
use ckdl.BigInt.Print.{as_long_long_lem, as_string_sgn_lem, spell, IsDecimal, NoLeadingZero}

-- The euro sign, and what is left of it when the input is cut.
pop_euro : pop_codepoint (0xe2 ∷ 0x82 ∷ 0xac ∷ b'x' ∷ []) ≡ ok 0x20ac (b'x' ∷ [])
unfolding pop_codepoint
pop_euro = refl

pop_cut : pop_codepoint (0xe2 ∷ 0x82 ∷ []) ≡ incomplete
unfolding pop_codepoint
pop_cut = refl

pop-push_example : pop_codepoint (push_codepoint 0x1f600 ++ codes "!") ≡ ok 0x1f600 (codes "!")
pop-push_example = pop-push 0x1f600 (codes "!") (omega arith)

push_shape_example :
    All IsByte (push_codepoint 0x20ac)
    × (length (push_codepoint 0x20ac) ≡ (
        if leb 0x20ac 0x7f
        then 1
        else if leb 0x20ac 0x7ff
        then 2
        else if leb 0x20ac 0xffff
        then 3
        else if leb 0x20ac 0x10ffff
        then 4
        else 0))
push_shape_example = push_shape 0x20ac

pop_Extends_example :
    Extends (0xe2 ∷ 0x82 ∷ 0xac ∷ []) (b'x' ∷ []) (pop_codepoint (0xe2 ∷ 0x82 ∷ 0xac ∷ []))
pop_Extends_example = pop_Extends (0xe2 ∷ 0x82 ∷ 0xac ∷ []) (b'x' ∷ [])

pop_takes_example : (1 < 4) × (4 ≤ 1 + 4)
pop_takes_example = pop_takes (0xe2 ∷ 0x82 ∷ 0xac ∷ b'x' ∷ []) pop_euro

-- 2^32 - 1 plus one has a second digit.
add_inplace_example :
    (value (ubigint_add_inplace (0xffff_ffff ∷ []) 1) ≡ value (0xffff_ffff ∷ []) + 1)
    × IsNormal (ubigint_add_inplace (0xffff_ffff ∷ []) 1)
add_inplace_example = add_inplace_lem (0xffff_ffff ∷ []) 1 (omega arith, tt, tt) (omega arith)

multiply_inplace_example :
    (value (ubigint_multiply_inplace (0 ∷ 7 ∷ []) 10) ≡ value (0 ∷ 7 ∷ []) * 10)
    × IsNormal (ubigint_multiply_inplace (0 ∷ 7 ∷ []) 10)
multiply_inplace_example =
    multiply_inplace_lem (0 ∷ 7 ∷ []) 10 (omega arith, (omega arith, tt), λ e. omega arith)
      (omega arith) (omega arith)

divide_inplace_example :
    (value (5 ∷ 1 ∷ [])
      ≡ value (ubigint_divide_inplace (5 ∷ 1 ∷ []) 10).0 * 10
        + (ubigint_divide_inplace (5 ∷ 1 ∷ []) 10).1)
    × ((ubigint_divide_inplace (5 ∷ 1 ∷ []) 10).1 < 10)
    × IsNormal (ubigint_divide_inplace (5 ∷ 1 ∷ []) 10).0
divide_inplace_example =
    divide_inplace_lem (5 ∷ 1 ∷ []) 10 (omega arith, (omega arith, tt), λ e. omega arith)
      (omega arith) (omega arith)

-- 3000000000 fits a `long long`, and is refused.
as_long_long_example : ubigint_as_long_long (3_000_000_000 ∷ []) ≡ none
as_long_long_example = as_long_long_lem (3_000_000_000 ∷ []) (omega arith, tt, tt)

as_string_sgn_example :
    (s : Bytes) × (ubigint_as_string_sgn true (5 ∷ 1 ∷ []) ≡ some (b'-' ∷ s))
    × (spell 0 s ≡ 4_294_967_301)
    × All IsDecimal s
    × (0 < 4_294_967_301 → NoLeadingZero s)
    × (value (5 ∷ 1 ∷ []) ≡ 0 → s ≡ [])
as_string_sgn_example =
    as_string_sgn_lem true (5 ∷ 1 ∷ []) (omega arith, (omega arith, tt), λ e. omega arith)
