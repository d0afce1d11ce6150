-- ===== src/Utf8/RoundTrip.antt =====
-- src/utf8.c: what `_kdl_push_codepoint` writes, and reading it back.
use ckdl.Prelude.{
  ℕ, ◌+◌, ◌*◌, ◌/◌, ◌%◌, ◌≤◌, ◌<◌, ◌≡◌, inl, inr, ap, ◌∙◌, Bool-cases, arith, true, [], ◌∷◌, ◌++◌,
  leb, if◌then◌else◌, Bytes, length, All, IsByte,
}
use ckdl.Bits.{
  and_80, and_c0, and_e0, and_f0, and_f8, and_1f, and_0f, and_07, and_3f, lead_c0, lead_e0, lead_f0,
  cont_80, or_field, or_two_fields, or_three_fields,
}
use ckdl.Utf8.Prefix.{pop_ascii}
use ckdl.Utf8.{
  ok, is_utf8_continuation, pop_two, pop_three, pop_four, pop_codepoint, push_codepoint,
}

-- The bytes of a code point without bit operations.
abbrev pub cont : ℕ → ℕ
cont x = 0x80 + x % 64

pub data Encoded (c : ℕ) : Bytes → Type 0 where
  one : c ≤ 0x7f → Encoded c (c ∷ [])
  two : 0x7f < c → c ≤ 0x7ff → Encoded c ((0xc0 + c / 64) ∷ cont c ∷ [])
  three : 0x7ff < c → c ≤ 0xffff → Encoded c ((0xe0 + c / 4096) ∷ cont (c / 64) ∷ cont c ∷ [])
  four :
      0xffff < c
      → c ≤ 0x10ffff
      → Encoded c ((0xf0 + c / 262144) ∷ cont (c / 4096) ∷ cont (c / 64) ∷ cont c ∷ [])

pub push-Encoded : (c : ℕ) → c ≤ 0x10ffff → Encoded c (push_codepoint c)
unfolding push_codepoint
push-Encoded c h = elim (Bool-cases (leb c 0x7f)) [
  | inl e₁ ↦ rw e₁ (one (ground arith))
  | inr n₁ ↦ rw n₁ (elim (Bool-cases (leb c 0x7ff)) [
    | inl e₂ ↦
        rw (e₂, lead_c0 (c / 64) (ground arith), cont_80 c) (two (ground arith) (ground arith))
    | inr n₂ ↦ rw n₂ (elim (Bool-cases (leb c 0xffff)) [
      | inl e₃ ↦
          rw (e₃, lead_e0 (c / 4096) (ground arith), cont_80 (c / 64), cont_80 c)
            (three (ground arith) (ground arith))
      | inr n₃ ↦
          rw
            (
              n₃,
              (let e : leb c 0x10ffff ≡ true = ground arith in e),
              lead_f0 (c / 262144) (omega arith),
              cont_80 (c / 4096),
              cont_80 (c / 64),
              cont_80 c,
            )
            (four (ground arith) h)
    ])
  ])
]

continuation : (x : ℕ) → is_utf8_continuation (cont x) ≡ true
unfolding is_utf8_continuation
continuation x = ground (arith, and_c0 (cont x))

-- A lead byte, its continuation bytes, and what they stand for.
pop_two_lem :
    (x y : ℕ) (rest : Bytes)
    → x < 32
    → pop_codepoint ((0xc0 + x) ∷ cont y ∷ rest) ≡ ok (x * 64 + y % 64) rest
unfolding pop_codepoint pop_two
pop_two_lem x y rest h = ground (
  arith,
  and_80 (0xc0 + x),
  and_e0 (0xc0 + x),
  and_1f (0xc0 + x),
  and_c0 (cont y),
  and_3f (cont y),
  or_field x (y % 64),
)

pop_three_lem :
    (x y z : ℕ) (rest : Bytes)
    → x < 16
    → pop_codepoint ((0xe0 + x) ∷ cont y ∷ cont z ∷ rest)
      ≡ ok (x * 4096 + y % 64 * 64 + z % 64) rest
unfolding pop_codepoint pop_three
pop_three_lem x y z rest h = ground (
  arith,
  and_80 (0xe0 + x),
  and_e0 (0xe0 + x),
  and_f0 (0xe0 + x),
  and_0f (0xe0 + x),
  and_c0 (cont y),
  and_3f (cont y),
  and_c0 (cont z),
  and_3f (cont z),
  or_two_fields x (y % 64) (z % 64),
)

pop_four_lem :
    (x y z w : ℕ) (rest : Bytes)
    → x < 8
    → pop_codepoint ((0xf0 + x) ∷ cont y ∷ cont z ∷ cont w ∷ rest)
      ≡ ok (x * 262144 + y % 64 * 4096 + z % 64 * 64 + w % 64) rest
unfolding pop_codepoint pop_four
pop_four_lem x y z w rest h = ground (
  arith,
  and_80 (0xf0 + x),
  and_e0 (0xf0 + x),
  and_f0 (0xf0 + x),
  and_f8 (0xf0 + x),
  and_07 (0xf0 + x),
  and_c0 (cont y),
  and_3f (cont y),
  and_c0 (cont z),
  and_3f (cont z),
  and_c0 (cont w),
  and_3f (cont w),
  or_three_fields x (y % 64) (z % 64) (w % 64),
)

pub pop-Encoded :
    {c : ℕ} {s : Bytes} → Encoded c s → (rest : Bytes) → pop_codepoint (s ++ rest) ≡ ok c rest
pop-Encoded {c} (one h) rest = pop_ascii c rest (omega arith)
pop-Encoded {c} (two _ h) rest =
    pop_two_lem (c / 64) c rest (omega arith) ∙ ap (λ t. ok t rest) (omega arith)
pop-Encoded {c} (three _ h) rest =
    pop_three_lem (c / 4096) (c / 64) c rest (omega arith) ∙ ap (λ t. ok t rest) (omega arith)
pop-Encoded {c} (four _ h) rest =
    pop_four_lem (c / 262144) (c / 4096) (c / 64) c rest (omega arith)
    ∙ ap (λ t. ok t rest) (omega arith)

-- Every code point up to 0x10FFFF is read back from what was written for it, and the rest is kept.
pub pop-push :
    (c : ℕ) (rest : Bytes) → c ≤ 0x10ffff → pop_codepoint (push_codepoint c ++ rest) ≡ ok c rest
pop-push c rest h = pop-Encoded (push-Encoded c h) rest

-- The bytes written are 1 to 4, as few as the code point's size allows; each is a byte; and nothing
-- is written exactly for a value above 0x10FFFF.
pub push_shape :
    (c : ℕ)
    → All IsByte (push_codepoint c)
      × (length (push_codepoint c) ≡ (
          if leb c 0x7f
          then 1
          else if leb c 0x7ff
          then 2
          else if leb c 0xffff
          then 3
          else if leb c 0x10ffff
          then 4
          else 0))
unfolding push_codepoint
push_shape c = ground (
  arith,
  lead_c0 (c / 64),
  lead_e0 (c / 4096),
  lead_f0 (c / 262144),
  cont_80 c,
  cont_80 (c / 64),
  cont_80 (c / 4096),
)
