-- ===== src/Utf8.antt =====
-- src/utf8.c: reading a code point off the front of a `kdl_str`, and writing one.
-- A `kdl_str` is its bytes. `Popped` joins `kdl_utf8_status` with what the call leaves in `*codepoint`
-- and `*str`; on every status but `ok` both are left as they were.
pub mod RoundTrip
pub mod Prefix
use ckdl.Prelude.{
  ℕ, ◌*◌, ◌/◌, bit_and, bit_or, Bool, ◌&&◌, [], ◌∷◌, leb, ◌==◌, if◌then◌else◌, Bytes,
}

pub data Popped : Type 0 where
  ok : ℕ → Bytes → Popped
  eof incomplete decode_error : Popped

-- `_is_utf8_continuation`
unfoldable pub is_utf8_continuation : ℕ → Bool
is_utf8_continuation c = bit_and c 0xc0 == 0x80

pop_two : ℕ → Bytes → Popped
unfolding is_utf8_continuation
pop_two a (b ∷ s) =
    if is_utf8_continuation b
    then ok (bit_or (bit_and a 0x1f * 64) (bit_and b 0x3f)) s
    else decode_error
pop_two a s = incomplete

pop_three : ℕ → Bytes → Popped
unfolding is_utf8_continuation
pop_three a (b ∷ c ∷ s) =
    if is_utf8_continuation b && is_utf8_continuation c
    then ok (bit_or (bit_or (bit_and a 0xf * 4096) (bit_and b 0x3f * 64)) (bit_and c 0x3f)) s
    else decode_error
pop_three a s = incomplete

pop_four : ℕ → Bytes → Popped
unfolding is_utf8_continuation
pop_four a (b ∷ c ∷ d ∷ s) =
    if is_utf8_continuation b && is_utf8_continuation c && is_utf8_continuation d
    then ok
        (bit_or
          (bit_or (bit_or (bit_and a 0x7 * 262144) (bit_and b 0x3f * 4096)) (bit_and c 0x3f * 64))
          (bit_and d 0x3f))
        s
    else decode_error
pop_four a s = incomplete

-- `_kdl_pop_codepoint`; `<< 6`, `<< 12` and `<< 18` are products, which stay below 2^21.
unfoldable pub pop_codepoint : Bytes → Popped
unfolding pop_two pop_three pop_four
pop_codepoint [] = eof
pop_codepoint (a ∷ s) =
    if bit_and a 0x80 == 0
    then ok a s
    else if bit_and a 0xe0 == 0xc0
    then pop_two a s
    else if bit_and a 0xf0 == 0xe0
    then pop_three a s
    else if bit_and a 0xf8 == 0xf0
    then pop_four a s
    else decode_error

-- `_kdl_push_codepoint`: the bytes written to `buf`; their number is the result, and 0 means "too big".
unfoldable pub push_codepoint : ℕ → Bytes
push_codepoint c =
    if leb c 0x7f
    then c ∷ []
    else if leb c 0x7ff
    then bit_or 0xc0 (bit_and 0x1f (c / 64)) ∷ bit_or 0x80 (bit_and 0x3f c) ∷ []
    else if leb c 0xffff
    then bit_or 0xe0 (bit_and 0x0f (c / 4096))
      ∷ bit_or 0x80 (bit_and 0x3f (c / 64))
      ∷ bit_or 0x80 (bit_and 0x3f c)
      ∷ []
    else if leb c 0x10ffff
    then bit_or 0xf0 (bit_and 0x07 (c / 262144))
      ∷ bit_or 0x80 (bit_and 0x3f (c / 4096))
      ∷ bit_or 0x80 (bit_and 0x3f (c / 64))
      ∷ bit_or 0x80 (bit_and 0x3f c)
      ∷ []
    else []
