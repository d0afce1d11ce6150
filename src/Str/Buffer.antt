-- ===== src/Str/Buffer.antt =====
-- src/str.c: `_kdl_write_buffer`. Allocation succeeds; sizes stay below the range of `size_t`.
use ckdl.Prelude.{
  ℕ, ◌+◌, ◌-◌, ◌≤◌, ◌≡◌, refl, arith, Option, none, some, [], ◌∷◌, ◌++◌, ltb, leb, ◌==◌,
  if◌then◌else◌, Bytes, length, length-append,
}
use ckdl.Utf8.{push_codepoint}
use ckdl.Utf8.RoundTrip.{push_shape}

abbrev pub buffer_size_increment : ℕ
buffer_size_increment = 1024

-- `text` is the first `str_len` bytes of `buf`.
pub record WriteBuffer : Type 0 where
  pub buf_len : ℕ
  pub text : Bytes

unfoldable pub new_write_buffer : ℕ → WriteBuffer
new_write_buffer initial_size = record { buf_len = initial_size; text = [] }

-- Room for `count` more bytes: the reallocation that both functions begin with.
unfoldable pub reserve : WriteBuffer → ℕ → WriteBuffer
reserve b count =
    if ltb (b.buf_len - length b.text) count
    then record b {
      buf_len =
          b.buf_len + (if leb count buffer_size_increment then buffer_size_increment else count);
    }
    else b

-- `_kdl_buf_push_chars`; `count` is the length of `s`.
unfoldable pub buf_push_chars : WriteBuffer → Bytes → WriteBuffer
unfolding reserve
buf_push_chars b s = let b' = reserve b (length s) in record b' { text = b'.text ++ s }

-- `_kdl_buf_push_char`
unfoldable pub buf_push_char : WriteBuffer → ℕ → WriteBuffer
unfolding buf_push_chars
buf_push_char b c = buf_push_chars b (c ∷ [])

-- `_kdl_buf_push_codepoint`: `none` is `false`, for a value that is no code point. (The source has
-- made room by then, and keeps the text.)
unfoldable pub buf_push_codepoint : WriteBuffer → ℕ → Option WriteBuffer
unfolding reserve
buf_push_codepoint b c =
    let b' = reserve b 4 in
    let pushed = push_codepoint c in
    if length pushed == 0 then none else some (record b' { text = b'.text ++ pushed })

-- What is written lies inside the allocation.
abbrev pub IsWithin : WriteBuffer → Type 0
IsWithin b = length b.text ≤ b.buf_len

reserve-room :
    (b : WriteBuffer) (count : ℕ)
    → IsWithin b
    → (length (reserve b count).text + count ≤ (reserve b count).buf_len)
      × ((reserve b count).text ≡ b.text)
unfolding reserve
reserve-room b count h = ground arith

-- Appending bytes writes them behind the text, inside the allocation as it then is.
pub push_chars_lem :
    (b : WriteBuffer) (s : Bytes)
    → IsWithin b
    → ((buf_push_chars b s).text ≡ b.text ++ s) × IsWithin (buf_push_chars b s)
unfolding buf_push_chars
push_chars_lem b s h = ground (arith, length-append b.text s)

-- Appending a code point writes its UTF-8 behind the text, inside the allocation, and fails exactly
-- where there is none.
pub push_codepoint_lem :
    (b : WriteBuffer) (c : ℕ)
    → IsWithin b
    → (c ≤ 0x10ffff
        → (b' : WriteBuffer) × (buf_push_codepoint b c ≡ some b')
          × (b'.text ≡ b.text ++ push_codepoint c)
          × IsWithin b')
      × (0x10ffff + 1 ≤ c → buf_push_codepoint b c ≡ none)
unfolding buf_push_codepoint
push_codepoint_lem b c h = (
  λ small. (
    record { buf_len = (reserve b 4).buf_len; text = b.text ++ push_codepoint c },
    ground (arith, push_shape c, reserve-room b 4),
    refl,
    ground (arith, push_shape c, reserve-room b 4, length-append b.text (push_codepoint c)),
  ),
  λ big. ground (arith, push_shape c),
)
