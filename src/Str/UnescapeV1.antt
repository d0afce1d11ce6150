-- ===== src/Str/UnescapeV1.antt =====
-- src/str.c: `kdl_unescape_v1`. The source goes through the bytes, and copies what stands between two
-- backslashes at once; here the run is copied byte by byte.
use ckdl.Prelude.{
  ℕ, ◌+◌, ◌-◌, ◌*◌, ◌%◌, ◌^◌, Option, none, some, [], ◌∷◌, ◌++◌, within, ◌==◌, if◌then◌else◌, Bytes,
  ◌>>=◌,
}
use ckdl.Utf8.{push_codepoint}

-- Where the loop stands: in plain text, behind a backslash, behind `\u`, or behind `\u{` and digits that
-- spell a value of `c`.
pub data Place : Type 0 where
  plain after_backslash after_u : Place
  in_hex : ℕ → Place

-- `c = (c << 4) + digit` in uint32_t; `none` for a character that is no digit.
unfoldable pub add_hex_digit : ℕ → ℕ → Option ℕ
add_hex_digit c p =
    if within b'0' b'9' p
    then some ((c * 16 % 2 ^ 32 + (p - b'0')) % 2 ^ 32)
    else if within b'a' b'f' p
    then some ((c * 16 % 2 ^ 32 + (p - b'a' + 0xa)) % 2 ^ 32)
    else if within b'A' b'F' p
    then some ((c * 16 % 2 ^ 32 + (p - b'A' + 0xa)) % 2 ^ 32)
    else none

-- `case` of the character behind a backslash.
unfoldable pub simple_escape_v1 : ℕ → Option ℕ
simple_escape_v1 p =
    if p == b'n'
    then some 0x0A
    else if p == b'r'
    then some 0x0D
    else if p == b't'
    then some 0x09
    else if p == b'\\'
    then some b'\\'
    else if p == b'/'
    then some b'/'
    else if p == b'"'
    then some b'"'
    else if p == b'b'
    then some 0x08
    else if p == b'f'
    then some 0x0C
    else none

-- `_kdl_buf_push_codepoint`, which fails for a value above 0x10FFFF.
abbrev pub push_or_fail : Bytes → ℕ → Option Bytes
push_or_fail out c = elim (push_codepoint c) [ [] ↦ none | b ∷ bs ↦ some (out ++ (b ∷ bs)) ]

-- One byte: the next place and the buffer, or `goto unesc_error`.
unfoldable pub unescape_byte : Place → ℕ → Bytes → Option (Place × Bytes)
unescape_byte plain p out =
    if p == b'\\' then some (after_backslash, out) else some (plain, out ++ (p ∷ []))
unescape_byte after_backslash p out =
    if p == b'u'
    then some (after_u, out)
    else (simple_escape_v1 p >>= λ c. some (plain, out ++ (c ∷ [])))
unescape_byte after_u p out = if p == b'{' then some (in_hex 0, out) else none
unescape_byte (in_hex c) p out =
    if p == b'}'
    then (push_or_fail out c >>= λ out'. some (plain, out'))
    else (add_hex_digit c p >>= λ c'. some (in_hex c', out))

-- The end of the input is an error inside an escape.
unfoldable pub unescape_end : Place → Bytes → Option Bytes
unescape_end plain out = some out
unescape_end _ out = none

unfoldable pub unescape_loop : Place → Bytes → Bytes → Option Bytes
unfolding unescape_end
unescape_loop place [] out = unescape_end place out
unescape_loop place (p ∷ s) out = do
  (place', out') ← unescape_byte place p out
  unescape_loop place' s out'

unfoldable pub unescape_v1 : Bytes → Option Bytes
unescape_v1 s = unescape_loop plain s []
