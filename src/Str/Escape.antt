-- ===== src/Str/Escape.antt =====
-- src/str.c: `kdl_escape_v1` and `kdl_escape_v2`.
use ckdl.Prelude.{
  ℕ, bit_and, Bool, not, ◌&&◌, ◌||◌, Option, none, some, [], ◌∷◌, ◌++◌, ltb, leb, ◌==◌,
  if◌then◌else◌, Bytes, ◌>>=◌,
}
use ckdl.Grammar.{v2, is_illegal_char}
use ckdl.Text.{Text, char, finished, broken, text}
use ckdl.Str.Hex.{u_escape}

-- `kdl_escape_mode` is a bit set.
abbrev pub escape_control : ℕ
escape_control = 0x10

abbrev pub escape_newline : ℕ
escape_newline = 0x20

abbrev pub escape_tab : ℕ
escape_tab = 0x40

abbrev pub escape_ascii_mode : ℕ
escape_ascii_mode = 0x170

-- `mode & flag`, as a condition.
abbrev pub has : ℕ → ℕ → Bool
has mode flag = not (bit_and mode flag == 0)

abbrev pub has_all : ℕ → ℕ → Bool
has_all mode flags = bit_and mode flags == flags

abbrev pub backslashed : ℕ → Bytes
backslashed c = b'\\' ∷ c ∷ []

-- The conditions of the `\u` escape.
abbrev pub must_hex_v1 : ℕ → ℕ → Bool
must_hex_v1 mode c =
    (has mode escape_control
      && ((ltb c 0x20 && not (c == 0x0A) && not (c == 0x0D) && not (c == 0x09) && not (c == 0x0C))
          || c == 0x7F))
    || (has mode escape_newline && (c == 0x85 || c == 0x2028 || c == 0x2029))
    || (has_all mode escape_ascii_mode && leb 0x7f c)

abbrev pub must_hex_v2 : ℕ → ℕ → Bool
must_hex_v2 mode c =
    is_illegal_char v2 c
    || (has mode escape_control && c == 0x0B)
    || (has mode escape_newline && (c == 0x85 || c == 0x2028 || c == 0x2029))
    || (has_all mode escape_ascii_mode && leb 0x7f c)

-- What one round of `kdl_escape_v1` appends for the code point `c`, which stands as `orig` in the
-- input; `none` is `goto esc_error`.
unfoldable pub escape_char_v1 : ℕ → ℕ → Bytes → Option Bytes
escape_char_v1 mode c orig =
    if c == 0x0A && has mode escape_newline
    then some (backslashed b'n')
    else if c == 0x0D && has mode escape_newline
    then some (backslashed b'r')
    else if c == 0x09 && has mode escape_tab
    then some (backslashed b't')
    else if c == 0x5C
    then some (backslashed b'\\')
    else if c == 0x22
    then some (backslashed b'"')
    else if c == 0x08 && has mode escape_control
    then some (backslashed b'b')
    else if c == 0x0C && has mode escape_newline
    then some (backslashed b'f')
    else if must_hex_v1 mode c
    then some (u_escape c)
    else if ltb 0x10ffff c
    then none
    else some orig

-- The same of `kdl_escape_v2`.
unfoldable pub escape_char_v2 : ℕ → ℕ → Bytes → Option Bytes
escape_char_v2 mode c orig =
    if ltb 0x10ffff c
    then none
    else if c == 0x0A && has mode escape_newline
    then some (backslashed b'n')
    else if c == 0x0D && has mode escape_newline
    then some (backslashed b'r')
    else if c == 0x09 && has mode escape_tab
    then some (backslashed b't')
    else if c == 0x5C
    then some (backslashed b'\\')
    else if c == 0x22
    then some (backslashed b'"')
    else if c == 0x08 && has mode escape_control
    then some (backslashed b'b')
    else if c == 0x0C && has mode escape_newline
    then some (backslashed b'f')
    else if must_hex_v2 mode c
    then some (u_escape c)
    else some orig

-- The loop over the code points; `out` is the text of the write buffer.
unfoldable pub escape_loop : (ℕ → Bytes → Option Bytes) → Text → Bytes → Option Bytes
escape_loop escape_char finished out = some out
escape_loop escape_char broken out = none
escape_loop escape_char (char c orig t) out = do
  piece ← escape_char c orig
  escape_loop escape_char t (out ++ piece)

unfoldable pub escape_v1 : Bytes → ℕ → Option Bytes
escape_v1 s mode = escape_loop (escape_char_v1 mode) (text s) []

unfoldable pub escape_v2 : Bytes → ℕ → Option Bytes
escape_v2 s mode = escape_loop (escape_char_v2 mode) (text s) []
