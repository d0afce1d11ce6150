-- ===== src/Grammar.antt =====
-- src/tokenizer.c, declared in src/grammar.h: the character classes of KDL 1 and KDL 2.
use ckdl.Prelude.{ℕ, Bool, true, false, not, ◌&&◌, ◌||◌, ltb, leb, within, ◌==◌}

-- `kdl_version`, of include/kdl/common.h.
pub data Version : Type 0 where
  version_1 version_2 : Version

-- `kdl_character_set`; the constructors are those of the source.
pub data CharacterSet : Type 0 where
  v1 v2 : CharacterSet

abbrev pub is_v1 : CharacterSet → Bool
is_v1 v1 = true
is_v1 v2 = false

abbrev pub is_v2 : CharacterSet → Bool
is_v2 v1 = false
is_v2 v2 = true

unfoldable pub is_whitespace : CharacterSet → ℕ → Bool
is_whitespace charset c =
    c == 0x0009
    || c == 0x0020
    || c == 0x00A0
    || c == 0x1680
    || c == 0x2000
    || c == 0x2001
    || c == 0x2002
    || c == 0x2003
    || c == 0x2004
    || c == 0x2005
    || c == 0x2006
    || c == 0x2007
    || c == 0x2008
    || c == 0x2009
    || c == 0x200A
    || c == 0x202F
    || c == 0x205F
    || c == 0x3000
    || (is_v1 charset && c == 0xFEFF)
    || (is_v2 charset && c == 0x000B)

unfoldable pub is_newline : ℕ → Bool
is_newline c =
    c == 0x000D || c == 0x000A || c == 0x0085 || c == 0x000C || c == 0x2028 || c == 0x2029

unfoldable pub is_illegal_char : CharacterSet → ℕ → Bool
is_illegal_char charset c =
    is_v2 charset
    && (leb c 0x0008
        || within 0x000E 0x001F c
        || c == 0x007F
        || within 0xD800 0xDFFF c
        || c == 0x200E
        || c == 0x200F
        || within 0x202A 0x202E c
        || within 0x2066 0x2069 c
        || c == 0xFEFF
        || ltb 0x10FFFF c)

unfoldable pub is_word_char : CharacterSet → ℕ → Bool
is_word_char charset c =
    ltb 0x20 c
    && leb c 0x10FFFF
    && not (c == b'\\')
    && not (c == b'/')
    && not (c == b'(')
    && not (c == b')')
    && not (c == b'{')
    && not (c == b'}')
    && not (c == b';')
    && not (c == b'[')
    && not (c == b']')
    && not (c == b'"')
    && not (c == b'=')
    && not (is_v1 charset && (c == b'<' || c == b'>' || c == b','))
    && not (is_whitespace charset c)
    && not (is_newline c)
    && not (is_illegal_char charset c)

unfoldable pub is_id : CharacterSet → ℕ → Bool
is_id charset c = is_word_char charset c && not (is_v2 charset && c == b'#')

unfoldable pub is_word_start : CharacterSet → ℕ → Bool
is_word_start charset c = is_id charset c && (ltb c b'0' || ltb b'9' c)

unfoldable pub is_id_start : CharacterSet → ℕ → Bool
is_id_start charset c = is_word_start charset c && not (is_v2 charset && c == b'#')

unfoldable pub is_end_of_word : CharacterSet → ℕ → Bool
is_end_of_word charset c =
    is_whitespace charset c
    || is_newline c
    || c == b';'
    || c == b')'
    || c == b'}'
    || c == b'/'
    || c == b'\\'
    || c == b'='
