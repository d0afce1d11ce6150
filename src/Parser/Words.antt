-- ===== src/Parser/Words.antt =====
-- src/parser.c: `_parse_value`, and the identifiers and keywords that a word may be.
use ckdl.Prelude.{
  Bool, true, false, not, ◌&&◌, ◌||◌, Option, none, some, [], ◌∷◌, within, ◌==◌, if◌then◌else◌,
  Bytes, codes, bytes_eq,
}
use ckdl.Grammar.{CharacterSet, v1, v2, is_id, is_id_start}
use ckdl.Text.{Text, char, finished, broken, text}
use ckdl.Str.UnescapeV1.{unescape_v1}
use ckdl.Str.UnescapeV2.{unescape_v2_single_line, str_contains_newline}
use ckdl.Str.Multiline.{dedent_multiline_string, unescape_v2_multi_line}
use ckdl.Number.{Floats, Number, floating_point}
use ckdl.Number.Parse.{parse_number}
use ckdl.Tokenizer.{
  TokenType, word, string, multiline_string, raw_string_v1, raw_string_v2, raw_multiline_string,
  Token,
}
use ckdl.Parser.{
  Version, version_1, version_2, v2_only, Value, null, boolean, number, Parser, set_version,
}

-- The loop of `_identifier_is_valid_v1` and `_identifier_is_valid_v2` behind the first character.
unfoldable pub all_id : CharacterSet → Text → Bool
all_id charset (char c p t) = is_id charset c && all_id charset t
all_id charset finished = true
all_id charset broken = false

unfoldable pub starts_id : CharacterSet → Text → Bool
unfolding all_id
starts_id charset (char c p t) = is_id_start charset c && all_id charset t
starts_id charset _ = false

unfoldable pub identifier_is_valid_v1 : Bytes → Bool
unfolding starts_id
identifier_is_valid_v1 value = starts_id v1 (text value)

-- Words that are no identifiers of KDL 2.
abbrev pub is_reserved : Bytes → Bool
is_reserved value =
    bytes_eq value (codes "inf")
    || bytes_eq value (codes "-inf")
    || bytes_eq value (codes "nan")
    || bytes_eq value (codes "null")
    || bytes_eq value (codes "true")
    || bytes_eq value (codes "false")

unfoldable pub identifier_is_valid_v2 : Bytes → Bool
unfolding starts_id
identifier_is_valid_v2 value = not (is_reserved value) && starts_id v2 (text value)

-- "either a number or an identifier": the first character behind a sign decides.
pub data WordForm : Type 0 where
  number_form almost_number identifier_form : WordForm

-- On the text from that character on; an almost-number is a point and a digit, which only the version
-- 2 bans.
abbrev pub form_of : Bool → Bytes → WordForm
form_of only_v2 [] = identifier_form
form_of only_v2 (c ∷ []) = if within b'0' b'9' c then number_form else identifier_form
form_of only_v2 (c ∷ d ∷ s) =
    if within b'0' b'9' c
    then number_form
    else if only_v2 && c == b'.' && within b'0' b'9' d
    then almost_number
    else identifier_form

unfoldable pub word_form : Bool → Bytes → WordForm
word_form only_v2 (c ∷ d ∷ s) =
    if c == b'+' || c == b'-' then form_of only_v2 (d ∷ s) else form_of only_v2 (c ∷ d ∷ s)
word_form only_v2 s = form_of only_v2 s

module _ (F : Floats) where
  open F use {Double, negate, infinity, nan}

  -- The result with the parser, whose version may be fixed by then; `none` is `false`.
  abbrev pub Parsed : Type 0
  Parsed = Option (Value Double) × Parser Double

  -- A value of one version, where the parser allows that version.
  abbrev pub in_version : Version → Bool → Option (Value Double) → Parser Double → Parsed
  in_version version allowed v p = if allowed then (v, set_version version p) else (none, p)

  abbrev pub string_value : Option Bytes → Option (Value Double)
  string_value none = none
  string_value (some s) = some (Value.string s)

  -- `case KDL_TOKEN_STRING`: what either version makes of the escapes.
  unfoldable pub choose_string : Option Bytes → Option Bytes → Parser Double → Parsed
  choose_string none none p = (none, p)
  choose_string none (some s) p = (some (Value.string s), set_version version_2 p)
  choose_string (some s) none p = (some (Value.string s), set_version version_1 p)
  choose_string (some s) (some s') p = (some (Value.string s'), p)

  unfoldable pub parse_string : Bytes → Parser Double → Parsed
  unfolding choose_string
  parse_string s p =
      choose_string (if p.opt.read_version_1 then unescape_v1 s else none)
        (if p.opt.read_version_2 then unescape_v2_single_line s else none) p

  -- "this is a regular identifier (or a syntax error)"
  unfoldable pub parse_identifier : Bytes → Parser Double → Parsed
  parse_identifier s p =
      let is_v1 = p.opt.read_version_1 && identifier_is_valid_v1 s in
      let is_v2 = p.opt.read_version_2 && identifier_is_valid_v2 s in
      if is_v1 && not is_v2
      then (some (Value.string s), set_version version_1 p)
      else if is_v2 && not is_v1
      then (some (Value.string s), set_version version_2 p)
      else if is_v1 || is_v2
      then (some (Value.string s), p)
      else (none, p)

  abbrev pub number_value : Option (Number Double) → Option (Value Double)
  number_value none = none
  number_value (some n) = some (number n)

  unfoldable pub parse_form : WordForm → Bytes → Parser Double → Parsed
  unfolding parse_identifier
  parse_form number_form s p = (number_value (parse_number F s), p)
  parse_form almost_number s p = (none, p)
  parse_form identifier_form s p = parse_identifier s p

  -- A word that is no keyword.
  unfoldable pub parse_plain_word : Bytes → Parser Double → Parsed
  unfolding parse_form word_form
  parse_plain_word s p = parse_form (word_form (v2_only p.opt) s) s p

  -- `case KDL_TOKEN_WORD`
  unfoldable pub parse_word : Bytes → Parser Double → Parsed
  unfolding parse_plain_word
  parse_word s p =
      let allows_1 = p.opt.read_version_1 in
      let allows_2 = p.opt.read_version_2 in
      if bytes_eq s (codes "null")
      then in_version version_1 allows_1 (some null) p
      else if bytes_eq s (codes "true")
      then in_version version_1 allows_1 (some (boolean true)) p
      else if bytes_eq s (codes "false")
      then in_version version_1 allows_1 (some (boolean false)) p
      else if allows_2 && bytes_eq s (codes "#null")
      then (some null, set_version version_2 p)
      else if allows_2 && bytes_eq s (codes "#true")
      then (some (boolean true), set_version version_2 p)
      else if allows_2 && bytes_eq s (codes "#false")
      then (some (boolean false), set_version version_2 p)
      else if allows_2 && bytes_eq s (codes "#inf")
      then (some (number (floating_point infinity)), set_version version_2 p)
      else if allows_2 && bytes_eq s (codes "#-inf")
      then (some (number (floating_point (negate infinity))), set_version version_2 p)
      else if allows_2 && bytes_eq s (codes "#nan")
      then (some (number (floating_point nan)), set_version version_2 p)
      else parse_plain_word s p

  -- `_parse_value` on the type and the text of the token.
  unfoldable pub parse_value_of : TokenType → Bytes → Parser Double → Parsed
  unfolding parse_string parse_word
  parse_value_of raw_string_v1 s p =
      in_version version_1 p.opt.read_version_1 (some (Value.string s)) p
  parse_value_of raw_string_v2 s p =
      in_version version_2 p.opt.read_version_2
        (if str_contains_newline s then none else some (Value.string s)) p
  parse_value_of raw_multiline_string s p =
      in_version version_2 p.opt.read_version_2 (string_value (dedent_multiline_string s)) p
  parse_value_of string s p = parse_string s p
  parse_value_of multiline_string s p =
      (if p.opt.read_version_2 then string_value (unescape_v2_multi_line s) else none, p)
  parse_value_of word s p = parse_word s p
  parse_value_of _ s p = (none, p)

  unfoldable pub parse_value : Token → Parser Double → Parsed
  unfolding parse_value_of
  parse_value token p = parse_value_of token.type token.value p
