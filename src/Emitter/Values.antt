-- ===== src/Emitter/Values.antt =====
-- src/emitter.c: strings, numbers and values.
use ckdl.Prelude.{
  ℕ, Bool, true, false, not, ◌&&◌, ◌||◌, Option, none, some, [], ◌∷◌, leb, if◌then◌else◌, Bytes,
  codes, print_int,
}
use ckdl.Grammar.{Version, version_1, version_2, CharacterSet, v1, v2, is_id, is_id_start}
use ckdl.Text.{Text, char, finished, broken, text}
use ckdl.Str.Escape.{escape_ascii_mode, has_all}
use ckdl.Str.UnescapeV2.{borrow_str}
use ckdl.Str.Versions.{escape_v}
use ckdl.Number.{Number, integer, floating_point, string_encoded}
use ckdl.Parser.{Value, null, boolean, number, string}
use ckdl.Emitter.{
  IdentifierMode, quote_all_identifiers, ascii_identifiers, EmitterOptions, WriteFunc, Emit, write,
  ◌and_then◌,
}
use ckdl.Emitter.Float.{PrintFloats, float_to_string}

-- The character set and `require_ascii` of `_emit_bare_string`.
abbrev pub character_set_of : Version → CharacterSet
character_set_of version_1 = v1
character_set_of version_2 = v2

abbrev pub wants_ascii : IdentifierMode → Bool
wants_ascii ascii_identifiers = true
wants_ascii _ = false

unfoldable pub require_ascii : EmitterOptions → Bool
require_ascii opt = wants_ascii opt.identifier_mode || has_all opt.escape_mode escape_ascii_mode

-- The loop of `_emit_bare_string`, with `first`: it ends well at the end and at a decode error.
unfoldable pub bare_text : EmitterOptions → Bool → Text → Bool
unfolding require_ascii
bare_text opt first (char c p t) =
    let rest = bare_text opt false t in
    let charset = character_set_of opt.version in
    if (first && not (is_id_start charset c))
      || (not (is_id charset c) || (require_ascii opt && leb 0x7f c))
    then false
    else rest
bare_text opt first finished = true
bare_text opt first broken = true

-- What `bare` is in the end.
unfoldable pub bare_in_mode : EmitterOptions → IdentifierMode → Bytes → Bool
unfolding bare_text
bare_in_mode opt quote_all_identifiers s = false
bare_in_mode opt _ [] = false
bare_in_mode opt _ (c ∷ s) = bare_text opt true (text (c ∷ s))

unfoldable pub is_bare : EmitterOptions → Bytes → Bool
unfolding bare_in_mode
is_bare opt s = bare_in_mode opt opt.identifier_mode s

module _ {W : Type 0} (write_func : WriteFunc W) where
  -- `_emit_quoted_str`: where the text cannot be escaped, nothing stands between the quotes.
  unfoldable pub emit_quoted_str : Bytes → Emit W
  unfolding write
  emit_quoted_str s e =
      (write write_func (codes "\"")
          and_then (write write_func (borrow_str (escape_v e.opt.version s e.opt.escape_mode))
              and_then write write_func (codes "\"")))
        e

  -- `_emit_bare_string`
  unfoldable pub emit_bare_string : Bytes → Emit W
  unfolding is_bare emit_quoted_str
  emit_bare_string s e = if is_bare e.opt s then write write_func s e else emit_quoted_str s e

  -- `_emit_string`
  unfoldable pub emit_string : Bytes → Emit W
  unfolding emit_bare_string
  emit_string s e = elim (e.opt.version) [
    | version_1 ↦ emit_quoted_str s e
    | version_2 ↦ emit_bare_string s e
  ]

  -- `_emit_type`: the bytes of "(" and ")" around a type annotation.
  unfoldable pub emit_type : Bytes → Emit W
  unfolding emit_bare_string
  emit_type t =
      write write_func (codes "(")
      and_then (emit_bare_string t and_then write write_func (codes ")"))

  -- Text that is the same but for the `#` of version 2.
  unfoldable pub emit_keyword : Bytes → Emit W
  unfolding write
  emit_keyword s e = elim (e.opt.version) [
    | version_1 ↦ write write_func s e
    | version_2 ↦ write write_func (b'#' ∷ s) e
  ]

  module _ {D : Type 0} (F : PrintFloats D) (fuel : ℕ) where
    -- `_emit_number`. Where the fuel of the digits runs out, the emitter has no answer from then on.
    unfoldable pub emit_number : Number D → Emit W
    unfolding write float_to_string
    emit_number (integer i) e = write write_func (print_int i) e
    emit_number (floating_point f) e = elim (float_to_string F fuel e.opt.float_mode f) [
      | none ↦ (record e { no_answer = true }, false)
      | some s ↦ write write_func s e
    ]
    emit_number (string_encoded s) e = write write_func s e

    -- The switch of `_emit_value`.
    unfoldable pub emit_plain_value : Value D → Emit W
    unfolding emit_string emit_number emit_keyword
    emit_plain_value null = emit_keyword (codes "null")
    emit_plain_value (boolean true) = emit_keyword (codes "true")
    emit_plain_value (boolean false) = emit_keyword (codes "false")
    emit_plain_value (number n) = emit_number n
    emit_plain_value (string s) = emit_string s

    -- `_emit_value`, of a type annotation and a value.
    unfoldable pub emit_value : Option Bytes → Value D → Emit W
    unfolding emit_type emit_plain_value
    emit_value none v = emit_plain_value v
    emit_value (some t) v = emit_type t and_then emit_plain_value v
