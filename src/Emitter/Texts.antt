-- ===== src/Emitter/Texts.antt =====
-- What src/emitter.c writes of strings and values, as text: names bare or between quotes, keywords with
-- the `#` of version 2.
use ckdl.Prelude.{
  true, false, Option, none, some, ◌∷◌, ◌++◌, if◌then◌else◌, Bytes, codes, print_int,
}
use ckdl.Grammar.{version_1, version_2}
use ckdl.Str.Versions.{escape_v}
use ckdl.Str.UnescapeV2.{borrow_str}
use ckdl.Number.{Number, integer, floating_point, string_encoded}
use ckdl.Parser.{Value, null, boolean, number, string}
use ckdl.Emitter.{EmitterOptions}
use ckdl.Emitter.Values.{is_bare}

module _ (o : EmitterOptions) where
  abbrev pub quoted_text : Bytes → Bytes
  quoted_text s = codes "\"" ++ (borrow_str (escape_v o.version s o.escape_mode) ++ codes "\"")

  abbrev pub name_text : Bytes → Bytes
  name_text s = if is_bare o s then s else quoted_text s

  abbrev pub string_text : Bytes → Bytes
  string_text s = elim (o.version) [ version_1 ↦ quoted_text s | version_2 ↦ name_text s ]

  abbrev pub type_text : Bytes → Bytes
  type_text t = codes "(" ++ (name_text t ++ codes ")")

  abbrev pub keyword_text : Bytes → Bytes
  keyword_text s = elim (o.version) [ version_1 ↦ s | version_2 ↦ b'#' ∷ s ]

  module _ {D : Type 0} (float_text : D → Bytes) where
    abbrev pub number_text : Number D → Bytes
    number_text (integer i) = print_int i
    number_text (floating_point f) = float_text f
    number_text (string_encoded s) = s

    abbrev pub plain_value_text : Value D → Bytes
    plain_value_text null = keyword_text (codes "null")
    plain_value_text (boolean true) = keyword_text (codes "true")
    plain_value_text (boolean false) = keyword_text (codes "false")
    plain_value_text (number n) = number_text n
    plain_value_text (string s) = string_text s

    abbrev pub value_text : Option Bytes → Value D → Bytes
    value_text none v = plain_value_text v
    value_text (some t) v = type_text t ++ plain_value_text v
