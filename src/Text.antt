-- ===== src/Text.antt =====
-- The loops `while (_kdl_pop_codepoint(&s, &c) == KDL_UTF8_OK)` of src/str.c, src/parser.c and
-- src/emitter.c go through a string code point by code point. `text` is what such a loop meets: the
-- results of `_kdl_pop_codepoint` (`Utf8.pop_codepoint`), one after the other.
pub mod Laws
use ckdl.Prelude.{ℕ, zero, suc, ◌-◌, [], ◌∷◌, Bytes, length}
pub use ckdl.Prelude.{take}
use ckdl.Utf8.{Popped, ok, eof, incomplete, decode_error, pop_codepoint}

-- `char c p t`: the code point `c`, read from the bytes `p`, with `t` behind it. `finished` is
-- KDL_UTF8_EOF, `broken` any other status.
pub data Text : Type 0 where
  char : ℕ → Bytes → Text → Text
  finished broken : Text

-- The bytes between the start of `s` and `rest`, which is a tail of it.
abbrev pub front : Bytes → Bytes → Bytes
front s rest = take (length s - length rest) s

-- Each round takes a byte at least, so that the fuel `suc (length s)` is never used up.
unfoldable pub text_within : ℕ → Bytes → Text
text_within zero s = broken
text_within (suc fuel) s = elim (pop_codepoint s) [
  | ok c rest ↦ char c (front s rest) (text_within fuel rest)
  | eof ↦ finished
  | _ ↦ broken
]

unfoldable pub text : Bytes → Text
text s = text_within (suc (length s)) s
