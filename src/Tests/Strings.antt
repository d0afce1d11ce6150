-- ===== src/Tests/Strings.antt =====
-- src/str.c on concrete inputs.
use ckdl.Prelude.{
  ℕ, List, All, inl, inr, ◌+◌, ◌≤◌, ◌≡◌, refl, arith, none, some, [], ◌∷◌, ◌++◌, Bytes, codes,
}
use ckdl.Utf8.{pop_codepoint, push_codepoint}
use ckdl.Text.{text, text_within}
use ckdl.Grammar.{is_newline, is_whitespace, is_illegal_char}
use ckdl.Text.Laws.{encode}
use ckdl.Str.Buffer.{
  WriteBuffer, IsWithin, buf_push_chars, buf_push_codepoint, push_chars_lem, push_codepoint_lem,
}
use ckdl.Str.Escape.{escape_v1, escape_v2}
use ckdl.Str.UnescapeV1.{unescape_v1}
use ckdl.Str.RoundTripV1.{unescape-escape_v1}
use ckdl.Str.UnescapeV2.{
  run, ws_step, ws_finish, remove_escaped_whitespace, resolve_step, resolve_finish,
  resolve_escapes_v2, simple_escape_v2, unescape_v2_single_line,
}
use ckdl.Str.Lines.{InIndent, IsLine, block, joined}
use ckdl.Str.Illegal.{unescape_v2_single_line_illegal}
use ckdl.Str.Dedent.{dedent_multiline_string-block}
use ckdl.Str.Multiline.{
  all_whitespace, dedent_multiline_string, unescape_v2_multi_line, normalize, split_lines,
  strip_final_lf,
}
use ckdl.Str.RoundTripV2.{unescape-escape_v2}

abbrev small_buffer : WriteBuffer
small_buffer = record { buf_len = 2; text = codes "ab" }

push_chars_example :
    ((buf_push_chars small_buffer (codes "cd")).text ≡ codes "abcd")
    × IsWithin (buf_push_chars small_buffer (codes "cd"))
push_chars_example = push_chars_lem small_buffer (codes "cd") (omega arith)

push_codepoint_example :
    (0x20ac ≤ 0x10ffff
      → (b : WriteBuffer) × (buf_push_codepoint small_buffer 0x20ac ≡ some b)
        × (b.text ≡ codes "ab" ++ push_codepoint 0x20ac)
        × IsWithin b)
    × (0x10ffff + 1 ≤ 0x20ac → buf_push_codepoint small_buffer 0x20ac ≡ none)
push_codepoint_example = push_codepoint_lem small_buffer 0x20ac (omega arith)

unescape-escape_v1_example :
    (e : Bytes) × (escape_v1 (encode (b'a' ∷ 0x0a ∷ b'"' ∷ 0x2028 ∷ [])) 0x70 ≡ some e)
    × (unescape_v1 e ≡ some (encode (b'a' ∷ 0x0a ∷ b'"' ∷ 0x2028 ∷ [])))
unescape-escape_v1_example =
    unescape-escape_v1 0x70 (b'a' ∷ 0x0a ∷ b'"' ∷ 0x2028 ∷ []) (omega arith)

unescape-escape_v2_example :
    (e : Bytes) × (escape_v2 (encode (b'a' ∷ 0x0a ∷ b'"' ∷ 0x2028 ∷ [])) 0x70 ≡ some e)
    × (unescape_v2_single_line e ≡ some (encode (b'a' ∷ 0x0a ∷ b'"' ∷ 0x2028 ∷ [])))
unescape-escape_v2_example =
    unescape-escape_v2 0x70 (b'a' ∷ 0x0a ∷ b'"' ∷ 0x2028 ∷ []) refl
      ((omega arith, refl), ((omega arith, refl), ((omega arith, refl), ((omega arith, refl), tt))))

-- Two lines, of which the second is indented further, and a blank one between them.
multi_line_block :
    unescape_v2_multi_line (codes "\r\n  a\n\n    b\\tc\n  ") ≡ some (codes "a\n\n  b\tc")
unfolding unescape_v2_multi_line normalize text text_within pop_codepoint is_newline is_whitespace
    is_illegal_char push_codepoint remove_escaped_whitespace run ws_step ws_finish split_lines
    resolve_escapes_v2 resolve_step resolve_finish simple_escape_v2 strip_final_lf
multi_line_block = refl

multi_line_short_indent : unescape_v2_multi_line (codes "\n a\n  ") ≡ none
unfolding unescape_v2_multi_line normalize text text_within pop_codepoint is_newline is_whitespace
    is_illegal_char push_codepoint remove_escaped_whitespace run ws_step ws_finish split_lines
    resolve_escapes_v2 resolve_step resolve_finish simple_escape_v2 strip_final_lf
multi_line_short_indent = refl

abbrev two_spaces : List ℕ
two_spaces = b' ' ∷ b' ' ∷ []

two_spaces-InIndent : All InIndent two_spaces
unfolding is_newline is_whitespace
two_spaces-InIndent = ((((omega arith), refl), refl), ((((omega arith), refl), refl), tt))

abbrev three_lines : List (List ℕ)
three_lines = (b'a' ∷ []) ∷ [] ∷ (b' ' ∷ b'b' ∷ []) ∷ []

three_lines-IsLine : All IsLine three_lines
unfolding is_newline is_whitespace all_whitespace
three_lines-IsLine = (
  ((((omega arith), refl), tt), inr refl),
  ((tt, inl refl), (((((omega arith), refl), (((omega arith), refl), tt)), inr refl), tt)),
)

dedent_multiline_string-block_example :
    dedent_multiline_string (encode (block two_spaces three_lines))
    ≡ some (encode (joined three_lines))
dedent_multiline_string-block_example =
    dedent_multiline_string-block two_spaces two_spaces-InIndent three_lines three_lines-IsLine

-- `a`, a control character, `b`.
unescape_v2_single_line_illegal_example :
    (remove_escaped_whitespace (encode (b'a' ∷ 1 ∷ b'b' ∷ [])) ≡ none)
    × (unescape_v2_single_line (encode (b'a' ∷ 1 ∷ b'b' ∷ [])) ≡ some [])
unfolding is_illegal_char
unescape_v2_single_line_illegal_example =
    unescape_v2_single_line_illegal (b'a' ∷ []) 1 (b'b' ∷ []) (((omega arith), refl, refl), tt)
      (omega arith) refl ((omega arith), tt)
