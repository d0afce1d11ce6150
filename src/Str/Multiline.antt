-- ===== src/Str/Multiline.antt =====
-- src/str.c: `_kdl_dedent_multiline_string` and `kdl_unescape_v2_multi_line`.
use ckdl.Prelude.{
  ℕ, Bool, true, false, ◌&&◌, Option, none, some, List, [], ◌∷◌, ◌++◌, ◌==◌, if◌then◌else◌, Bytes,
  ◌>>=◌,
}
use ckdl.Grammar.{v2, is_whitespace, is_newline}
use ckdl.Utf8.{push_codepoint}
use ckdl.Text.{Text, char, finished, broken, text}
use ckdl.Str.UnescapeV2.{borrow_str, remove_escaped_whitespace, resolve_escapes_v2}

-- `orig.data[0] == '\n'`, of the bytes of the next character.
unfoldable starts_with_lf : Bytes → Bool
starts_with_lf [] = false
starts_with_lf (b ∷ p) = b == b'\n'

-- "Normalize newlines first": each newline becomes a line feed. The flag is set behind a CR, which takes
-- a LF byte behind it along.
unfoldable pub normalize : Bool → Text → Option Bytes
unfolding starts_with_lf
normalize behind_cr finished = some []
normalize behind_cr broken = none
normalize behind_cr (char c p t) = do
  rest ← normalize (c == b'\r') t
  some (
      if behind_cr && starts_with_lf p
      then rest
      else if is_newline c
      then b'\n' ∷ rest
      else push_codepoint c ++ rest)

-- A byte in front of the first line, or of what is behind the last line feed where there is none.
abbrev pub prepend : ℕ → List Bytes → Bytes → List Bytes × Bytes
prepend b [] last = ([], b ∷ last)
prepend b (l ∷ ls) last = ((b ∷ l) ∷ ls, last)

-- The lines that a line feed ends, and what is behind the last line feed.
unfoldable pub split_lines : Bytes → List Bytes × Bytes
split_lines [] = ([], [])
split_lines (b ∷ s) =
    let r = split_lines s in if b == b'\n' then ([] ∷ r.0, r.1) else prepend b r.0 r.1

-- The loops that look whether all characters are whitespace, up to the end or to broken UTF-8.
unfoldable pub all_whitespace : Text → Bool
all_whitespace (char c p t) = is_whitespace v2 c && all_whitespace t
all_whitespace _ = true

-- `memcmp` of the start of the line with the indent; what is behind it.
unfoldable pub after_indent : Bytes → Bytes → Option Bytes
after_indent [] line = some line
after_indent (b ∷ indent) [] = none
after_indent (b ∷ indent) (c ∷ line) =
    let rest = after_indent indent line in if b == c then rest else none

-- A line without its line feed.
unfoldable pub dedent_line : Bytes → Bytes → Option Bytes
unfolding all_whitespace after_indent
dedent_line indent line = if all_whitespace (text line) then some [] else after_indent indent line

unfoldable pub dedent_lines : Bytes → List Bytes → Option Bytes
unfolding dedent_line
dedent_lines indent [] = some []
dedent_lines indent (l ∷ ls) = do
  out ← dedent_line indent l
  rest ← dedent_lines indent ls
  some (out ++ (b'\n' ∷ rest))

-- "Strip the final line feed".
unfoldable pub strip_final_lf : Bytes → Bytes
strip_final_lf [] = []
strip_final_lf (b ∷ []) = if b == b'\n' then [] else b ∷ []
strip_final_lf (b ∷ c ∷ s) = b ∷ strip_final_lf (c ∷ s)

-- The checks on the lines: there is a line feed, the indent is whitespace, the first line is empty.
unfoldable pub dedent_block : List Bytes → Bytes → Option Bytes
unfolding dedent_lines all_whitespace
dedent_block [] indent = none
dedent_block (first ∷ ls) indent =
    if all_whitespace (text indent)
    then elim first [
      | [] ↦ (dedent_lines indent ls >>= λ out. some (strip_final_lf out))
      | b ∷ s ↦ none
    ]
    else none

unfoldable pub dedent_multiline_string : Bytes → Option Bytes
unfolding dedent_block split_lines
dedent_multiline_string s = do
  norm_lf ← normalize false (text s)
  dedent_block (split_lines norm_lf).0 (split_lines norm_lf).1

-- A failure of `_kdl_remove_escaped_whitespace` is borrowed as the empty string, which fails to dedent.
unfoldable pub unescape_v2_multi_line : Bytes → Option Bytes
unfolding dedent_multiline_string
unescape_v2_multi_line s =
    dedent_multiline_string (borrow_str (remove_escaped_whitespace s)) >>= resolve_escapes_v2
