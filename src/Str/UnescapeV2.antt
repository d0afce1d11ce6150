-- ===== src/Str/UnescapeV2.antt =====
-- src/str.c: `kdl_unescape_v2_single_line` and its parts. The loops go through the code points; where
-- the source pops characters ahead in an inner loop, the model keeps the place in the loops as a state.
use ckdl.Prelude.{
  ℕ, Bool, false, ◌||◌, Option, none, some, [], ◌∷◌, ◌++◌, within, ◌==◌, if◌then◌else◌, Bytes,
  ◌>>=◌,
}
use ckdl.Grammar.{v2, is_whitespace, is_newline, is_illegal_char}
use ckdl.Utf8.{push_codepoint}
use ckdl.Text.{Text, char, finished, broken, text}
use ckdl.Str.UnescapeV1.{
  Place, plain, after_backslash, after_u, in_hex, add_hex_digit, push_or_fail,
}

-- A loop over the code points of a string: one step for each, `finish` at the end; a string that is no
-- UTF-8 up to its end is an error.
unfoldable pub run {ℓ} :
    {S : Type ℓ}
    → (S → ℕ → Bytes → Option (S × Bytes))
    → (S → Bytes → Option Bytes)
    → S
    → Text
    → Bytes
    → Option Bytes
run step finish s finished out = finish s out
run step finish s broken out = none
run step finish s (char c p t) out = do (s', out') ← step s c out; run step finish s' t out'

-- `_kdl_remove_escaped_whitespace`: copying, right behind a backslash, or in whitespace behind one.
pub data WsPlace : Type 0 where
  copying behind_backslash skipping : WsPlace

abbrev pub is_blank : ℕ → Bool
is_blank c = is_whitespace v2 c || is_newline c

-- A character at the head of the outer loop. The result of `_kdl_buf_push_codepoint` is not looked at.
unfoldable pub copy_char : ℕ → Bytes → Option (WsPlace × Bytes)
copy_char c out =
    if is_illegal_char v2 c
    then none
    else if c == b'\\'
    then some (behind_backslash, out)
    else some (copying, out ++ push_codepoint c)

unfoldable pub ws_step : WsPlace → ℕ → Bytes → Option (WsPlace × Bytes)
unfolding copy_char
ws_step copying c out = copy_char c out
ws_step skipping c out = if is_blank c then some (skipping, out) else copy_char c out
ws_step behind_backslash c out =
    if is_blank c then some (skipping, out) else some (copying, out ++ (b'\\' ∷ push_codepoint c))

unfoldable pub ws_finish : WsPlace → Bytes → Option Bytes
ws_finish behind_backslash out = some (out ++ b'\\' ∷ [])
ws_finish _ out = some out

unfoldable pub remove_escaped_whitespace : Bytes → Option Bytes
remove_escaped_whitespace s = run ws_step ws_finish copying (text s) []

-- `_kdl_str_contains_newline`, which also ends where the string is no UTF-8.
unfoldable pub text_contains_newline : Text → Bool
text_contains_newline finished = false
text_contains_newline broken = false
text_contains_newline (char c p t) = is_newline c || text_contains_newline t

unfoldable pub str_contains_newline : Bytes → Bool
str_contains_newline s = text_contains_newline (text s)

-- `case` of the character behind a backslash in `_kdl_resolve_escapes_v2`.
unfoldable pub simple_escape_v2 : ℕ → Option ℕ
simple_escape_v2 c =
    if c == b'n'
    then some 0x0A
    else if c == b'r'
    then some 0x0D
    else if c == b't'
    then some 0x09
    else if c == b's'
    then some 0x20
    else if c == b'\\'
    then some b'\\'
    else if c == b'"'
    then some b'"'
    else if c == b'b'
    then some 0x08
    else if c == b'f'
    then some 0x0C
    else none

unfoldable pub resolve_step : Place → ℕ → Bytes → Option (Place × Bytes)
resolve_step plain c out =
    if is_illegal_char v2 c
    then none
    else if c == b'\\'
    then some (after_backslash, out)
    else some (plain, out ++ push_codepoint c)
resolve_step after_backslash c out =
    if c == b'u'
    then some (after_u, out)
    else (simple_escape_v2 c >>= λ d. some (plain, out ++ d ∷ []))
resolve_step after_u c out = if c == b'{' then some (in_hex 0, out) else none
resolve_step (in_hex r) c out =
    if c == b'}'
    then (if within 0xD800 0xDFFF r
        then none
        else (push_or_fail out r >>= λ out'. some (plain, out')))
    else (add_hex_digit r c >>= λ r'. some (in_hex r', out))

unfoldable pub resolve_finish : Place → Bytes → Option Bytes
resolve_finish plain out = some out
resolve_finish _ out = none

unfoldable pub resolve_escapes_v2 : Bytes → Option Bytes
resolve_escapes_v2 s = run resolve_step resolve_finish plain (text s) []

-- `kdl_borrow_str` of an owned string: a string with no data has length 0.
abbrev pub borrow_str : Option Bytes → Bytes
borrow_str none = []
borrow_str (some s) = s

-- `kdl_unescape_v2_single_line`. The result of `_kdl_remove_escaped_whitespace` is borrowed without a
-- look at whether there is one.
unfoldable pub unescape_v2_single_line : Bytes → Option Bytes
unescape_v2_single_line s =
    let escaped = borrow_str (remove_escaped_whitespace s) in
    if str_contains_newline escaped then none else resolve_escapes_v2 escaped
