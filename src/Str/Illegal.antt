-- ===== src/Str/Illegal.antt =====
-- src/str.c: `kdl_unescape_v2_single_line` on a string with an illegal character.
use ckdl.Prelude.{
  ℕ, ◌∙◌, ◌≡◌, true, false, none, some, List, [], ◌∷◌, ◌++◌, ◌==◌, Bytes, All, All-append,
}
use ckdl.Grammar.{v2, is_illegal_char}
use ckdl.Utf8.{push_codepoint}
use ckdl.Text.{Text, char, finished, text}
use ckdl.Text.Laws.{IsCodepoint, encode, chars, text_of_encoded, chars-append, text-nil}
use ckdl.Str.UnescapeV2.{
  run, copying, ws_step, ws_finish, remove_escaped_whitespace, text_contains_newline,
  str_contains_newline, resolve_finish, resolve_escapes_v2, unescape_v2_single_line,
}

-- A legal character without a meaning of its own.
abbrev pub IsCopied : ℕ → Type 0
IsCopied c = IsCodepoint c × (is_illegal_char v2 c ≡ false) × ((c == b'\\') ≡ false)

stops_at_illegal :
    (cs : List ℕ) (c : ℕ) (t : Text) (p out : Bytes)
    → All IsCopied cs
    → is_illegal_char v2 c ≡ true
    → run ws_step ws_finish copying (chars cs (char c p t)) out ≡ none
unfolding run ws_step
stops_at_illegal [] c t p out h bad = rw bad
stops_at_illegal (d ∷ cs) c t p out ((hd, legal, plain), hs) bad =
    rw (legal, plain) (stops_at_illegal cs c t p (out ++ push_codepoint d) hs bad)

nothing_to_do : (str_contains_newline [] ≡ false) × (resolve_escapes_v2 [] ≡ some [])
unfolding str_contains_newline text_contains_newline resolve_escapes_v2 run resolve_finish
nothing_to_do = (rw text-nil, rw text-nil)

Copied-IsCodepoint : (cs : List ℕ) → All IsCopied cs → All IsCodepoint cs
Copied-IsCodepoint [] h = tt
Copied-IsCodepoint (c ∷ cs) (h, hs) = (h.0, Copied-IsCodepoint cs hs)

-- An illegal character behind legal ones without a backslash makes `kdl_unescape_v2_single_line` return
-- the empty string as a success, where `_kdl_remove_escaped_whitespace` fails and the function is meant
-- to fail too.
pub unescape_v2_single_line_illegal :
    (cs : List ℕ) (c : ℕ) (rest : List ℕ)
    → All IsCopied cs
    → IsCodepoint c
    → is_illegal_char v2 c ≡ true
    → All IsCodepoint rest
    → (remove_escaped_whitespace (encode (cs ++ (c ∷ rest))) ≡ none)
      × (unescape_v2_single_line (encode (cs ++ (c ∷ rest))) ≡ some [])
unfolding unescape_v2_single_line remove_escaped_whitespace
unescape_v2_single_line_illegal cs c rest h hc bad hr =
    let read : text (encode (cs ++ (c ∷ rest)))
        ≡ chars cs (char c (push_codepoint c) (chars rest finished)) =
      text_of_encoded (cs ++ (c ∷ rest))
        (All-append _ cs (c ∷ rest) (Copied-IsCodepoint cs h) (hc, hr))
      ∙ chars-append cs (c ∷ rest) finished in
    let failed : remove_escaped_whitespace (encode (cs ++ (c ∷ rest))) ≡ none =
      rw read (stops_at_illegal cs c (chars rest finished) (push_codepoint c) [] h bad) in
    (failed, rw (failed, nothing_to_do.0, nothing_to_do.1))
