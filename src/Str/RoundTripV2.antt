-- ===== src/Str/RoundTripV2.antt =====
-- src/str.c: `kdl_unescape_v2_single_line` undoes `kdl_escape_v2`.
use ckdl.Prelude.{
  ℕ, ◌≡◌, refl, sym, ap, ◌∙◌, arith, true, false, some, List, [], ◌∷◌, ◌++◌, append_assoc,
  append-nil, Bytes, All, All-append,
}
use ckdl.Utf8.{push_codepoint}
use ckdl.Text.{finished}
use ckdl.Text.Laws.{
  IsCodepoint, encode, chars, text_of_encoded, encode-append, chars-append, encode_ascii,
}
use ckdl.Str.Hex.{hex_onto, u_escape}
use ckdl.Str.Escape.{escape_char_v2, escape_loop, escape_v2, has, escape_newline}
use ckdl.Str.Escaped.{EscapedAs, short, hex, kept, KeptV2, escape_char_v2-Fate}
use ckdl.Str.UnescapeV1.{plain}
use ckdl.Str.UnescapeV2.{
  run, ws_finish, remove_escaped_whitespace, text_contains_newline, str_contains_newline,
  resolve_finish, resolve_escapes_v2, unescape_v2_single_line,
}
use ckdl.Str.StandsFor.{
  ws_run, resolve_run, Short-IsAscii, Short-StandsFor, kept-StandsFor, StandsFor,
}
use ckdl.Str.HexStandsFor.{safe-IsAscii, braced, braced-IsSafe, IsScalar, hex-StandsFor}

-- Each piece that `kdl_escape_v2` writes is the UTF-8 of code points that stand for the original.
piece-StandsFor :
    (c : ℕ) (piece : Bytes)
    → IsScalar c
    → EscapedAs KeptV2 c piece
    → (ps : List ℕ) × (encode ps ≡ piece) × StandsFor c ps
piece-StandsFor c piece h (short x e) =
    (b'\\' ∷ x ∷ [], encode_ascii _ (omega arith, (Short-IsAscii e, tt)), Short-StandsFor x c e)
piece-StandsFor c piece h hex = (
  u_escape c,
  unfold u_escape hex_onto in
      encode_ascii (u_escape c)
        (omega arith, (omega arith, (safe-IsAscii (braced c) (braced-IsSafe c)).0)),
  hex-StandsFor c h,
)
piece-StandsFor c piece (h, _) (kept k) =
    (c ∷ [], append-nil (push_codepoint c), kept-StandsFor c h k)

-- The escaped form of some code points, with what each pass makes of it.
record Passes (mode : ℕ) (cs ps : List ℕ) : Type 0 where
  points : All IsCodepoint ps
  written :
      (out : Bytes)
      → escape_loop (escape_char_v2 mode) (chars cs finished) out ≡ some (out ++ encode ps)
  whole : (out : Bytes) → ws_run (chars ps finished) out ≡ some (out ++ encode ps)
  no_newline : text_contains_newline (chars ps finished) ≡ false
  read : (out : Bytes) → resolve_run plain (chars ps finished) out ≡ some (out ++ encode cs)

nil-Passes : (mode : ℕ) → Passes mode [] []
unfolding escape_loop run ws_finish resolve_finish text_contains_newline
nil-Passes mode = record {
  points = tt;
  written = λ out. rw append-nil;
  whole = λ out. rw append-nil;
  no_newline = refl;
  read = λ out. rw append-nil;
}

cons-Passes :
    (mode c : ℕ) (cs qs ps : List ℕ)
    → escape_char_v2 mode c (push_codepoint c) ≡ some (encode qs)
    → StandsFor c qs
    → Passes mode cs ps
    → Passes mode (c ∷ cs) (qs ++ ps)
unfolding escape_loop
cons-Passes mode c cs qs ps e s p = record {
  points = All-append IsCodepoint qs ps s.codepoints p.points;
  written = λ out.
      rw (e, encode-append qs ps)
        (p.written (out ++ encode qs) ∙ ap some (append_assoc out (encode qs) (encode ps)));
  whole = λ out.
      rw (chars-append qs ps finished, encode-append qs ps)
        (s.stays (chars ps finished) out
          ∙ p.whole (out ++ encode qs)
          ∙ ap some (append_assoc out (encode qs) (encode ps)));
  no_newline = rw (chars-append qs ps finished) (s.one_line (chars ps finished) ∙ p.no_newline);
  read = λ out. rw (chars-append qs ps finished) (
      s.resolves (chars ps finished) out
      ∙ p.read (out ++ push_codepoint c)
      ∙ ap some (append_assoc out (push_codepoint c) (encode cs)));
}

escaped-Passes :
    (mode : ℕ) (cs : List ℕ)
    → has mode escape_newline ≡ true
    → All IsScalar cs
    → (ps : List ℕ) × Passes mode cs ps
escaped-Passes mode [] flag h = ([], nil-Passes mode)
escaped-Passes mode (c ∷ cs) flag (hc, hs) =
    let (piece, run_, as_piece) = escape_char_v2-Fate mode c flag hc.0 in
    let (qs, same, stands) = piece-StandsFor c piece hc as_piece in
    let (ps, later) = escaped-Passes mode cs flag hs in
    (qs ++ ps, cons-Passes mode c cs qs ps (run_ ∙ ap some (sym same)) stands later)

Scalar-IsCodepoint : (cs : List ℕ) → All IsScalar cs → All IsCodepoint cs
Scalar-IsCodepoint [] h = tt
Scalar-IsCodepoint (c ∷ cs) (hc, hs) = (hc.0, Scalar-IsCodepoint cs hs)

-- In every escape mode with KDL_ESCAPE_NEWLINE, `kdl_escape_v2` succeeds on any text of Unicode scalar
-- values, and `kdl_unescape_v2_single_line` reads the text back from what it wrote.
pub unescape-escape_v2 :
    (mode : ℕ) (cs : List ℕ)
    → has mode escape_newline ≡ true
    → All IsScalar cs
    → (e : Bytes) × (escape_v2 (encode cs) mode ≡ some e)
      × (unescape_v2_single_line e ≡ some (encode cs))
unfolding escape_v2 unescape_v2_single_line remove_escaped_whitespace str_contains_newline
    resolve_escapes_v2
unescape-escape_v2 mode cs flag h =
    let (ps, p) = escaped-Passes mode cs flag h in
    (
      encode ps,
      rw (text_of_encoded cs (Scalar-IsCodepoint cs h)) (p.written []),
      rw (text_of_encoded ps p.points)
          (rw (p.whole []) (rw (text_of_encoded ps p.points) (rw p.no_newline (p.read [])))),
    )
