-- ===== src/Str/RoundTripV1.antt =====
-- src/str.c: `kdl_unescape_v1` undoes `kdl_escape_v1`.
use native.Mathlib.Nat.{pow-suc}
use ckdl.Prelude.{
  ℕ, zero, suc, ◌+◌, ◌*◌, ◌/◌, ◌%◌, ◌^◌, ◌<◌, ◌≡◌, ◌≢◌, refl, ap, ◌∙◌, inl, inr, arith, some, List,
  [], ◌∷◌, ◌++◌, append_assoc, append-nil, ◌==◌, Bool-cases, Bytes, All,
}
use ckdl.Utf8.{push_codepoint}
use ckdl.Utf8.RoundTrip.{Encoded, one, two, three, four, cont, push-Encoded}
use ckdl.Text.{finished}
use ckdl.Text.Laws.{IsCodepoint, encode, chars, text_of_encoded}
use ckdl.Str.Hex.{hex_char, hex_within, hex_onto, u_escape}
use ckdl.Str.Escape.{escape_char_v1, escape_loop, escape_v1, backslashed}
use ckdl.Str.Escaped.{
  Short, newline, return, tab, backslash, quote, backspace, form_feed, EscapedAs, short, hex, kept,
  KeptV1, escape_char_v1-Fate,
}
use ckdl.Str.UnescapeV1.{
  plain, in_hex, add_hex_digit, simple_escape_v1, unescape_byte, unescape_loop, unescape_v1,
  push_or_fail,
}

read_hex_char :
    (q d : ℕ) (t out : Bytes)
    → d < 16
    → q * 16 + d < 2 ^ 32
    → unescape_loop (in_hex q) (hex_char d ∷ t) out ≡ unescape_loop (in_hex (q * 16 + d)) t out
unfolding unescape_loop unescape_byte add_hex_digit
read_hex_char q d t out hd fits = ground arith

read_hex :
    (more n : ℕ) (t out : Bytes)
    → n < 16 ^ more
    → n < 2 ^ 32
    → unescape_loop (in_hex 0) (hex_within more n t) out ≡ unescape_loop (in_hex n) t out
unfolding hex_within
read_hex zero n t out h fits = rw (let e : n ≡ 0 = omega arith in e) refl
read_hex (suc more) n t out h fits = elim (Bool-cases (n / 16 == 0)) [
  | inl e ↦ rw e (
      read_hex_char 0 (n % 16) t out (omega arith) (omega arith)
      ∙ ap (λ k. unescape_loop (in_hex k) t out) (ground arith))
  | inr e ↦ rw e (
      read_hex more (n / 16) (hex_char (n % 16) ∷ t) out (omega (arith, pow-suc 16 more))
        (omega arith)
      ∙ read_hex_char (n / 16) (n % 16) t out (omega arith) (omega arith)
      ∙ ap (λ k. unescape_loop (in_hex k) t out) (omega arith))
]

read-Short :
    (x : ℕ) {c : ℕ} (t out : Bytes)
    → Short x c
    → unescape_loop plain (backslashed x ++ t) out ≡ unescape_loop plain t (out ++ push_codepoint c)
unfolding unescape_loop unescape_byte simple_escape_v1 push_codepoint
read-Short x t out (newline e) = rw e
read-Short x t out (return e) = rw e
read-Short x t out (tab e) = rw e
read-Short x t out (backslash e) = rw e
read-Short x t out (quote e) = rw e
read-Short x t out (backspace e) = rw e
read-Short x t out (form_feed e) = rw e

read_byte :
    (b : ℕ) (t out : Bytes)
    → b ≢ b'\\'
    → unescape_loop plain (b ∷ t) out ≡ unescape_loop plain t (out ++ b ∷ [])
unfolding unescape_loop unescape_byte
read_byte b t out h = ground arith

high_two :
    (a b : ℕ) (t out : Bytes)
    → a ≢ b'\\'
    → b ≢ b'\\'
    → unescape_loop plain (a ∷ b ∷ t) out ≡ unescape_loop plain t (out ++ a ∷ b ∷ [])
high_two a b t out ha hb =
    read_byte a (b ∷ t) out ha ∙ read_byte b t (out ++ a ∷ []) hb ∙ rw append_assoc

read_kept :
    (c : ℕ) (s t out : Bytes)
    → c ≢ b'\\'
    → Encoded c s
    → unescape_loop plain (s ++ t) out ≡ unescape_loop plain t (out ++ s)
read_kept c s t out h (one b) = read_byte c t out h
read_kept c s t out h (two p q) =
    high_two (0xc0 + c / 64) (cont c) t out (omega arith) (omega arith)
read_kept c s t out h (three p q) =
    read_byte (0xe0 + c / 4096) _ out (omega arith)
    ∙ high_two (cont (c / 64)) (cont c) t (out ++ ((0xe0 + c / 4096) ∷ [])) (omega arith)
        (omega arith)
    ∙ rw append_assoc
read_kept c s t out h (four p q) =
    high_two (0xf0 + c / 262144) (cont (c / 4096)) _ out (omega arith) (omega arith)
    ∙ high_two (cont (c / 64)) (cont c) t _ (omega arith) (omega arith)
    ∙ rw append_assoc

pub hex_within-append :
    (more n : ℕ) (x y : Bytes) → hex_within more n x ++ y ≡ hex_within more n (x ++ y)
unfolding hex_within
hex_within-append zero n x y = refl
hex_within-append (suc more) n x y =
    ground (arith, hex_within-append more (n / 16) (hex_char (n % 16) ∷ x) y)

open_hex :
    (s out : Bytes)
    → unescape_loop plain (b'\\' ∷ b'u' ∷ b'{' ∷ s) out ≡ unescape_loop (in_hex 0) s out
unfolding unescape_loop unescape_byte
open_hex s out = refl

pub push_or_fail_lem :
    (c : ℕ) (s out : Bytes)
    → Encoded c s
    → push_codepoint c ≡ s
    → push_or_fail out c ≡ some (out ++ s)
push_or_fail_lem c s out (one _) e = rw (e, push_or_fail)
push_or_fail_lem c s out (two _ _) e = rw (e, push_or_fail)
push_or_fail_lem c s out (three _ _) e = rw (e, push_or_fail)
push_or_fail_lem c s out (four _ _) e = rw (e, push_or_fail)

close_hex :
    (c : ℕ) (t out : Bytes)
    → IsCodepoint c
    → unescape_loop (in_hex c) (b'}' ∷ t) out ≡ unescape_loop plain t (out ++ push_codepoint c)
unfolding unescape_loop unescape_byte
close_hex c t out h = rw (push_or_fail_lem c (push_codepoint c) out (push-Encoded c h) refl)

read_u :
    (c : ℕ) (t out : Bytes)
    → IsCodepoint c
    → unescape_loop plain (u_escape c ++ t) out ≡ unescape_loop plain t (out ++ push_codepoint c)
unfolding u_escape hex_onto
read_u c t out h =
    ap (λ x. unescape_loop plain (b'\\' ∷ b'u' ∷ b'{' ∷ x) out)
      (hex_within-append 8 c (b'}' ∷ []) t)
    ∙ open_hex (hex_within 8 c (b'}' ∷ t)) out
    ∙ read_hex 8 c (b'}' ∷ t) out (omega arith) (omega arith)
    ∙ close_hex c t out h

read_piece :
    (c : ℕ) (piece t out : Bytes)
    → IsCodepoint c
    → EscapedAs KeptV1 c piece
    → unescape_loop plain (piece ++ t) out ≡ unescape_loop plain t (out ++ push_codepoint c)
read_piece c piece t out h (short x e) = read-Short x t out e
read_piece c piece t out h hex = read_u c t out h
read_piece c piece t out h (kept k) = read_kept c (push_codepoint c) t out k.0 (push-Encoded c h)

-- The escaped text of some code points, with what either loop makes of it.
record Reads (mode : ℕ) (cs : List ℕ) (e : Bytes) : Type 0 where
  written :
      (out : Bytes) → escape_loop (escape_char_v1 mode) (chars cs finished) out ≡ some (out ++ e)
  read : (out : Bytes) → unescape_loop plain e out ≡ some (out ++ encode cs)

escaped-Reads : (mode : ℕ) (cs : List ℕ) → All IsCodepoint cs → (e : Bytes) × Reads mode cs e
unfolding escape_loop
escaped-Reads mode [] h = (
  [],
  record {
    written = λ out. rw append-nil;
    read = λ out. rw append-nil (unfold unescape_loop in refl);
  },
)
escaped-Reads mode (c ∷ cs) (hc, hs) =
    let (piece, run, as_piece) = escape_char_v1-Fate mode c hc in
    let (e, later) = escaped-Reads mode cs hs in
    (
      piece ++ e,
      record {
        written = λ out. rw run (later.written (out ++ piece) ∙ ap some (append_assoc out piece e));
        read = λ out.
            read_piece c piece e out hc as_piece
            ∙ later.read (out ++ push_codepoint c)
            ∙ ap some (append_assoc out (push_codepoint c) (encode cs));
      },
    )

-- `kdl_unescape_v1` reads back, in every escape mode, any text of code points that `kdl_escape_v1`
-- wrote; and `kdl_escape_v1` succeeds on every such text.
pub unescape-escape_v1 :
    (mode : ℕ) (cs : List ℕ)
    → All IsCodepoint cs
    → (e : Bytes) × (escape_v1 (encode cs) mode ≡ some e) × (unescape_v1 e ≡ some (encode cs))
unfolding escape_v1 unescape_v1
unescape-escape_v1 mode cs h =
    let (e, reads) = escaped-Reads mode cs h in
    (e, rw (text_of_encoded cs h) (reads.written []), reads.read [])
