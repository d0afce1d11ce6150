-- ===== src/Str/HexStandsFor.antt =====
-- src/str.c: what the three passes make of a `\u` escape.
use native.Mathlib.Nat.{pow-suc}
use ckdl.Prelude.{
  ℕ, zero, suc, ◌+◌, ◌*◌, ◌/◌, ◌%◌, ◌^◌, ◌<◌, ◌≡◌, refl, sym, ap, ◌∙◌, inl, inr, arith, false, List,
  [], ◌∷◌, ◌++◌, append_assoc, append-nil, within, ◌==◌, Bool-cases, Bytes, All,
}
use ckdl.Grammar.{is_illegal_char, is_newline, is_whitespace}
use ckdl.Utf8.{push_codepoint}
use ckdl.Utf8.RoundTrip.{push-Encoded}
use ckdl.Text.{Text}
use ckdl.Text.Laws.{IsCodepoint, IsAscii, chars, encode_ascii, push_ascii}
use ckdl.Str.Hex.{hex_char, hex_within, hex_onto, u_escape}
use ckdl.Str.UnescapeV1.{plain, in_hex, add_hex_digit}
use ckdl.Str.RoundTripV1.{push_or_fail_lem}
use ckdl.Str.UnescapeV2.{run, ws_step, text_contains_newline, resolve_step}
use ckdl.Str.StandsFor.{ws_run, resolve_run, copy_step, StandsFor, IsSafe}

-- Safe characters are copied, one after the other.
safe_stays :
    (ps : List ℕ) (t : Text) (out : Bytes)
    → All IsSafe ps
    → ws_run (chars ps t) out ≡ ws_run t (out ++ ps)
safe_stays [] t out h = rw append-nil
safe_stays (p ∷ ps) t out (hp, hs) =
    copy_step p (chars ps t) out hp.legal hp.no_backslash
    ∙ ap (λ x. ws_run (chars ps t) (out ++ x)) (push_ascii p hp.ascii)
    ∙ safe_stays ps t (out ++ p ∷ []) hs
    ∙ ap (ws_run t) (append_assoc out (p ∷ []) ps)

safe_one_line :
    (ps : List ℕ) (t : Text)
    → All IsSafe ps
    → text_contains_newline (chars ps t) ≡ text_contains_newline t
unfolding text_contains_newline
safe_one_line [] t h = refl
safe_one_line (p ∷ ps) t (hp, hs) = rw hp.no_newline (safe_one_line ps t hs)

pub safe-IsAscii : (ps : List ℕ) → All IsSafe ps → All IsAscii ps × All IsCodepoint ps
safe-IsAscii [] h = (tt, tt)
safe-IsAscii (p ∷ ps) (hp, hs) =
    let (a, b) = safe-IsAscii ps hs in ((hp.ascii, a), (ground arith, b))

hex_char-IsSafe : (d : ℕ) → d < 16 → IsSafe (hex_char d)
unfolding is_illegal_char is_newline
hex_char-IsSafe d h = record {
  ascii = ground arith;
  legal = ground arith;
  no_newline = ground arith;
  no_backslash = ground arith;
}

hex_within-IsSafe :
    (more n : ℕ) (rest : List ℕ) → All IsSafe rest → All IsSafe (hex_within more n rest)
unfolding hex_within
hex_within-IsSafe zero n rest h = h
hex_within-IsSafe (suc more) n rest h = elim (Bool-cases (n / 16 == 0)) [
  | inl e ↦ rw e (hex_char-IsSafe (n % 16) (omega arith), h)
  | inr e ↦ rw e (hex_within-IsSafe more (n / 16) _ (hex_char-IsSafe (n % 16) (omega arith), h))
]

brace-IsSafe : IsSafe b'{' × IsSafe b'}'
unfolding is_illegal_char is_newline is_whitespace
brace-IsSafe = (
  record { ascii = omega arith; legal = refl; no_newline = refl; no_backslash = refl },
  record { ascii = omega arith; legal = refl; no_newline = refl; no_backslash = refl },
)

-- What stands behind `\u` in the escape of `c`.
abbrev pub braced : ℕ → List ℕ
braced c = b'{' ∷ hex_within 8 c (b'}' ∷ [])

pub braced-IsSafe : (c : ℕ) → All IsSafe (braced c)
braced-IsSafe c = (brace-IsSafe.0, hex_within-IsSafe 8 c (b'}' ∷ []) (brace-IsSafe.1, tt))

resolve_hex_char :
    (q d : ℕ) (t : Text) (out : Bytes)
    → d < 16
    → q * 16 + d < 2 ^ 32
    → resolve_run (in_hex q) (chars (hex_char d ∷ []) t) out
      ≡ resolve_run (in_hex (q * 16 + d)) t out
unfolding run resolve_step add_hex_digit
resolve_hex_char q d t out hd fits = ground arith

resolve_hex :
    (more n : ℕ) (ps : List ℕ) (t : Text) (out : Bytes)
    → n < 16 ^ more
    → n < 2 ^ 32
    → resolve_run (in_hex 0) (chars (hex_within more n ps) t) out
      ≡ resolve_run (in_hex n) (chars ps t) out
unfolding hex_within
resolve_hex zero n ps t out h fits = rw (let e : n ≡ 0 = omega arith in e) refl
resolve_hex (suc more) n ps t out h fits = elim (Bool-cases (n / 16 == 0)) [
  | inl e ↦ rw e (
      resolve_hex_char 0 (n % 16) (chars ps t) out (omega arith) (omega arith)
      ∙ ap (λ k. resolve_run (in_hex k) (chars ps t) out) (ground arith))
  | inr e ↦ rw e (
      resolve_hex more (n / 16) (hex_char (n % 16) ∷ ps) t out (omega (arith, pow-suc 16 more))
        (omega arith)
      ∙ resolve_hex_char (n / 16) (n % 16) (chars ps t) out (omega arith) (omega arith)
      ∙ ap (λ k. resolve_run (in_hex k) (chars ps t) out) (omega arith))
]

resolve_close :
    (c : ℕ) (t : Text) (out : Bytes)
    → IsCodepoint c
    → within 0xD800 0xDFFF c ≡ false
    → resolve_run (in_hex c) (chars (b'}' ∷ []) t) out
      ≡ resolve_run plain t (out ++ push_codepoint c)
unfolding run resolve_step
resolve_close c t out h scalar =
    rw (scalar, push_or_fail_lem c (push_codepoint c) out (push-Encoded c h) refl)

-- Code points of strings: no surrogates.
abbrev pub IsScalar : ℕ → Type 0
IsScalar c = IsCodepoint c × (within 0xD800 0xDFFF c ≡ false)

-- The first characters of a `\u` escape, as each pass goes over them.
u_stays :
    (t : Text) (out : Bytes)
    → ws_run (chars (b'\\' ∷ b'u' ∷ []) t) out ≡ ws_run t (out ++ (b'\\' ∷ b'u' ∷ []))
unfolding run ws_step is_whitespace is_newline is_illegal_char push_codepoint
u_stays t out = refl

u_one_line :
    (t : Text) → text_contains_newline (chars (b'\\' ∷ b'u' ∷ []) t) ≡ text_contains_newline t
unfolding text_contains_newline is_newline
u_one_line t = refl

u_resolves :
    (t : Text) (out : Bytes)
    → resolve_run plain (chars (b'\\' ∷ b'u' ∷ b'{' ∷ []) t) out ≡ resolve_run (in_hex 0) t out
unfolding run resolve_step is_illegal_char
u_resolves t out = refl

hex_stays :
    (c : ℕ) (t : Text) (out : Bytes)
    → ws_run (chars (b'\\' ∷ b'u' ∷ braced c) t) out ≡ ws_run t (out ++ (b'\\' ∷ b'u' ∷ braced c))
hex_stays c t out =
    u_stays (chars (braced c) t) out
    ∙ safe_stays (braced c) t (out ++ (b'\\' ∷ b'u' ∷ [])) (braced-IsSafe c)
    ∙ ap (ws_run t) (append_assoc out (b'\\' ∷ b'u' ∷ []) (braced c))

pub hex-StandsFor : (c : ℕ) → IsScalar c → StandsFor c (u_escape c)
unfolding u_escape hex_onto
hex-StandsFor c (h, scalar) =
    let (ascii, points) = safe-IsAscii (braced c) (braced-IsSafe c) in
    record {
      codepoints = (omega arith, (omega arith, points));
      stays = λ t out.
          hex_stays c t out
          ∙ ap (λ x. ws_run t (out ++ x))
              (sym (encode_ascii (b'\\' ∷ b'u' ∷ braced c) (omega arith, (omega arith, ascii))));
      one_line =
          λ t. u_one_line (chars (braced c) t) ∙ safe_one_line (braced c) t (braced-IsSafe c);
      resolves = λ t out.
          u_resolves (chars (hex_within 8 c (b'}' ∷ [])) t) out
          ∙ resolve_hex 8 c (b'}' ∷ []) t out (omega arith) (omega arith)
          ∙ resolve_close c t out h scalar;
    }
