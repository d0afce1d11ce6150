-- ===== src/Str/StandsFor.antt =====
-- src/str.c: what the three passes of `kdl_unescape_v2_single_line` make of an escape.
use ckdl.Prelude.{
  ℕ, ◌≡◌, refl, arith, false, Option, List, [], ◌∷◌, ◌++◌, append-nil, ◌==◌, Bytes, All,
}
use ckdl.Grammar.{v2, is_illegal_char, is_newline, is_whitespace}
use ckdl.Utf8.{push_codepoint}
use ckdl.Text.{Text, char}
use ckdl.Text.Laws.{IsCodepoint, IsAscii, encode, chars}
use ckdl.Str.Escaped.{Short, newline, return, tab, backslash, quote, backspace, form_feed, KeptV2}
use ckdl.Str.UnescapeV1.{Place, plain}
use ckdl.Str.UnescapeV2.{
  run, copying, ws_step, ws_finish, text_contains_newline, simple_escape_v2, resolve_step,
  resolve_finish,
}

abbrev pub ws_run : Text → Bytes → Option Bytes
ws_run = run ws_step ws_finish copying

abbrev pub resolve_run : Place → Text → Bytes → Option Bytes
resolve_run = run resolve_step resolve_finish

-- The code points `ps` stand for `c`: the three passes go over them, whatever follows.
pub record StandsFor (c : ℕ) (ps : List ℕ) : Type 0 where
  pub codepoints : All IsCodepoint ps
  pub stays : (t : Text) (out : Bytes) → ws_run (chars ps t) out ≡ ws_run t (out ++ encode ps)
  pub one_line : (t : Text) → text_contains_newline (chars ps t) ≡ text_contains_newline t
  pub resolves :
      (t : Text) (out : Bytes)
      → resolve_run plain (chars ps t) out ≡ resolve_run plain t (out ++ push_codepoint c)

-- A code point that all passes copy.
pub record IsSafe (a : ℕ) : Type 0 where
  pub ascii : IsAscii a
  pub legal : is_illegal_char v2 a ≡ false
  pub no_newline : is_newline a ≡ false
  pub no_backslash : (a == b'\\') ≡ false

pub Short-IsAscii : {x c : ℕ} → Short x c → IsAscii x
Short-IsAscii (newline e) = omega arith
Short-IsAscii (return e) = omega arith
Short-IsAscii (tab e) = omega arith
Short-IsAscii (backslash e) = omega arith
Short-IsAscii (quote e) = omega arith
Short-IsAscii (backspace e) = omega arith
Short-IsAscii (form_feed e) = omega arith

pub Short-StandsFor : (x c : ℕ) → Short x c → StandsFor c (b'\\' ∷ x ∷ [])
unfolding run ws_step text_contains_newline is_newline is_whitespace is_illegal_char resolve_step
    simple_escape_v2 push_codepoint
Short-StandsFor x c (newline e) = record {
  codepoints = omega arith;
  stays = λ t out. refl;
  one_line = λ t. refl;
  resolves = λ t out. rw e;
}
Short-StandsFor x c (return e) = record {
  codepoints = omega arith;
  stays = λ t out. refl;
  one_line = λ t. refl;
  resolves = λ t out. rw e;
}
Short-StandsFor x c (tab e) = record {
  codepoints = omega arith;
  stays = λ t out. refl;
  one_line = λ t. refl;
  resolves = λ t out. rw e;
}
Short-StandsFor x c (backslash e) = record {
  codepoints = omega arith;
  stays = λ t out. refl;
  one_line = λ t. refl;
  resolves = λ t out. rw e;
}
Short-StandsFor x c (quote e) = record {
  codepoints = omega arith;
  stays = λ t out. refl;
  one_line = λ t. refl;
  resolves = λ t out. rw e;
}
Short-StandsFor x c (backspace e) = record {
  codepoints = omega arith;
  stays = λ t out. refl;
  one_line = λ t. refl;
  resolves = λ t out. rw e;
}
Short-StandsFor x c (form_feed e) = record {
  codepoints = omega arith;
  stays = λ t out. refl;
  one_line = λ t. refl;
  resolves = λ t out. rw e;
}

pub copy_step :
    (c : ℕ) (t : Text) (out : Bytes)
    → is_illegal_char v2 c ≡ false
    → (c == b'\\') ≡ false
    → ws_run (char c (push_codepoint c) t) out ≡ ws_run t (out ++ push_codepoint c)
unfolding run ws_step
copy_step c t out h k = rw (h, k)

pub kept-StandsFor : (c : ℕ) → IsCodepoint c → KeptV2 c → StandsFor c (c ∷ [])
unfolding run text_contains_newline resolve_step
kept-StandsFor c h (no_backslash, legal, no_newline) =
    let other : (c == b'\\') ≡ false = ground arith in
    record {
      codepoints = (h, tt);
      stays = λ t out. rw append-nil (copy_step c t out legal other);
      one_line = λ t. rw no_newline;
      resolves = λ t out. rw (legal, other);
    }
