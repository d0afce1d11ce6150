-- ===== src/Str/Escaped.antt =====
-- src/str.c: what `kdl_escape_v1` and `kdl_escape_v2` make of one code point.
use ckdl.Prelude.{
  ℕ, ◌≡◌, ◌≢◌, refl, arith, Bool, true, false, ◌&&◌, Option, some, ltb, ◌==◌, if◌then◌else◌, Bytes,
}
use ckdl.Grammar.{v2, is_illegal_char, is_newline}
use ckdl.Utf8.{push_codepoint}
use ckdl.Str.Hex.{u_escape}
use ckdl.Str.Escape.{
  must_hex_v1, must_hex_v2, escape_tab, escape_char_v1, escape_char_v2, backslashed, has,
  escape_newline, escape_control,
}
use ckdl.Text.Laws.{IsCodepoint}

-- The short escapes, which KDL 1 and KDL 2 share: the character behind the backslash, and its meaning.
pub data Short : ℕ → ℕ → Type 0 where
  newline : {c : ℕ} → c ≡ 0x0A → Short b'n' c
  return : {c : ℕ} → c ≡ 0x0D → Short b'r' c
  tab : {c : ℕ} → c ≡ 0x09 → Short b't' c
  backslash : {c : ℕ} → c ≡ b'\\' → Short b'\\' c
  quote : {c : ℕ} → c ≡ b'"' → Short b'"' c
  backspace : {c : ℕ} → c ≡ 0x08 → Short b'b' c
  form_feed : {c : ℕ} → c ≡ 0x0C → Short b'f' c

-- The three things that may stand for `c`. A kept character satisfies `Keep`.
pub data EscapedAs (Keep : ℕ → Type 0) (c : ℕ) : Bytes → Type 0 where
  short : (x : ℕ) → Short x c → EscapedAs Keep c (backslashed x)
  hex : EscapedAs Keep c (u_escape c)
  kept : Keep c → EscapedAs Keep c (push_codepoint c)

module _ (Keep : ℕ → Type 0) (c : ℕ) where
  abbrev pub Fate : Option Bytes → Type 0
  Fate o = (piece : Bytes) × (o ≡ some piece) × EscapedAs Keep c piece

  if-Fate :
      (b : Bool) (x y : Option Bytes)
      → (b ≡ true → Fate x)
      → (b ≡ false → Fate y)
      → Fate (if b then x else y)
  if-Fate true x y f g = f refl
  if-Fate false x y f g = g refl

  Short-Fate : (x : ℕ) → Short x c → Fate (some (backslashed x))
  Short-Fate x h = (backslashed x, refl, short x h)

abbrev pub KeptV1 : ℕ → Type 0
KeptV1 c = (c ≢ b'\\') × (c ≢ b'"')

pub escape_char_v1-Fate :
    (mode c : ℕ) → IsCodepoint c → Fate KeptV1 c (escape_char_v1 mode c (push_codepoint c))
unfolding escape_char_v1
escape_char_v1-Fate mode c h =
    if-Fate KeptV1 c (c == 0x0A && has mode escape_newline) _ _
      (λ e. Short-Fate KeptV1 c b'n' (newline (ground arith)))
      λ _.
        if-Fate KeptV1 c (c == 0x0D && has mode escape_newline) _ _
          (λ e. Short-Fate KeptV1 c b'r' (return (ground arith)))
          λ _.
            if-Fate KeptV1 c (c == 0x09 && has mode escape_tab) _ _
              (λ e. Short-Fate KeptV1 c b't' (tab (ground arith)))
              λ _.
                if-Fate KeptV1 c (c == 0x5C) _ _
                  (λ e. Short-Fate KeptV1 c b'\\' (backslash (ground arith)))
                  λ no_backslash.
                    if-Fate KeptV1 c (c == 0x22) _ _
                      (λ e. Short-Fate KeptV1 c b'"' (quote (ground arith)))
                      λ no_quote.
                        if-Fate KeptV1 c (c == 0x08 && has mode escape_control) _ _
                          (λ e. Short-Fate KeptV1 c b'b' (backspace (ground arith)))
                          λ _.
                            if-Fate KeptV1 c (c == 0x0C && has mode escape_newline) _ _
                              (λ e. Short-Fate KeptV1 c b'f' (form_feed (ground arith)))
                              λ _.
                                if-Fate KeptV1 c (must_hex_v1 mode c) _ _
                                  (λ e. (u_escape c, refl, hex))
                                  λ _.
                                    if-Fate KeptV1 c (ltb 0x10ffff c) _ _
                                      (λ e. absurd (let x : ⊥ = ground arith in x))
                                      λ _.
                                        (push_codepoint c, refl, kept (ground arith, ground arith))

-- With newlines escaped, a character that KDL 2 keeps is legal and no newline.
abbrev pub KeptV2 : ℕ → Type 0
KeptV2 c = (c ≢ b'\\') × (is_illegal_char v2 c ≡ false) × (is_newline c ≡ false)

kept_legal : (mode c : ℕ) → must_hex_v2 mode c ≡ false → is_illegal_char v2 c ≡ false
kept_legal mode c h = ground arith

kept_no_newline :
    (mode c : ℕ)
    → has mode escape_newline ≡ true
    → (c == 0x0A && has mode escape_newline) ≡ false
    → (c == 0x0D && has mode escape_newline) ≡ false
    → (c == 0x0C && has mode escape_newline) ≡ false
    → must_hex_v2 mode c ≡ false
    → is_newline c ≡ false
unfolding is_newline
kept_no_newline mode c flag a b d h = ground arith

pub escape_char_v2-Fate :
    (mode c : ℕ)
    → has mode escape_newline ≡ true
    → IsCodepoint c
    → Fate KeptV2 c (escape_char_v2 mode c (push_codepoint c))
unfolding escape_char_v2
escape_char_v2-Fate mode c flag h =
    if-Fate KeptV2 c (ltb 0x10ffff c) _ _ (λ e. absurd (let x : ⊥ = ground arith in x))
      λ _.
        if-Fate KeptV2 c (c == 0x0A && has mode escape_newline) _ _
          (λ e. Short-Fate KeptV2 c b'n' (newline (ground arith)))
          λ no_lf.
            if-Fate KeptV2 c (c == 0x0D && has mode escape_newline) _ _
              (λ e. Short-Fate KeptV2 c b'r' (return (ground arith)))
              λ no_cr.
                if-Fate KeptV2 c (c == 0x09 && has mode escape_tab) _ _
                  (λ e. Short-Fate KeptV2 c b't' (tab (ground arith)))
                  λ _.
                    if-Fate KeptV2 c (c == 0x5C) _ _
                      (λ e. Short-Fate KeptV2 c b'\\' (backslash (ground arith)))
                      λ no_backslash.
                        if-Fate KeptV2 c (c == 0x22) _ _
                          (λ e. Short-Fate KeptV2 c b'"' (quote (ground arith)))
                          λ _.
                            if-Fate KeptV2 c (c == 0x08 && has mode escape_control) _ _
                              (λ e. Short-Fate KeptV2 c b'b' (backspace (ground arith)))
                              λ _.
                                if-Fate KeptV2 c (c == 0x0C && has mode escape_newline) _ _
                                  (λ e. Short-Fate KeptV2 c b'f' (form_feed (ground arith)))
                                  λ no_ff.
                                    if-Fate KeptV2 c (must_hex_v2 mode c) _ _
                                      (λ e. (u_escape c, refl, hex))
                                      λ plain. (
                                        push_codepoint c,
                                        refl,
                                        kept (
                                          ground arith,
                                          kept_legal mode c plain,
                                          kept_no_newline mode c flag no_lf no_cr no_ff plain,
                                        ),
                                      )
