-- ===== src/Str/Lines.antt =====
-- src/str.c: the lines of a block, and the single steps of `_kdl_dedent_multiline_string` on them.
use ckdl.Prelude.{
  ℕ, ◌≡◌, ◌≢◌, ◌⊎◌, inl, inr, refl, ap, arith, true, false, some, List, [], ◌∷◌, ◌++◌, ◌==◌, Bytes,
  All, All-append,
}
use ckdl.Grammar.{v2, is_whitespace, is_newline}
use ckdl.Utf8.{push_codepoint}
use ckdl.Utf8.RoundTrip.{Encoded, one, two, three, four, push-Encoded}
use ckdl.Text.{Text, finished}
use ckdl.Text.Laws.{encode, chars, IsCodepoint, push_ascii}
use ckdl.Str.Multiline.{normalize, split_lines, all_whitespace, after_indent, strip_final_lf}

-- A character of a line, and a character of the indent.
abbrev pub InLine : ℕ → Type 0
InLine c = IsCodepoint c × (is_newline c ≡ false)

abbrev pub InIndent : ℕ → Type 0
InIndent c = InLine c × (is_whitespace v2 c ≡ true)

-- A line is empty or holds more than whitespace.
abbrev pub IsLine : List ℕ → Type 0
IsLine l = All InLine l × ((l ≡ []) ⊎ (all_whitespace (chars l finished) ≡ false))

-- The text between the quotes of a multi-line string: a line feed, each line behind the indent with a
-- line feed at its end, and the indent.
abbrev pub indented : List ℕ → List (List ℕ) → List ℕ
indented indent [] = indent
indented indent (l ∷ ls) = (indent ++ l) ++ (b'\n' ∷ indented indent ls)

abbrev pub block : List ℕ → List (List ℕ) → List ℕ
block indent ls = b'\n' ∷ indented indent ls

-- The lines with a line feed between any two of them.
abbrev pub joined : List (List ℕ) → List ℕ
joined [] = []
joined (l ∷ []) = l
joined (l ∷ k ∷ ls) = l ++ (b'\n' ∷ joined (k ∷ ls))

-- Normalizing leaves line feeds and what is no newline.
abbrev pub InNormal : ℕ → Type 0
InNormal c = IsCodepoint c × ((c ≡ b'\n') ⊎ (is_newline c ≡ false))

no_cr_lem : (c : ℕ) → is_newline c ≡ false → (c == b'\r') ≡ false
unfolding is_newline
no_cr_lem c e = ground arith

lf_newline : is_newline b'\n' ≡ true
unfolding is_newline
lf_newline = refl

pub normalize_kept :
    (cs : List ℕ) → All InNormal cs → normalize false (chars cs finished) ≡ some (encode cs)
unfolding normalize
normalize_kept [] h = refl
normalize_kept (c ∷ cs) ((h, inl e), hs) =
    rw (e, normalize_kept cs hs, push_ascii b'\n' (omega arith), lf_newline)
normalize_kept (c ∷ cs) ((h, inr e), hs) =
    let no_cr : (c == b'\r') ≡ false = no_cr_lem c e in rw (no_cr, normalize_kept cs hs, e)

-- The bytes of a line hold no line feed.
abbrev NoLf : Bytes → Type 0
NoLf s = All (λ b. b ≢ b'\n') s

push-NoLf : (c : ℕ) (s : Bytes) → Encoded c s → c ≢ b'\n' → NoLf s
push-NoLf c _ (one k) h = (h, tt)
push-NoLf c _ (two a k) h = ((omega arith), ((omega arith), tt))
push-NoLf c _ (three a k) h = ((omega arith), ((omega arith), ((omega arith), tt)))
push-NoLf c _ (four a k) h = ((omega arith), ((omega arith), ((omega arith), ((omega arith), tt))))

newline_free : (c : ℕ) → is_newline c ≡ false → c ≢ b'\n'
unfolding is_newline
newline_free c e k = ground arith

pub encode-NoLf : (cs : List ℕ) → All InLine cs → NoLf (encode cs)
encode-NoLf [] h = tt
encode-NoLf (c ∷ cs) ((h, e), hs) =
    All-append _ (push_codepoint c) (encode cs)
      (push-NoLf c (push_codepoint c) (push-Encoded c h) (newline_free c e)) (encode-NoLf cs hs)

pub split_line :
    (l s : Bytes)
    → NoLf l
    → split_lines (l ++ (b'\n' ∷ s)) ≡ (l ∷ (split_lines s).0, (split_lines s).1)
unfolding split_lines
split_line [] s h = refl
split_line (b ∷ l) s (h, hs) =
    let no : (b == b'\n') ≡ false = ground arith in rw (split_line l s hs, no)

pub split_last : (l : Bytes) → NoLf l → split_lines l ≡ ([], l)
unfolding split_lines
split_last [] h = refl
split_last (b ∷ l) (h, hs) =
    let no : (b == b'\n') ≡ false = ground arith in rw (split_last l hs, no)

pub indent_blank :
    (cs : List ℕ) (t : Text) → All InIndent cs → all_whitespace (chars cs t) ≡ all_whitespace t
unfolding all_whitespace
indent_blank [] t h = refl
indent_blank (c ∷ cs) t ((h, e), hs) = rw (e, indent_blank cs t hs)

pub after_indent_lem : (p s : Bytes) → after_indent p (p ++ s) ≡ some s
unfolding after_indent
after_indent_lem [] s = refl
after_indent_lem (b ∷ p) s =
    let same : (b == b) ≡ true = ground arith in rw (after_indent_lem p s, same)

pub strip_snoc : (s : Bytes) → strip_final_lf (s ++ (b'\n' ∷ [])) ≡ s
unfolding strip_final_lf
strip_snoc [] = refl
strip_snoc (b ∷ []) = refl
strip_snoc (b ∷ c ∷ s) = ap (λ r. b ∷ r) (strip_snoc (c ∷ s))

pub Indent-InLine : (cs : List ℕ) → All InIndent cs → All InLine cs
Indent-InLine [] h = tt
Indent-InLine (c ∷ cs) (h, hs) = (h.0, Indent-InLine cs hs)

pub Line-IsCodepoint : (cs : List ℕ) → All InLine cs → All IsCodepoint cs
Line-IsCodepoint [] h = tt
Line-IsCodepoint (c ∷ cs) (h, hs) = (h.0, Line-IsCodepoint cs hs)

pub Line-InNormal : (cs : List ℕ) → All InLine cs → All InNormal cs
Line-InNormal [] h = tt
Line-InNormal (c ∷ cs) (h, hs) = ((h.0, inr h.1), Line-InNormal cs hs)

pub line_break-InNormal : InNormal b'\n'
line_break-InNormal = ((omega arith), inl refl)
