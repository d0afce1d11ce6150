-- ===== src/Str/Dedent.antt =====
-- src/str.c: what `_kdl_dedent_multiline_string` makes of an indented block of lines.
use ckdl.Prelude.{
  ℕ, ◌≡◌, inl, inr, refl, ap, ◌∙◌, arith, true, some, List, [], ◌∷◌, ◌++◌, append_assoc, Bytes, All,
  All-append,
}
use ckdl.Text.{finished, text}
use ckdl.Text.Laws.{
  encode, chars, IsCodepoint, text_of_encoded, encode-append, chars-append, push_ascii,
}
use ckdl.Str.Multiline.{
  split_lines, all_whitespace, dedent_line, dedent_lines, strip_final_lf, dedent_multiline_string,
}
use ckdl.Str.Lines.{
  InLine, InIndent, IsLine, indented, block, joined, InNormal, normalize_kept, encode-NoLf,
  split_line, split_last, indent_blank, after_indent_lem, strip_snoc, Indent-InLine,
  Line-IsCodepoint, Line-InNormal, line_break-InNormal,
}

module _ (indent : List ℕ) (blank : All InIndent indent) where
  full_line : (l : List ℕ) → All InLine l → All InLine (indent ++ l)
  full_line l h = All-append _ indent l (Indent-InLine indent blank) h

  dedent_line_lem :
      (l : List ℕ) → IsLine l → dedent_line (encode indent) (encode (indent ++ l)) ≡ some (encode l)
  unfolding dedent_line
  dedent_line_lem l (h, k) =
      let read : text (encode (indent ++ l)) ≡ chars indent (chars l finished) =
        text_of_encoded (indent ++ l) (Line-IsCodepoint (indent ++ l) (full_line l h))
        ∙ chars-append indent l finished in
      elim k [
        | inl e ↦ rw (read, indent_blank indent (chars l finished) blank, e)
        | inr e ↦
            rw (read, indent_blank indent (chars l finished) blank, e, encode-append indent l)
              (after_indent_lem (encode indent) (encode l))
      ]

  abbrev raw_lines : List (List ℕ) → List Bytes
  raw_lines [] = []
  raw_lines (l ∷ ls) = encode (indent ++ l) ∷ raw_lines ls

  abbrev ended : List (List ℕ) → List ℕ
  ended [] = []
  ended (l ∷ ls) = l ++ (b'\n' ∷ ended ls)

  dedent_lines_lem :
      (ls : List (List ℕ))
      → All IsLine ls
      → dedent_lines (encode indent) (raw_lines ls) ≡ some (encode (ended ls))
  unfolding dedent_lines
  dedent_lines_lem [] h = refl
  dedent_lines_lem (l ∷ ls) (h, hs) = rw (
    dedent_line_lem l h,
    dedent_lines_lem ls hs,
    encode-append l (b'\n' ∷ ended ls),
    push_ascii b'\n' (omega arith),
  )

  split_block :
      (ls : List (List ℕ))
      → All IsLine ls
      → split_lines (encode (indented indent ls)) ≡ (raw_lines ls, encode indent)
  split_block [] h = split_last (encode indent) (encode-NoLf indent (Indent-InLine indent blank))
  split_block (l ∷ ls) (h, hs) = rw (
    encode-append (indent ++ l) (b'\n' ∷ indented indent ls),
    push_ascii b'\n' (omega arith),
    split_line (encode (indent ++ l)) (encode (indented indent ls))
        (encode-NoLf (indent ++ l) (full_line l h.0)),
    split_block ls hs,
  )

  indented-InNormal : (ls : List (List ℕ)) → All IsLine ls → All InNormal (indented indent ls)
  indented-InNormal [] h = Line-InNormal indent (Indent-InLine indent blank)
  indented-InNormal (l ∷ ls) (h, hs) =
      All-append _ (indent ++ l) (b'\n' ∷ indented indent ls)
        (Line-InNormal (indent ++ l) (full_line l h.0))
        (line_break-InNormal, indented-InNormal ls hs)

  ended-joined :
      (l : List ℕ) (ls : List (List ℕ)) → ended (l ∷ ls) ≡ joined (l ∷ ls) ++ (b'\n' ∷ [])
  ended-joined l [] = refl
  ended-joined l (k ∷ ls) = rw (ended-joined k ls, append_assoc)

  strip_ended : (ls : List (List ℕ)) → strip_final_lf (encode (ended ls)) ≡ encode (joined ls)
  unfolding strip_final_lf
  strip_ended [] = refl
  strip_ended (l ∷ ls) =
      rw
        (
          ended-joined l ls,
          encode-append (joined (l ∷ ls)) (b'\n' ∷ []),
          push_ascii b'\n' (omega arith),
        )
        (strip_snoc (encode (joined (l ∷ ls))))

  -- A block of lines behind a common indent of whitespace, as the text between the quotes of a multi-line
  -- string, loses the indent, the first and the last line feed, and nothing else: what is left are the
  -- lines with a line feed between any two of them. The lines hold no newline, and each is empty or
  -- holds more than whitespace.
  pub dedent_multiline_string-block :
      (ls : List (List ℕ))
      → All IsLine ls
      → dedent_multiline_string (encode (block indent ls)) ≡ some (encode (joined ls))
  unfolding dedent_multiline_string
  dedent_multiline_string-block ls h =
      let normal : All InNormal (block indent ls) = (line_break-InNormal, indented-InNormal ls h) in
      let read : text (encode (block indent ls)) ≡ chars (block indent ls) finished =
        text_of_encoded (block indent ls) (points (block indent ls) normal) in
      let is_blank : all_whitespace (text (encode indent)) ≡ true =
        ap all_whitespace
          (text_of_encoded indent (Line-IsCodepoint indent (Indent-InLine indent blank)))
        ∙ indent_blank indent finished blank in
      rw (
        read,
        normalize_kept (block indent ls) normal,
        push_ascii b'\n' (omega arith),
        split_block ls h,
        is_blank,
        dedent_lines_lem ls h,
        strip_ended ls,
      )
    where
      points : (cs : List ℕ) → All InNormal cs → All IsCodepoint cs
      points [] h = tt
      points (c ∷ cs) (h, hs) = (h.0, points cs hs)
