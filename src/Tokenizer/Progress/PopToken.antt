-- ===== src/Tokenizer/Progress/PopToken.antt =====
-- src/tokenizer.c: `kdl_pop_token` takes a byte at least, so that a document has finitely many tokens.
use ckdl.Prelude.{
  ℕ, ◌≤◌, ◌<◌, ◌≤◌, ap, ◌≡◌, refl, sym, ◌∙◌, subst, arith, true, ◌==◌, Bytes, length, All,
}
use ckdl.Grammar.{CharacterSet, is_illegal_char, is_whitespace, is_newline, is_word_char}
use ckdl.Tokenizer.{
  TokenType, start_type, end_type, word, equals, start_children, end_children, semicolon,
  line_continuation, whitespace, Tokenizer, whole,
}
use ckdl.Tokenizer.Input.{CharStatus, got, at_eof, cut_off, invalid, tok_get_char}
use ckdl.Tokenizer.Stream.{NonEmpty}
use ckdl.Tokenizer.Scan.{Outcome, scan, respond, advance, fuel_for, whitespace_loop, word_loop}
use ckdl.Tokenizer.Tokens.{
  PopResult, popped, end_of_file, error, stuck, emit, pop_word, pop_string, pop_raw_or_word,
  dispatch, first_char, pop_token,
}
use ckdl.Tokenizer.Cuts.{Same}
use ckdl.Tokenizer.Cuts.PopToken.{pop_token-Same}
use ckdl.Tokenizer.Progress.{
  Reading, back_to, ReadingChar, read_char, Shorter, emit-Shorter, if-Shorter, scan-Shorter,
}
use ckdl.Tokenizer.Progress.Loops.{Behind, whitespace_loop-Kept, word_loop-Kept, word_not_end}
use ckdl.Tokenizer.Progress.Branches.{
  First, pop_comment-Shorter, pop_string-Shorter, pop_newline-Shorter,
}

-- The first round of `_pop_word` on a character of a word goes on.
word_first :
    (again : Tokenizer → ℕ → Unit → Outcome Unit) (status : CharStatus) (t : Tokenizer)
    (cs : CharacterSet) (c next : ℕ)
    → status ≡ got c next
    → is_word_char cs c ≡ true
    → respond (word_loop cs) again status 0 tt t ≡ again t next tt
unfolding respond advance
word_first again status t cs c next e h = rw e (rw (word_not_end cs c h) (rw h refl))

module _ (w : Bytes) (cs : CharacterSet) (c next : ℕ) (first : First w cs c next) where
  pop_word-Shorter :
      (t : Tokenizer) → Reading w cs 0 t → is_word_char cs c ≡ true → Shorter w cs (pop_word t)
  unfolding pop_word scan
  pop_word-Shorter t g h =
      let r = read_char g in
      let e : (tok_get_char t 0).0 ≡ got c next = r.same_char ∙ first in
      let is_word = subst (λ x. is_word_char x c ≡ true) (sym g.same_set) h in
      let m = r.moved c next e in
      rw
        (word_first (scan (length (whole t)) (word_loop t.charset)) (tok_get_char t 0).0
          (tok_get_char t 0).1 t.charset c next e is_word)
        (scan-Shorter w cs Behind Behind (λ s cur t'. emit word 0 cur cur t') (word_loop t.charset)
          (tok_get_char t 0).1 (length (whole t)) next tt (word_loop-Kept t.charset) m.1
          (omega (arith, m.0)) λ s cur u i k. emit-Shorter w cs word 0 cur cur i k)

  or_word-Shorter :
      (p : PopResult)
      → Shorter w cs p
      → is_word_char cs c ≡ true
      → Shorter w cs (elim p [
        | popped token t' ↦ popped token t'
        | end_of_file t' ↦ pop_word t'
        | error t' ↦ pop_word t'
        | stuck ↦ stuck
      ])
  or_word-Shorter (popped token t) k h = k
  or_word-Shorter (end_of_file t) k h = pop_word-Shorter t k h
  or_word-Shorter (error t) k h = pop_word-Shorter t k h
  or_word-Shorter stuck k h = tt

  dispatch-Shorter :
      (t : Tokenizer) → 1 ≤ next → Reading w cs next t → Shorter w cs (dispatch c next t)
  unfolding dispatch pop_raw_or_word
  dispatch-Shorter t h g =
      let start = back_to 0 (omega arith) g in
      let one : (type : TokenType) → Shorter w cs (emit type 0 next next t) =
        λ type. emit-Shorter w cs type 0 next next h g in
      if-Shorter w cs (is_illegal_char t.charset c) _ _ (λ _. start)
        λ _.
          if-Shorter w cs (is_whitespace t.charset c) _ _
            (λ _.
              scan-Shorter w cs Behind Behind _ (whitespace_loop t.charset) t (fuel_for t) next tt
                (whitespace_loop-Kept t.charset) g h
                λ s cur u i k. emit-Shorter w cs whitespace 0 cur cur i k)
            λ _.
              if-Shorter w cs (is_newline c) _ _ (λ _. pop_newline-Shorter w cs c next t h g)
                λ _.
                  if-Shorter w cs (c == b';') _ _ (λ _. emit-Shorter w cs semicolon 0 0 next h g)
                    λ _.
                      if-Shorter w cs (c == b'\\') _ _ (λ _. one line_continuation)
                        λ _.
                          if-Shorter w cs (c == b'(') _ _ (λ _. one start_type)
                            λ _.
                              if-Shorter w cs (c == b')') _ _ (λ _. one end_type)
                                λ _.
                                  if-Shorter w cs (c == b'{') _ _ (λ _. one start_children)
                                    λ _.
                                      if-Shorter w cs (c == b'}') _ _ (λ _. one end_children)
                                        λ _.
                                          if-Shorter w cs (c == b'=') _ _ (λ _. one equals)
                                            λ _.
                                              if-Shorter w cs (c == b'/') _ _
                                                (λ _. pop_comment-Shorter w cs t start)
                                                λ _.
                                                  if-Shorter w cs (c == b'"') _ _
                                                    (λ _. pop_string-Shorter w cs t start)
                                                    λ _.
                                                      if-Shorter w cs (is_word_char t.charset c) _ _
                                                        (λ e.
                                                          let is_word =
                                                            subst (λ x. is_word_char x c ≡ true)
                                                            g.same_set e in
                                                          if-Shorter w cs _ _ _
                                                            (λ _.
                                                            or_word-Shorter (pop_string t)
                                                            (pop_string-Shorter w cs t start)
                                                            is_word)
                                                            (λ _. pop_word-Shorter t start is_word))
                                                        (λ _. start)

first_char-Shorter :
    (w : Bytes) (cs : CharacterSet) (r : CharStatus × Tokenizer)
    → ReadingChar w cs 0 r
    → Shorter w cs (first_char r)
first_char-Shorter w cs (got c next, t) g =
    let m = g.moved c next refl in
    dispatch-Shorter w cs c next (sym g.same_char) t (omega (arith, m.0)) m.1
first_char-Shorter w cs (at_eof, t) g = g.at_cur
first_char-Shorter w cs (cut_off, t) g = g.at_cur
first_char-Shorter w cs (invalid, t) g = g.at_cur

-- What `kdl_pop_token` answers: a token, with less of the input left than there was, or the end, with no
-- more of it, or an error.
abbrev pub Answers : Tokenizer → PopResult → Type 0
Answers t (popped token t') = (length (whole t') < length (whole t)) × All NonEmpty t'.reads
Answers t (end_of_file t') = (length (whole t') ≤ length (whole t)) × All NonEmpty t'.reads
Answers t (error t') = Unit
Answers t stuck = ⊥

Shorter-Answers :
    (t : Tokenizer) (p : PopResult) → Shorter (whole t) t.charset p → Same p p → Answers t p
Shorter-Answers t (popped token t') k s = k
Shorter-Answers t (end_of_file t') k s = (
  let e : length (whole t') ≡ length (whole t) = ap length k.same_input in omega (arith, e),
  k.non_empty,
)
Shorter-Answers t (error t') k s = tt
Shorter-Answers t stuck k s = elim s [ ]

-- `kdl_pop_token` always answers, where the reads are not empty: a token takes a byte of the input at
-- least, and at the end there is no more input than before; the reads are not empty afterwards either.
pub pop_token-Answers : (t : Tokenizer) → All NonEmpty t.reads → Answers t (pop_token t)
unfolding pop_token
pop_token-Answers t n =
    let g =
      read_char
        record { in_document = omega arith; same_input = refl; same_set = refl; non_empty = n } in
    Shorter-Answers t (pop_token t) (first_char-Shorter (whole t) t.charset (tok_get_char t 0) g) (
      pop_token-Same t t
        record { same_whole = refl; same_charset = refl; reads_left = n; reads_right = n })
