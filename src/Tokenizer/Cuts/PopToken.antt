-- ===== src/Tokenizer/Cuts/PopToken.antt =====
-- src/tokenizer.c: `kdl_pop_token` answers the same, however the input is cut into reads.
use ckdl.Prelude.{ℕ, ◌-◌, ◌<◌, ◌≡◌, refl, ap, arith, Bool, true, false, if◌then◌else◌}
use ckdl.Grammar.{CharacterSet, is_illegal_char, is_whitespace, is_word_char}
use ckdl.Tokenizer.{
  TokenType, start_type, end_type, word, string, single_line_comment, slashdash, multi_line_comment,
  equals, start_children, end_children, newline, semicolon, line_continuation, whitespace,
  Tokenizer,
}
use ckdl.Tokenizer.Input.{CharStatus, got, at_eof, cut_off, invalid}
use ckdl.Tokenizer.Scan.{
  Loop, fuel_for, whitespace_loop, word_loop, line_comment_loop, block_comment_loop, hashes_loop,
  quotes_loop, BodyState, body_loop,
}
use ckdl.Tokenizer.Reads.{Alike, AlikeAt, tok_get_char-AgreeChar, scan_same}
use ckdl.Tokenizer.Kept.{InString, scan-Holds, body_loop-Kept}
use ckdl.Tokenizer.Tokens.{
  PopResult, popped, end_of_file, error, stuck, emit, pop_word, second_char, comment_kind,
  pop_comment, pop_body, no_quotes, string_type, pop_quotes, pop_hashes, string_kind, pop_string,
  after_cr, pop_newline, pop_raw_or_word, dispatch, first_char, pop_token,
}
use ckdl.Tokenizer.Cuts.{
  Same, both_popped, both_at_end, both_failed, emit-Same, at_start, earlier, if-Same, on_char-Same,
  with_char-Same, after_kept, after-Same,
}

pop_word-Same : (t t' : Tokenizer) → Alike t t' → Same (pop_word t) (pop_word t')
unfolding pop_word
pop_word-Same t t' a =
    after-Same _ _ _ (scan_same word_loop tt (at_start a))
      λ s cur u u' b. emit-Same word 0 cur cur (omega arith) (omega arith) b

comment_kind-Same :
    (c1 c2 next : ℕ) (t t' : Tokenizer)
    → 1 < next
    → AlikeAt next t t'
    → Same (comment_kind c1 c2 next t) (comment_kind c1 c2 next t')
unfolding comment_kind
comment_kind-Same c1 c2 next t t' h a = if-Same refl (both_failed a.alike) (
    if-Same refl (emit-Same slashdash 0 2 next (omega arith) (omega arith) a) (
      if-Same refl
        (after-Same _ _ _ (scan_same line_comment_loop tt a)
          λ s cur u u' b. emit-Same single_line_comment 0 cur cur (omega arith) (omega arith) b)
        (if-Same refl
          (after-Same _ _ _ (scan_same block_comment_loop (record { depth = 1; prev_char = 0 }) a)
            λ s cur u u' b. emit-Same multi_line_comment 0 cur cur (omega arith) (omega arith) b)
          (both_failed a.alike))))

pop_comment-Same : (t t' : Tokenizer) → Alike t t' → Same (pop_comment t) (pop_comment t')
unfolding pop_comment
pop_comment-Same t t' a =
    with_char-Same second_char (tok_get_char-AgreeChar t t' 0 (at_start a)) λ c1 n1 t1 t1' h1 a1.
      with_char-Same (comment_kind c1) (tok_get_char-AgreeChar t1 t1' n1 a1)
        λ c2 n2 t2 t2' h2 a2. comment_kind-Same c1 c2 n2 t2 t2' (omega arith) a2

pop_body-Same :
    (is_raw is_v1 : Bool) (hashes quotes start : ℕ) (t t' : Tokenizer)
    → AlikeAt start t t'
    → Same
        (pop_body is_raw is_v1 hashes quotes start t)
        (pop_body is_raw is_v1 hashes quotes start t')
unfolding pop_body
pop_body-Same is_raw is_v1 hashes quotes start t t' a =
    let loop : CharacterSet → Loop BodyState = λ cs. body_loop cs is_raw hashes quotes in
    after_kept (InString start) _ _ _ (scan_same loop no_quotes a)
      (scan-Holds (InString start) (InString start) (fuel_for t) (loop t.charset) t start no_quotes
        (body_loop-Kept t.charset is_raw hashes quotes start) a.in_left a.alike.reads_left
        (omega arith, omega arith))
      λ s next u u' i b.
        emit-Same (string_type is_raw is_v1 quotes) start s.end_quote_offset next i.0 i.1 b

pop_quotes-Same :
    (is_raw is_v1 : Bool) (hashes cur : ℕ) (t t' : Tokenizer)
    → AlikeAt cur t t'
    → Same (pop_quotes is_raw is_v1 hashes cur t) (pop_quotes is_raw is_v1 hashes cur t')
unfolding pop_quotes
pop_quotes-Same is_raw is_v1 hashes cur t t' a =
    after-Same _ _ _ (scan_same (λ cs. quotes_loop is_raw (if is_v1 then 1 else 3)) _ a)
      λ q next u u' b. if-Same refl (emit-Same string 0 0 next (omega arith) (omega arith) b) (
        if-Same refl
          (pop_body-Same is_raw is_v1 hashes 1 (next - 1) u u' (earlier (next - 1) (omega arith) b))
          (pop_body-Same is_raw is_v1 hashes q.initial_quote_count next u u' b))

pop_hashes-Same :
    (is_v1 : Bool) (cur : ℕ) (t t' : Tokenizer)
    → AlikeAt cur t t'
    → Same (pop_hashes is_v1 cur t) (pop_hashes is_v1 cur t')
unfolding pop_hashes
pop_hashes-Same is_v1 cur t t' a =
    after-Same _ _ _ (scan_same (λ cs. hashes_loop) 0 a)
      λ hashes next u u' b. pop_quotes-Same true is_v1 hashes next u u' b

string_kind-Same :
    (c next : ℕ) (t t' : Tokenizer)
    → AlikeAt next t t'
    → Same (string_kind c next t) (string_kind c next t')
unfolding string_kind
string_kind-Same c next t t' b = if-Same refl (pop_hashes-Same true next t t' b) (
    if-Same refl (pop_hashes-Same false 0 t t' (at_start b.alike)) (
      if-Same refl (pop_quotes-Same false false 0 0 t t' (at_start b.alike)) (both_failed b.alike)))

pop_string-Same : (t t' : Tokenizer) → Alike t t' → Same (pop_string t) (pop_string t')
unfolding pop_string
pop_string-Same t t' a =
    with_char-Same string_kind (tok_get_char-AgreeChar t t' 0 (at_start a))
      λ c next u u' h b. string_kind-Same c next u u' b

or_word : PopResult → PopResult
or_word (popped token t) = popped token t
or_word (end_of_file t) = pop_word t
or_word (error t) = pop_word t
or_word stuck = stuck

or_word-Same : (p p' : PopResult) → Same p p' → Same (or_word p) (or_word p')
unfolding or_word
or_word-Same _ _ (both_popped e a) = both_popped e a
or_word-Same _ _ (both_at_end a) = pop_word-Same _ _ a
or_word-Same _ _ (both_failed a) = pop_word-Same _ _ a

pop_raw_or_word-Same :
    (t t' : Tokenizer) → Alike t t' → Same (pop_raw_or_word t) (pop_raw_or_word t')
unfolding pop_raw_or_word or_word
pop_raw_or_word-Same t t' a = or_word-Same (pop_string t) (pop_string t') (pop_string-Same t t' a)

one_char :
    (type : TokenType) (next : ℕ) {t t' : Tokenizer}
    → AlikeAt next t t'
    → Same (emit type 0 next next t) (emit type 0 next next t')
one_char type next a = emit-Same type 0 next next (omega arith) (omega arith) a

behind_cr :
    (next : ℕ) {t t' : Tokenizer}
    → AlikeAt next t t'
    → Same (emit newline (next - 1) next next t) (emit newline (next - 1) next next t')
behind_cr next a = emit-Same newline (next - 1) next next (omega arith) (omega arith) a

after_cr-Same :
    (next : ℕ) (status : CharStatus) (t t' : Tokenizer)
    → AlikeAt next t t'
    → ((c nnext : ℕ) → status ≡ got c nnext → (next < nnext) × AlikeAt nnext t t')
    → Same (after_cr next (status, t)) (after_cr next (status, t'))
after_cr-Same next (got c nnext) t t' a m =
    if-Same refl
      (emit-Same newline (next - 1) nnext nnext (omega (arith, (m c nnext refl).0)) (omega arith)
        (m c nnext refl).1)
      (behind_cr next a)
after_cr-Same next at_eof t t' a m = behind_cr next a
after_cr-Same next cut_off t t' a m = behind_cr next a
after_cr-Same next invalid t t' a m = behind_cr next a

pop_newline-Same :
    (c next : ℕ) (t t' : Tokenizer)
    → AlikeAt next t t'
    → Same (pop_newline c next t) (pop_newline c next t')
unfolding pop_newline
pop_newline-Same c next t t' a =
    if-Same refl
      (on_char-Same (after_cr next) (tok_get_char-AgreeChar t t' next a) (after_cr-Same next))
      (one_char newline next a)

dispatch-Same :
    (c next : ℕ) (t t' : Tokenizer)
    → AlikeAt next t t'
    → Same (dispatch c next t) (dispatch c next t')
unfolding dispatch
dispatch-Same c next t t' a =
    let in_set : (test : CharacterSet → ℕ → Bool) → test t.charset c ≡ test t'.charset c =
      λ test. ap (λ cs. test cs c) a.alike.same_charset in
    let b = a.alike in
    if-Same (in_set is_illegal_char) (both_failed b) (
      if-Same (in_set is_whitespace)
        (after-Same _ _ _ (scan_same whitespace_loop tt a)
          λ s cur u u' k. one_char whitespace cur k)
        (if-Same refl (pop_newline-Same c next t t' a) (
          if-Same refl (emit-Same semicolon 0 0 next (omega arith) (omega arith) a) (
            if-Same refl (one_char line_continuation next a) (
              if-Same refl (one_char start_type next a) (
                if-Same refl (one_char end_type next a) (
                  if-Same refl (one_char start_children next a) (
                    if-Same refl (one_char end_children next a) (
                      if-Same refl (one_char equals next a) (
                        if-Same refl (pop_comment-Same t t' b) (
                          if-Same refl (pop_string-Same t t' b) (
                            if-Same (in_set is_word_char)
                              (if-Same refl (pop_raw_or_word-Same t t' b) (pop_word-Same t t' b))
                              (both_failed b)))))))))))))

first_char-Same :
    (status : CharStatus) (t t' : Tokenizer)
    → AlikeAt 0 t t'
    → ((c next : ℕ) → status ≡ got c next → (0 < next) × AlikeAt next t t')
    → Same (first_char (status, t)) (first_char (status, t'))
first_char-Same (got c next) t t' a m = dispatch-Same c next t t' (m c next refl).1
first_char-Same at_eof t t' a m = both_at_end a.alike
first_char-Same cut_off t t' a m = both_failed a.alike
first_char-Same invalid t t' a m = both_failed a.alike

-- Two tokenizers with the same input ahead of them and the same character set, cut into reads in two
-- ways, give the same answer: both pop the same token with the same type and text, both are at the end
-- of the input, or both fail; and what they have ahead of them afterwards is the same again. No read
-- but the end delivers nothing.
pub pop_token-Same : (t t' : Tokenizer) → Alike t t' → Same (pop_token t) (pop_token t')
unfolding pop_token
pop_token-Same t t' a =
    on_char-Same first_char (tok_get_char-AgreeChar t t' 0 (at_start a)) first_char-Same
