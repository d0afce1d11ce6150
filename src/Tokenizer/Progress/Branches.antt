-- ===== src/Tokenizer/Progress/Branches.antt =====
-- src/tokenizer.c: every branch of `kdl_pop_token` takes a byte at least.
use ckdl.Prelude.{
  ℕ, ◌-◌, ◌≤◌, ◌≡◌, refl, arith, Bool, true, false, not, ◌==◌, if◌then◌else◌, Bytes, length,
}
use ckdl.Grammar.{CharacterSet}
use ckdl.Utf8.{pop_codepoint}
use ckdl.Tokenizer.{string, single_line_comment, slashdash, multi_line_comment, newline, Tokenizer}
use ckdl.Tokenizer.Input.{CharStatus, got, at_eof, cut_off, invalid, settle, tok_get_char}
use ckdl.Tokenizer.Scan.{
  fuel_for, line_comment_loop, block_comment_loop, hashes_loop, quotes_loop, body_loop,
}
use ckdl.Tokenizer.Tokens.{
  second_char, comment_kind, pop_comment, pop_body, no_quotes, string_type, pop_quotes, pop_hashes,
  string_kind, pop_string, after_cr, pop_newline,
}
use ckdl.Tokenizer.Progress.{
  Reading, back_to, ReadingChar, read_char, Shorter, emit-Shorter, if-Shorter, with_char-Shorter,
  scan-Shorter,
}
use ckdl.Tokenizer.Progress.Loops.{
  Behind, Anywhere, line_comment_loop-Kept, block_comment_loop-Kept, hashes_loop-Kept,
  body_loop-Kept, Counted, quotes_loop-Kept,
}

module _ (w : Bytes) (cs : CharacterSet) where
  -- The first character of the input.
  abbrev pub First : ℕ → ℕ → Type 0
  First c next = settle (length w) (pop_codepoint w) ≡ got c next

  comment_kind-Shorter :
      (c1 c2 next : ℕ) (t : Tokenizer)
      → 1 ≤ next
      → Reading w cs next t
      → Shorter w cs (comment_kind c1 c2 next t)
  unfolding comment_kind
  comment_kind-Shorter c1 c2 next t h g =
      let start = back_to 0 (omega arith) g in
      if-Shorter w cs (not (c1 == b'/')) _ _ (λ _. start)
        λ _.
          if-Shorter w cs (c2 == b'-') _ _ (λ _. emit-Shorter w cs slashdash 0 2 next h g)
            λ _.
              if-Shorter w cs (c2 == b'/') _ _
                (λ _.
                  scan-Shorter w cs Behind Behind _ (line_comment_loop t.charset) t (fuel_for t)
                    next tt (line_comment_loop-Kept t.charset) g h
                    λ s cur u i k. emit-Shorter w cs single_line_comment 0 cur cur i k)
                λ _.
                  if-Shorter w cs (c2 == b'*') _ _
                    (λ _.
                      scan-Shorter w cs Anywhere Behind _ (block_comment_loop t.charset) t
                        (fuel_for t) next _ (block_comment_loop-Kept t.charset) g tt
                        λ s cur u i k. emit-Shorter w cs multi_line_comment 0 cur cur i k)
                    (λ _. start)

  pub pop_comment-Shorter : (t : Tokenizer) → Reading w cs 0 t → Shorter w cs (pop_comment t)
  unfolding pop_comment
  pop_comment-Shorter t g =
      with_char-Shorter w cs (tok_get_char t 0) second_char (read_char g) λ c1 n1 e1 h1 g1.
        with_char-Shorter w cs (tok_get_char (tok_get_char t 0).1 n1) (comment_kind c1)
          (read_char g1) λ c2 n2 e2 h2 g2. comment_kind-Shorter c1 c2 n2 _ (omega arith) g2

  pop_body-Shorter :
      (is_raw is_v1 : Bool) (hashes quotes start : ℕ) (t : Tokenizer)
      → Reading w cs start t
      → Shorter w cs (pop_body is_raw is_v1 hashes quotes start t)
  unfolding pop_body
  pop_body-Shorter is_raw is_v1 hashes quotes start t g =
      scan-Shorter w cs Anywhere Behind _ (body_loop t.charset is_raw hashes quotes) t (fuel_for t)
        start no_quotes (body_loop-Kept t.charset is_raw hashes quotes) g tt
        λ s next u i k.
          emit-Shorter w cs (string_type is_raw is_v1 quotes) start s.end_quote_offset next i k

  pop_quotes-Shorter :
      (is_raw is_v1 : Bool) (hashes cur : ℕ) (t : Tokenizer)
      → Reading w cs cur t
      → Shorter w cs (pop_quotes is_raw is_v1 hashes cur t)
  unfolding pop_quotes
  pop_quotes-Shorter is_raw is_v1 hashes cur t g =
      scan-Shorter w cs Counted Counted _ (quotes_loop is_raw (if is_v1 then 1 else 3)) t
        (fuel_for t) cur _ (quotes_loop-Kept is_raw (if is_v1 then 1 else 3)) g
        (omega arith, λ e. ground arith)
        λ q next u i k.
          if-Shorter w cs q.empty_at_eof _ _ (λ e. emit-Shorter w cs string 0 0 next (i.1 e) k)
            λ _.
              if-Shorter w cs (q.initial_quote_count == 2) _ _
                (λ _.
                  pop_body-Shorter is_raw is_v1 hashes 1 (next - 1) u
                    (back_to (next - 1) (omega arith) k))
                (λ _. pop_body-Shorter is_raw is_v1 hashes q.initial_quote_count next u k)

  pop_hashes-Shorter :
      (is_v1 : Bool) (cur : ℕ) (t : Tokenizer)
      → Reading w cs cur t
      → Shorter w cs (pop_hashes is_v1 cur t)
  unfolding pop_hashes
  pop_hashes-Shorter is_v1 cur t g =
      scan-Shorter w cs Anywhere Anywhere _ hashes_loop t (fuel_for t) cur 0 hashes_loop-Kept g tt
        λ hashes next u i k. pop_quotes-Shorter true is_v1 hashes next u k

  pub pop_string-Shorter : (t : Tokenizer) → Reading w cs 0 t → Shorter w cs (pop_string t)
  unfolding pop_string string_kind
  pop_string-Shorter t g =
      with_char-Shorter w cs (tok_get_char t 0) string_kind (read_char g) λ c next e h k.
        let start = back_to 0 (omega arith) k in
        if-Shorter w cs (c == b'r') _ _ (λ _. pop_hashes-Shorter true next _ k)
          λ _.
            if-Shorter w cs (c == b'#') _ _ (λ _. pop_hashes-Shorter false 0 _ start)
              λ _.
                if-Shorter w cs (c == b'"') _ _ (λ _. pop_quotes-Shorter false false 0 0 _ start)
                  (λ _. start)

  after_cr-Shorter :
      (next : ℕ) (r : CharStatus × Tokenizer)
      → 1 ≤ next
      → ReadingChar w cs next r
      → Shorter w cs (after_cr next r)
  after_cr-Shorter next (got c2 nnext, t) h g =
      let k = g.moved c2 nnext refl in
      if-Shorter w cs (c2 == b'\n') _ _
        (λ _. emit-Shorter w cs newline (next - 1) nnext nnext (omega (arith, k.0)) k.1)
        (λ _. emit-Shorter w cs newline (next - 1) next next h g.at_cur)
  after_cr-Shorter next (at_eof, t) h g = emit-Shorter w cs newline (next - 1) next next h g.at_cur
  after_cr-Shorter next (cut_off, t) h g = emit-Shorter w cs newline (next - 1) next next h g.at_cur
  after_cr-Shorter next (invalid, t) h g = emit-Shorter w cs newline (next - 1) next next h g.at_cur

  pub pop_newline-Shorter :
      (c next : ℕ) (t : Tokenizer)
      → 1 ≤ next
      → Reading w cs next t
      → Shorter w cs (pop_newline c next t)
  unfolding pop_newline
  pop_newline-Shorter c next t h g =
      if-Shorter w cs (c == b'\r') _ _
        (λ _. after_cr-Shorter next (tok_get_char t next) h (read_char g))
        (λ _. emit-Shorter w cs newline 0 next next h g)
