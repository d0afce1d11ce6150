-- ===== src/Tokenizer/Tokens.antt =====
-- src/tokenizer.c: `kdl_pop_token`, `_pop_word`, `_pop_comment` and `_pop_string`.
use ckdl.Prelude.{ℕ, ◌-◌, Bool, true, false, not, ◌||◌, ◌==◌, if◌then◌else◌}
use ckdl.Grammar.{is_whitespace, is_newline, is_illegal_char, is_word_char}
use ckdl.Tokenizer.{
  TokenType, start_type, end_type, word, string, multiline_string, raw_string_v1, raw_string_v2,
  raw_multiline_string, single_line_comment, slashdash, multi_line_comment, equals, start_children,
  end_children, newline, semicolon, line_continuation, whitespace, Token, Tokenizer, slice,
  update_doc_ptr,
}
use ckdl.Tokenizer.Input.{CharStatus, got, at_eof, cut_off, invalid, tok_get_char}
use ckdl.Tokenizer.Scan.{
  Outcome, ended, failed, out_of_fuel, scan, fuel_for, whitespace_loop, word_loop,
  line_comment_loop, block_comment_loop, hashes_loop, quotes_loop, BodyState, body_loop,
}

-- `kdl_tokenizer_status` with `*dest` and the tokenizer; `stuck` is no answer of the source.
pub data PopResult : Type 0 where
  popped : Token → Tokenizer → PopResult
  end_of_file error : Tokenizer → PopResult
  stuck : PopResult

-- A token from offset `start` to `stop`; the document goes on at `rest`.
abbrev pub emit : TokenType → ℕ → ℕ → ℕ → Tokenizer → PopResult
emit type start stop rest t =
    popped (record { type = type; value = slice start stop t.document }) (update_doc_ptr t rest)

-- What follows a loop that ended; a loop that failed is an error.
abbrev pub after : {S : Type 0} → Outcome S → (S → ℕ → Tokenizer → PopResult) → PopResult
after (ended s cur t) k = k s cur t
after (failed t) k = error t
after out_of_fuel k = stuck

-- What follows a character that was read; any other status is an error.
abbrev pub with_char : CharStatus × Tokenizer → (ℕ → ℕ → Tokenizer → PopResult) → PopResult
with_char (status, t) k = elim status [ got c next ↦ k c next t | _ ↦ error t ]

unfoldable pub pop_word : Tokenizer → PopResult
unfolding update_doc_ptr
pop_word t =
    after (scan (fuel_for t) (word_loop t.charset) t 0 tt) λ s cur t'. emit word 0 cur cur t'

-- The branches of `_pop_comment` on the second character.
unfoldable pub comment_kind : ℕ → ℕ → ℕ → Tokenizer → PopResult
unfolding update_doc_ptr
comment_kind c1 c2 next t =
    if not (c1 == b'/')
    then error t
    else if c2 == b'-'
    then emit slashdash 0 2 next t
    else if c2 == b'/'
    then after (scan (fuel_for t) (line_comment_loop t.charset) t next tt)
        (λ s cur t'. emit single_line_comment 0 cur cur t')
    else if c2 == b'*'
    then after
        (scan (fuel_for t) (block_comment_loop t.charset) t next
          (record { depth = 1; prev_char = 0 }))
        (λ s cur t'. emit multi_line_comment 0 cur cur t')
    else error t

abbrev pub second_char : ℕ → ℕ → Tokenizer → PopResult
second_char c1 next t = with_char (tok_get_char t next) (comment_kind c1)

unfoldable pub pop_comment : Tokenizer → PopResult
unfolding comment_kind
pop_comment t = with_char (tok_get_char t 0) second_char

-- The type of a string token.
unfoldable pub string_type : Bool → Bool → ℕ → TokenType
string_type is_raw is_v1 initial_quote_count =
    if initial_quote_count == 3
    then (if is_raw then raw_multiline_string else multiline_string)
    else if is_raw
    then (if is_v1 then raw_string_v1 else raw_string_v2)
    else string

abbrev pub no_quotes : BodyState
no_quotes = record { hashes_found = 0; quotes_found = 0; end_quote_offset = 0; prev_char = 0 }

-- From the first character of the string on; `cur` is its offset.
unfoldable pub pop_body : Bool → Bool → ℕ → ℕ → ℕ → Tokenizer → PopResult
unfolding string_type update_doc_ptr
pop_body is_raw is_v1 hashes quotes start t =
    after (scan (fuel_for t) (body_loop t.charset is_raw hashes quotes) t start no_quotes)
      λ s next t'. emit (string_type is_raw is_v1 quotes) start s.end_quote_offset next t'

-- From the quotes on. Two quotes are an empty string, of which the second is read again.
unfoldable pub pop_quotes : Bool → Bool → ℕ → ℕ → Tokenizer → PopResult
unfolding pop_body
pop_quotes is_raw is_v1 hashes cur t =
    after
      (scan (fuel_for t) (quotes_loop is_raw (if is_v1 then 1 else 3)) t cur
        (record { initial_quote_count = 0; empty_at_eof = false }))
      λ q cur' t'.
        if q.empty_at_eof
        then emit string 0 0 cur' t'
        else if q.initial_quote_count == 2
        then pop_body is_raw is_v1 hashes 1 (cur' - 1) t'
        else pop_body is_raw is_v1 hashes q.initial_quote_count cur' t'

unfoldable pub pop_hashes : Bool → ℕ → Tokenizer → PopResult
unfolding pop_quotes
pop_hashes is_v1 cur t =
    after (scan (fuel_for t) hashes_loop t cur 0)
      λ hashes cur' t'. pop_quotes true is_v1 hashes cur' t'

-- The branches of `_pop_string` on the first character.
unfoldable pub string_kind : ℕ → ℕ → Tokenizer → PopResult
unfolding pop_hashes
string_kind c next t =
    if c == b'r'
    then pop_hashes true next t
    else if c == b'#'
    then pop_hashes false 0 t
    else if c == b'"'
    then pop_quotes false false 0 0 t
    else error t

unfoldable pub pop_string : Tokenizer → PopResult
unfolding string_kind
pop_string t = with_char (tok_get_char t 0) string_kind

-- A CR takes a LF behind it along; the token starts one byte in front of the offset behind the CR.
abbrev pub after_cr : ℕ → CharStatus × Tokenizer → PopResult
after_cr next (status, t) = elim status [
  | got c2 nnext ↦
      if c2 == b'\n'
      then emit newline (next - 1) nnext nnext t
      else emit newline (next - 1) next next t
  | _ ↦ emit newline (next - 1) next next t
]

unfoldable pub pop_newline : ℕ → ℕ → Tokenizer → PopResult
unfolding update_doc_ptr
pop_newline c next t =
    if c == b'\r' then after_cr next (tok_get_char t next) else emit newline 0 next next t

-- A word that starts with `r` or `#` is read as a raw string, if it is one.
unfoldable pub pop_raw_or_word : Tokenizer → PopResult
unfolding pop_string pop_word
pop_raw_or_word t = elim (pop_string t) [
  | popped token t' ↦ popped token t'
  | end_of_file t' ↦ pop_word t'
  | error t' ↦ pop_word t'
  | stuck ↦ stuck
]

-- The branches of `kdl_pop_token` on the first character, which ends at the offset `next`.
unfoldable pub dispatch : ℕ → ℕ → Tokenizer → PopResult
unfolding pop_newline pop_raw_or_word pop_comment pop_string pop_word update_doc_ptr
dispatch c next t =
    if is_illegal_char t.charset c
    then error t
    else if is_whitespace t.charset c
    then after (scan (fuel_for t) (whitespace_loop t.charset) t next tt)
        (λ s cur t'. emit whitespace 0 cur cur t')
    else if is_newline c
    then pop_newline c next t
    else if c == b';'
    then emit semicolon 0 0 next t
    else if c == b'\\'
    then emit line_continuation 0 next next t
    else if c == b'('
    then emit start_type 0 next next t
    else if c == b')'
    then emit end_type 0 next next t
    else if c == b'{'
    then emit start_children 0 next next t
    else if c == b'}'
    then emit end_children 0 next next t
    else if c == b'='
    then emit equals 0 next next t
    else if c == b'/'
    then pop_comment t
    else if c == b'"'
    then pop_string t
    else if is_word_char t.charset c
    then (if c == b'r' || c == b'#' then pop_raw_or_word t else pop_word t)
    else error t

abbrev pub first_char : CharStatus × Tokenizer → PopResult
first_char (status, t) = elim status [
  | got c next ↦ dispatch c next t
  | at_eof ↦ end_of_file t
  | cut_off ↦ error t
  | invalid ↦ error t
]

-- `kdl_pop_token`. Every branch of its loop returns in the first round.
unfoldable pub pop_token : Tokenizer → PopResult
unfolding dispatch
pop_token t = first_char (tok_get_char t 0)
