-- ===== src/Tokenizer/Progress/Loops.antt =====
-- src/tokenizer.c: where the loops over characters end.
use ckdl.Prelude.{ℕ, ◌≤◌, ◌≡◌, arith, Bool, true, false}
use ckdl.Grammar.{CharacterSet, is_word_char, is_end_of_word}
use ckdl.Tokenizer.Scan.{
  whitespace_loop, word_loop, line_comment_loop, comment_round, block_comment_loop, hashes_loop,
  QuoteState, quotes_loop, body_round, body_loop,
}
use ckdl.Tokenizer.Kept.{Kept}

-- Behind the start of the input.
abbrev pub Behind : {S : Type 0} → S → ℕ → Type 0
Behind s cur = 1 ≤ cur

abbrev pub Anywhere : {S : Type 0} → S → ℕ → Type 0
Anywhere s cur = Unit

pub whitespace_loop-Kept : (cs : CharacterSet) → Kept Behind Behind (whitespace_loop cs)
whitespace_loop-Kept cs = record {
  each_round = λ s cur c next h i. ground arith;
  at_eof_too = λ s cur i. i;
  on_error_too = λ s cur i. i;
}

pub word_loop-Kept : (cs : CharacterSet) → Kept Behind Behind (word_loop cs)
word_loop-Kept cs = record {
  each_round = λ s cur c next h i. ground arith;
  at_eof_too = λ s cur i. i;
  on_error_too = λ s cur i. tt;
}

pub line_comment_loop-Kept : (cs : CharacterSet) → Kept Behind Behind (line_comment_loop cs)
line_comment_loop-Kept cs = record {
  each_round = λ s cur c next h i. ground arith;
  at_eof_too = λ s cur i. i;
  on_error_too = λ s cur i. tt;
}

pub block_comment_loop-Kept : (cs : CharacterSet) → Kept Anywhere Behind (block_comment_loop cs)
unfolding comment_round
block_comment_loop-Kept cs = record {
  each_round = λ s cur c next h i. ground arith;
  at_eof_too = λ s cur i. tt;
  on_error_too = λ s cur i. tt;
}

pub hashes_loop-Kept : Kept Anywhere Anywhere hashes_loop
hashes_loop-Kept = record {
  each_round = λ s cur c next h i. ground arith;
  at_eof_too = λ s cur i. tt;
  on_error_too = λ s cur i. tt;
}

pub body_loop-Kept :
    (cs : CharacterSet) (is_raw : Bool) (hashes quotes : ℕ)
    → Kept Anywhere Behind (body_loop cs is_raw hashes quotes)
unfolding body_round
body_loop-Kept cs is_raw hashes quotes = record {
  each_round = λ s cur c next h i. ground arith;
  at_eof_too = λ s cur i. tt;
  on_error_too = λ s cur i. tt;
}

-- The quotes counted so far lie in front of the offset.
abbrev pub Counted : QuoteState → ℕ → Type 0
Counted s cur = (s.initial_quote_count ≤ cur) × (s.empty_at_eof ≡ true → 1 ≤ cur)

pub quotes_loop-Kept :
    (is_raw : Bool) (max_quote_count : ℕ)
    → Kept Counted Counted (quotes_loop is_raw max_quote_count)
quotes_loop-Kept is_raw max_quote_count = record {
  each_round = λ s cur c next h i. ground arith;
  at_eof_too = λ s cur i. ground arith;
  on_error_too = λ s cur i. tt;
}

pub word_not_end :
    (cs : CharacterSet) (c : ℕ) → is_word_char cs c ≡ true → is_end_of_word cs c ≡ false
unfolding is_word_char is_end_of_word
word_not_end cs c h = ground arith
