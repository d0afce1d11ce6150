-- ===== src/Tokenizer/Scan.antt =====
-- src/tokenizer.c: the loops over characters, each a step function over the variables that it changes.
use ckdl.Prelude.{
  ℕ, zero, suc, ◌+◌, ◌-◌, Bool, true, not, ◌&&◌, ◌||◌, ltb, ◌==◌, if◌then◌else◌, length,
}
use ckdl.Grammar.{
  CharacterSet, is_whitespace, is_newline, is_illegal_char, is_word_char, is_end_of_word,
}
use ckdl.Tokenizer.{Tokenizer, whole}
use ckdl.Tokenizer.Input.{CharStatus, got, at_eof, cut_off, invalid, tok_get_char}

-- What a round does: accept the character and go on; end in front of the character; accept it and end;
-- or give up.
pub data Step (S : Type 0) : Type 0 where
  go stop accept : S → Step S
  fail : Step S

-- A loop: its round for a character that starts at an offset, and what happens where no character is
-- to be had, at the end of the input or for another reason.
pub record Loop (S : Type 0) : Type 0 where
  pub round : S → ℕ → ℕ → Step S
  pub on_eof : S → Step S
  pub on_error : S → Step S

-- The variables behind the loop, with the offsets `cur` and `next`.
pub data Outcome (S : Type 0) : Type 0 where
  ended : S → ℕ → Tokenizer → Outcome S
  failed : Tokenizer → Outcome S
  out_of_fuel : Outcome S

module _ {S : Type 0} where
  -- The end of a loop where no character follows.
  unfoldable pub settle_end : Step S → ℕ → Tokenizer → Outcome S
  settle_end (go s) cur t = ended s cur t
  settle_end (stop s) cur t = ended s cur t
  settle_end (accept s) cur t = ended s cur t
  settle_end fail cur t = failed t

  -- What follows a round for the character from `cur` to `next`; `again` is the next round.
  unfoldable pub advance : (Tokenizer → ℕ → S → Outcome S) → Step S → ℕ → ℕ → Tokenizer → Outcome S
  advance again (go s) cur next t = again t next s
  advance again (stop s) cur next t = ended s cur t
  advance again (accept s) cur next t = ended s next t
  advance again fail cur next t = failed t

  -- The `switch` over the status.
  unfoldable pub respond :
      Loop S → (Tokenizer → ℕ → S → Outcome S) → CharStatus → ℕ → S → Tokenizer → Outcome S
  unfolding advance settle_end
  respond loop again (got c next) cur s t = advance again (loop.round s cur c) cur next t
  respond loop again at_eof cur s t = settle_end (loop.on_eof s) cur t
  respond loop again cut_off cur s t = settle_end (loop.on_error s) cur t
  respond loop again invalid cur s t = settle_end (loop.on_error s) cur t

  -- Each loop `while (true) switch (_tok_get_char(self, &cur, &next, &c))`.
  unfoldable pub scan : ℕ → Loop S → Tokenizer → ℕ → S → Outcome S
  unfolding respond
  scan zero loop t cur s = out_of_fuel
  scan (suc fuel) loop t cur s =
      respond loop (scan fuel loop) (tok_get_char t cur).0 cur s (tok_get_char t cur).1

-- A round takes a byte at least, so that one more than the bytes to come is enough fuel.
abbrev pub fuel_for : Tokenizer → ℕ
fuel_for t = suc (length (whole t))

-- The whitespace run of `kdl_pop_token`.
abbrev pub whitespace_loop : CharacterSet → Loop (Unit {0})
whitespace_loop cs = record {
  round = λ s cur c. if is_whitespace cs c then go s else stop s;
  on_eof = λ s. stop s;
  on_error = λ s. stop s;
}

-- `_pop_word`
abbrev pub word_loop : CharacterSet → Loop (Unit {0})
word_loop cs = record {
  round = λ s cur c.
      if is_end_of_word cs c then stop s else if not (is_word_char cs c) then fail else go s;
  on_eof = λ s. stop s;
  on_error = λ s. fail;
}

-- `_pop_comment`: a comment up to the end of the line.
abbrev pub line_comment_loop : CharacterSet → Loop (Unit {0})
line_comment_loop cs = record {
  round = λ s cur c. if is_illegal_char cs c then fail else if is_newline c then stop s else go s;
  on_eof = λ s. stop s;
  on_error = λ s. fail;
}

-- `_pop_comment`: a nested comment, with `depth` and `prev_char`.
pub record CommentState : Type 0 where
  pub depth : ℕ
  pub prev_char : ℕ

unfoldable pub comment_round : CharacterSet → CommentState → ℕ → Step CommentState
comment_round cs s c =
    if is_illegal_char cs c
    then fail
    else if c == b'*' && s.prev_char == b'/'
    then go (record { depth = s.depth + 1; prev_char = 0 })
    else if c == b'/' && s.prev_char == b'*'
    then (if s.depth == 1
        then accept (record { depth = 0; prev_char = 0 })
        else go (record { depth = s.depth - 1; prev_char = 0 }))
    else go (record { depth = s.depth; prev_char = c })

abbrev pub block_comment_loop : CharacterSet → Loop CommentState
block_comment_loop cs = record {
  round = λ s cur c. comment_round cs s c;
  on_eof = λ s. fail;
  on_error = λ s. fail;
}

-- `_pop_string`: "Count the hashes".
abbrev pub hashes_loop : Loop ℕ
hashes_loop = record {
  round = λ hashes cur c.
      if c == b'#' then go (hashes + 1) else if c == b'"' then stop hashes else fail;
  on_eof = λ s. fail;
  on_error = λ s. fail;
}

-- `_pop_string`: "Count the quotes". The flag is set where the input ends behind an empty string.
pub record QuoteState : Type 0 where
  pub initial_quote_count : ℕ
  pub empty_at_eof : Bool

abbrev pub quotes_loop : Bool → ℕ → Loop QuoteState
quotes_loop is_raw max_quote_count = record {
  round = λ s cur c.
      if c == b'"'
      then (if ltb (s.initial_quote_count + 1) max_quote_count
          then go (record s { initial_quote_count = s.initial_quote_count + 1 })
          else accept (record s { initial_quote_count = s.initial_quote_count + 1 }))
      else stop s;
  on_eof = λ s.
      if not is_raw && s.initial_quote_count == 2
      then stop (record s { empty_at_eof = true })
      else fail;
  on_error = λ s. fail;
}

-- `_pop_string`: "Scan the string itself".
pub record BodyState : Type 0 where
  pub hashes_found : ℕ
  pub quotes_found : ℕ
  pub end_quote_offset : ℕ
  pub prev_char : ℕ

-- The first half of the round: the counters for the character `c` at the offset `cur`.
unfoldable pub body_count : Bool → ℕ → BodyState → ℕ → ℕ → BodyState
body_count is_raw quotes s cur c =
    if not is_raw && c == b'\\' && s.prev_char == b'\\'
    then record { hashes_found = 0; quotes_found = 0; end_quote_offset = 0; prev_char = 0 }
    else if c == b'"' && (is_raw || not (s.prev_char == b'\\'))
    then (let offset = if s.quotes_found == 0 then cur else s.end_quote_offset in
        if ltb s.quotes_found quotes
        then record {
          hashes_found = 0;
          quotes_found = s.quotes_found + 1;
          end_quote_offset = offset;
          prev_char = c;
        }
        else record {
          hashes_found = 0;
          quotes_found = s.quotes_found;
          end_quote_offset = offset + 1;
          prev_char = c;
        })
    else if c == b'#' && (not (s.hashes_found == 0) || s.quotes_found == quotes)
    then record s { hashes_found = s.hashes_found + 1; quotes_found = 0; prev_char = c }
    else record { hashes_found = 0; quotes_found = 0; end_quote_offset = 0; prev_char = c }

-- "end of string!"
abbrev pub body_done : ℕ → ℕ → BodyState → Bool
body_done hashes quotes s =
    not (s.end_quote_offset == 0)
    && ((hashes == 0 && s.quotes_found == quotes)
        || (not (hashes == 0) && s.hashes_found == hashes))

unfoldable pub body_round : CharacterSet → Bool → ℕ → ℕ → BodyState → ℕ → ℕ → Step BodyState
unfolding body_count
body_round cs is_raw hashes quotes s cur c =
    let s' = body_count is_raw quotes s cur c in
    if is_illegal_char cs c then fail else if body_done hashes quotes s' then accept s' else go s'

abbrev pub body_loop : CharacterSet → Bool → ℕ → ℕ → Loop BodyState
body_loop cs is_raw hashes quotes = record {
  round = body_round cs is_raw hashes quotes;
  on_eof = λ s. fail;
  on_error = λ s. fail;
}
