-- ===== src/Tests/Tokens.antt =====
-- src/tokenizer.c on concrete inputs.
use ckdl.Prelude.{◌≡◌, refl, arith, List, [], ◌∷◌, Bytes, codes, All}
use ckdl.Grammar.{v2, is_illegal_char, is_whitespace, is_newline, is_word_char, is_end_of_word}
use ckdl.Utf8.{pop_codepoint}
use ckdl.Tokenizer.{Tokenizer, word, multi_line_comment, raw_string_v2, flatten, whole}
use ckdl.Tokenizer.Input.{tok_get_char, create_string_tokenizer, create_stream_tokenizer}
use ckdl.Tokenizer.Stream.{NonEmpty, Faithful, tok_get_char-Faithful}
use ckdl.Tokenizer.Scan.{scan, word_loop, comment_round, body_round}
use ckdl.Tokenizer.Reads.{Alike, AlikeAt, Agree, scan-Agree}
use ckdl.Tokenizer.Tokens.{popped, pop_token}
use ckdl.Tokenizer.Progress.PopToken.{Answers, pop_token-Answers}
use ckdl.Tokenizer.Cuts.{Same}
use ckdl.Tokenizer.Cuts.PopToken.{pop_token-Same}
use ckdl.Tokenizer.Cuts.Create.{WithoutBom, create_stream_tokenizer-Bom}

-- A euro sign cut into two reads, in the middle of a word.
abbrev cut_reads : List Bytes
cut_reads = (b'a' ∷ 0xE2 ∷ []) ∷ (0x82 ∷ 0xAC ∷ b' ' ∷ []) ∷ []

cut_reads-NonEmpty : All NonEmpty cut_reads
cut_reads-NonEmpty = ((λ e. grind arith), ((λ e. grind arith), tt))

abbrev cut_tokenizer : Tokenizer
cut_tokenizer = record { document = []; charset = v2; reads = cut_reads }

abbrev whole_tokenizer : Tokenizer
whole_tokenizer = record { document = flatten cut_reads; charset = v2; reads = [] }

cut_tokenizers-Alike : Alike cut_tokenizer whole_tokenizer
cut_tokenizers-Alike = record {
  same_whole = refl;
  same_charset = refl;
  reads_left = cut_reads-NonEmpty;
  reads_right = tt;
}

cut_tokenizers-AlikeAt : AlikeAt 0 cut_tokenizer whole_tokenizer
cut_tokenizers-AlikeAt = record {
  alike = cut_tokenizers-Alike;
  in_left = omega arith;
  in_right = omega arith;
}

tok_get_char-Faithful_example : Faithful [] cut_reads v2 0 (tok_get_char cut_tokenizer 0)
tok_get_char-Faithful_example =
    tok_get_char-Faithful cut_tokenizer 0 (omega arith) cut_reads-NonEmpty

scan-Agree_example :
    Agree (scan 6 (word_loop v2) cut_tokenizer 0 tt) (scan 6 (word_loop v2) whole_tokenizer 0 tt)
scan-Agree_example =
    scan-Agree 6 (word_loop v2) cut_tokenizer whole_tokenizer 0 tt cut_tokenizers-AlikeAt
      (omega arith)

pop_token-Same_example : Same (pop_token cut_tokenizer) (pop_token whole_tokenizer)
pop_token-Same_example = pop_token-Same cut_tokenizer whole_tokenizer cut_tokenizers-Alike

-- A byte order mark cut into two reads.
abbrev marked_reads : List Bytes
marked_reads = (0xEF ∷ 0xBB ∷ []) ∷ (0xBF ∷ b'a' ∷ []) ∷ []

marked_reads-NonEmpty : All NonEmpty marked_reads
marked_reads-NonEmpty = ((λ e. grind arith), ((λ e. grind arith), tt))

create_stream_tokenizer-Bom_example :
    Alike (create_stream_tokenizer marked_reads) (create_string_tokenizer (flatten marked_reads))
    × WithoutBom (flatten marked_reads) (whole (create_stream_tokenizer marked_reads))
create_stream_tokenizer-Bom_example = create_stream_tokenizer-Bom marked_reads marked_reads-NonEmpty

created_without_bom : whole (create_stream_tokenizer marked_reads) ≡ codes "a"
unfolding create_stream_tokenizer tok_get_char pop_codepoint
created_without_bom = refl

abbrev over : Bytes → Tokenizer
over s = record { document = s; charset = v2; reads = [] }

pop_token_word :
    pop_token cut_tokenizer
    ≡ popped (record { type = word; value = b'a' ∷ 0xE2 ∷ 0x82 ∷ 0xAC ∷ [] }) (over (codes " "))
unfolding pop_token tok_get_char pop_codepoint is_illegal_char is_whitespace is_newline is_word_char
    is_end_of_word scan comment_round body_round
pop_token_word = refl

pop_token_comment :
    pop_token (over (codes "/* /* */ */ x"))
    ≡ popped (record { type = multi_line_comment; value = codes "/* /* */ */" }) (over (codes " x"))
unfolding pop_token tok_get_char pop_codepoint is_illegal_char is_whitespace is_newline is_word_char
    is_end_of_word scan comment_round body_round
pop_token_comment = refl

pop_token_raw :
    pop_token (over (codes "#\"a\"b\"# "))
    ≡ popped (record { type = raw_string_v2; value = codes "a\"b" }) (over (codes " "))
unfolding pop_token tok_get_char pop_codepoint is_illegal_char is_whitespace is_newline is_word_char
    is_end_of_word scan comment_round body_round
pop_token_raw = refl

pop_token_hash_word :
    pop_token (over (codes "#true "))
    ≡ popped (record { type = word; value = codes "#true" }) (over (codes " "))
unfolding pop_token tok_get_char pop_codepoint is_illegal_char is_whitespace is_newline is_word_char
    is_end_of_word scan comment_round body_round
pop_token_hash_word = refl

pop_token-Answers_example : Answers cut_tokenizer (pop_token cut_tokenizer)
pop_token-Answers_example = pop_token-Answers cut_tokenizer cut_reads-NonEmpty
