-- ===== src/Tokenizer.antt =====
-- src/tokenizer.c: the state of a tokenizer, and reading a character from it.
-- `document` is what has been read and not yet taken, `reads` what the calls of `read_func` still to
-- come deliver; a call behind the last delivers nothing, and so does every call of a tokenizer over a
-- string, which has no `read_func`. Pointers into the document are offsets from its start. The buffer
-- behind the document, which `_refill_tokenizer` moves and grows, keeps the unread bytes and is left out.
pub mod Input
pub mod Scan
pub mod Tokens
pub mod Stream
pub mod Reads
pub mod Kept
pub mod Progress
pub mod Cuts
use ckdl.Prelude.{ℕ, zero, suc, ◌+◌, ◌-◌, List, [], ◌∷◌, ◌++◌, Bytes, length}
use ckdl.Grammar.{CharacterSet, v2}
pub use ckdl.Prelude.{drop}
use ckdl.Text.{take}

-- `kdl_token_type`
pub data TokenType : Type 0 where
  start_type end_type word string multiline_string raw_string_v1 raw_string_v2 : TokenType
  raw_multiline_string single_line_comment slashdash multi_line_comment equals : TokenType
  start_children end_children newline semicolon line_continuation whitespace : TokenType

-- `kdl_token`
pub record Token : Type 0 where
  pub type : TokenType
  pub value : Bytes

-- `struct _kdl_tokenizer`
pub record Tokenizer : Type 0 where
  pub document : Bytes
  pub charset : CharacterSet
  pub reads : List Bytes

-- The bytes from offset `start` up to offset `stop`.
abbrev pub slice : ℕ → ℕ → Bytes → Bytes
slice start stop s = take (stop - start) (drop start s)

-- `_update_doc_ptr`
unfoldable pub update_doc_ptr : Tokenizer → ℕ → Tokenizer
update_doc_ptr t offset = record t { document = drop offset t.document }

-- All that is still to come.
abbrev pub flatten : List Bytes → Bytes
flatten [] = []
flatten (r ∷ rs) = r ++ flatten rs

abbrev pub whole : Tokenizer → Bytes
whole t = t.document ++ flatten t.reads
