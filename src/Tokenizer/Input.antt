-- ===== src/Tokenizer/Input.antt =====
-- src/tokenizer.c: `_tok_get_char` with `_refill_tokenizer`, and the creation of a tokenizer.
use ckdl.Prelude.{
  ℕ, ◌-◌, Bool, true, false, List, [], ◌∷◌, ◌++◌, ◌==◌, if◌then◌else◌, Bytes, length,
}
use ckdl.Grammar.{CharacterSet, v2}
use ckdl.Utf8.{Popped, ok, eof, incomplete, decode_error, pop_codepoint}
use ckdl.Tokenizer.{Tokenizer, drop, update_doc_ptr}

-- `kdl_utf8_status` with `*codepoint` and the offset `*next`.
pub data CharStatus : Type 0 where
  got : ℕ → ℕ → CharStatus
  at_eof cut_off invalid : CharStatus

-- What `_tok_get_char` answers when it reads no more, on a document of this length.
unfoldable pub settle : ℕ → Popped → CharStatus
settle len (ok c rest) = got c (len - length rest)
settle len eof = at_eof
settle len incomplete = cut_off
settle len decode_error = invalid

-- `case KDL_UTF8_EOF: case KDL_UTF8_INCOMPLETE:`
unfoldable pub wants_more : Popped → Bool
wants_more eof = true
wants_more incomplete = true
wants_more _ = false

abbrev pub is_empty : Bytes → Bool
is_empty [] = true
is_empty (b ∷ s) = false

-- The loop of `_tok_get_char` at the offset `cur`. Where the character is not whole it calls
-- `_refill_tokenizer`, which appends what is read next, and tries again if that was not empty.
unfoldable pub get_char_loop : List Bytes → Bytes → CharacterSet → ℕ → CharStatus × Tokenizer
unfolding settle wants_more
get_char_loop [] doc charset cur = (
  settle (length doc) (pop_codepoint (drop cur doc)),
  record { document = doc; charset = charset; reads = [] },
)
get_char_loop (r ∷ rs) doc charset cur =
    let retry = get_char_loop rs (doc ++ r) charset cur in
    let p = pop_codepoint (drop cur doc) in
    if wants_more p
    then (if is_empty r
        then (settle (length doc) p, record { document = doc; charset = charset; reads = rs })
        else retry)
    else (settle (length doc) p, record { document = doc; charset = charset; reads = r ∷ rs })

-- `_tok_get_char`
unfoldable pub tok_get_char : Tokenizer → ℕ → CharStatus × Tokenizer
unfolding get_char_loop
tok_get_char t cur = get_char_loop t.reads t.document t.charset cur

-- `_remove_initial_bom`
unfoldable pub remove_initial_bom : Tokenizer → Tokenizer
unfolding update_doc_ptr
remove_initial_bom t =
    let (status, t') = tok_get_char t 0 in
    elim status [ got c next ↦ if c == 0xFEFF then update_doc_ptr t' next else t' | _ ↦ t' ]

-- `kdl_create_string_tokenizer` and `kdl_create_stream_tokenizer`
unfoldable pub create_string_tokenizer : Bytes → Tokenizer
unfolding remove_initial_bom
create_string_tokenizer doc =
    remove_initial_bom (record { document = doc; charset = v2; reads = [] })

unfoldable pub create_stream_tokenizer : List Bytes → Tokenizer
unfolding remove_initial_bom
create_stream_tokenizer reads =
    remove_initial_bom (record { document = []; charset = v2; reads = reads })

unfoldable pub tokenizer_set_character_set : Tokenizer → CharacterSet → Tokenizer
tokenizer_set_character_set t cs = record t { charset = cs }
