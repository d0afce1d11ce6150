-- ===== src/Tokenizer/Progress/Create.antt =====
-- src/tokenizer.c: what a new tokenizer has ahead of it.
use ckdl.Prelude.{
  ℕ, ◌≤◌, ap, arith, ◌==◌, if◌then◌else◌, Bool, true, false, List, [], Bytes, length, length-append,
  append-nil, All,
}
use ckdl.Grammar.{v2}
use ckdl.Tokenizer.{Tokenizer, flatten, whole, drop, update_doc_ptr}
use ckdl.Tokenizer.Input.{
  CharStatus, got, at_eof, cut_off, invalid, tok_get_char, remove_initial_bom,
  create_stream_tokenizer, create_string_tokenizer,
}
use ckdl.Tokenizer.Stream.{NonEmpty, length-drop, tok_get_char-Faithful}

-- At most `n` bytes are ahead, in reads that are not empty.
abbrev pub Ahead : ℕ → Tokenizer → Type 0
Ahead n t = All NonEmpty t.reads × (length (whole t) ≤ n)

if-Ahead :
    {n : ℕ} (b : Bool) (next : ℕ) (t : Tokenizer)
    → Ahead n t
    → Ahead n (if b then update_doc_ptr t next else t)
unfolding update_doc_ptr
if-Ahead true next t h =
    let bound = h.1 in
    (
      h.0,
      omega (
        arith,
        length-append (drop next t.document) (flatten t.reads),
        length-append t.document (flatten t.reads),
        length-drop next t.document,
        bound,
      ),
    )
if-Ahead false next t h = h

status-Ahead :
    {n : ℕ} (status : CharStatus) (t : Tokenizer)
    → Ahead n t
    → Ahead n
        (elim status [ got c next ↦ if c == 0xFEFF then update_doc_ptr t next else t | _ ↦ t ])
status-Ahead (got c next) t h = if-Ahead (c == 0xFEFF) next t h
status-Ahead at_eof t h = h
status-Ahead cut_off t h = h
status-Ahead invalid t h = h

pub create_stream_tokenizer-Ahead :
    (reads : List Bytes)
    → All NonEmpty reads
    → Ahead (length (flatten reads)) (create_stream_tokenizer reads)
unfolding create_stream_tokenizer remove_initial_bom
create_stream_tokenizer-Ahead reads h =
    let t : Tokenizer = record { document = []; charset = v2; reads = reads } in
    let f = tok_get_char-Faithful t 0 (omega arith) h in
    status-Ahead (tok_get_char t 0).0 (tok_get_char t 0).1
      (f.non_empty, omega (arith, ap length f.same_input))

pub create_string_tokenizer-Ahead : (s : Bytes) → Ahead (length s) (create_string_tokenizer s)
unfolding create_string_tokenizer remove_initial_bom
create_string_tokenizer-Ahead s =
    let t : Tokenizer = record { document = s; charset = v2; reads = [] } in
    let f = tok_get_char-Faithful t 0 (omega arith) tt in
    status-Ahead (tok_get_char t 0).0 (tok_get_char t 0).1
      (f.non_empty, omega (arith, ap length f.same_input, ap length (append-nil s)))
