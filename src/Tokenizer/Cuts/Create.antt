-- ===== src/Tokenizer/Cuts/Create.antt =====
-- src/tokenizer.c: a new tokenizer over a stream is like one over the whole text.
use ckdl.Prelude.{
  ℕ, ◌-◌, ◌<◌, ◌≤◌, ◌≢◌, ◌≡◌, ◌∙◌, ap, arith, length, ◌⊎◌, inl, inr, Bool-cases, drop, refl, sym,
  subst, append-nil, ◌==◌, if◌then◌else◌, Bool, true, false, List, [], Bytes, All,
}
use ckdl.Grammar.{v2}
use ckdl.Utf8.{Popped, ok, eof, incomplete, decode_error, pop_codepoint}
use ckdl.Utf8.Prefix.{pop_rest}
use ckdl.Tokenizer.{Tokenizer, flatten, whole, update_doc_ptr}
use ckdl.Tokenizer.Input.{
  CharStatus, got, at_eof, cut_off, invalid, settle, tok_get_char, remove_initial_bom,
  create_string_tokenizer, create_stream_tokenizer,
}
use ckdl.Tokenizer.Stream.{NonEmpty, drop-append, tok_get_char-Faithful}
use ckdl.Tokenizer.Reads.{Alike, AlikeAt, tok_get_char-AgreeChar}
use ckdl.Tokenizer.Cuts.{at_start, moved_on}

drop_bom : CharStatus × Tokenizer → Tokenizer
drop_bom (status, t) = elim status [
  | got c next ↦ if c == 0xFEFF then update_doc_ptr t next else t
  | _ ↦ t
]

drop_bom-Alike :
    (status : CharStatus) (t t' : Tokenizer)
    → Alike t t'
    → ((c next : ℕ) → status ≡ got c next → (0 < next) × AlikeAt next t t')
    → Alike (drop_bom (status, t)) (drop_bom (status, t'))
unfolding drop_bom
drop_bom-Alike (got c next) t t' a m = go (c == 0xFEFF)
  where
    go :
        (b : Bool)
        → Alike (if b then update_doc_ptr t next else t) (if b then update_doc_ptr t' next else t')
    go true = moved_on next (m c next refl).1
    go false = a
drop_bom-Alike at_eof t t' a m = a
drop_bom-Alike cut_off t t' a m = a
drop_bom-Alike invalid t t' a m = a

remove_initial_bom-Alike :
    (t t' : Tokenizer) → Alike t t' → Alike (remove_initial_bom t) (remove_initial_bom t')
unfolding remove_initial_bom drop_bom
remove_initial_bom-Alike t t' a =
    let r = tok_get_char-AgreeChar t t' 0 (at_start a) in
    subst (λ s. Alike (drop_bom (tok_get_char t 0)) (drop_bom (s, (tok_get_char t' 0).1)))
      r.same_char
      (drop_bom-Alike (tok_get_char t 0).0 (tok_get_char t 0).1 (tok_get_char t' 0).1 r.at_cur.alike
        r.moved)

create_stream_tokenizer-Alike :
    (reads : List Bytes)
    → All NonEmpty reads
    → Alike (create_stream_tokenizer reads) (create_string_tokenizer (flatten reads))
unfolding create_stream_tokenizer create_string_tokenizer
create_stream_tokenizer-Alike reads n = remove_initial_bom-Alike _ _ (record {
  same_whole = sym (append-nil (flatten reads));
  same_charset = refl;
  reads_left = n;
  reads_right = tt;
})

-- The second text is the first without the byte order mark that it starts with, or the first if it
-- starts with none.
abbrev pub WithoutBom : Bytes → Bytes → Type 0
WithoutBom s left =
    ((rest : Bytes) × (pop_codepoint s ≡ ok 0xFEFF rest) × (left ≡ rest))
    ⊎ ((left ≡ s) × ((rest : Bytes) → pop_codepoint s ≢ ok 0xFEFF rest))

whole_moved_on :
    (t : Tokenizer) (offset : ℕ)
    → offset ≤ length t.document
    → whole (update_doc_ptr t offset) ≡ drop offset (whole t)
unfolding update_doc_ptr
whole_moved_on t offset h = sym (drop-append offset t.document (flatten t.reads) h)

drop_bom-WithoutBom :
    (s : Bytes) (p : Popped) (t : Tokenizer)
    → pop_codepoint s ≡ p
    → whole t ≡ s
    → ((c next : ℕ) → settle (length s) p ≡ got c next → next ≤ length t.document)
    → WithoutBom s (whole (drop_bom (settle (length s) p, t)))
unfolding drop_bom settle
drop_bom-WithoutBom s (ok c rest) t e w m = elim (Bool-cases (c == 0xFEFF)) [
  | inl y ↦ rw y (
      inl (
        rest,
        e ∙ ap (λ c. ok c rest) (ground arith),
        whole_moved_on t (length s - length rest) (m c (length s - length rest) refl)
            ∙ rw w (pop_rest s e),
      ))
  | inr n ↦ rw n (inr (w, λ rest k. ground (arith, sym e ∙ k)))
]
drop_bom-WithoutBom s eof t e w m = inr (w, λ rest k. ground (arith, sym e ∙ k))
drop_bom-WithoutBom s incomplete t e w m = inr (w, λ rest k. ground (arith, sym e ∙ k))
drop_bom-WithoutBom s decode_error t e w m = inr (w, λ rest k. ground (arith, sym e ∙ k))

remove_initial_bom-WithoutBom :
    (t : Tokenizer) → All NonEmpty t.reads → WithoutBom (whole t) (whole (remove_initial_bom t))
unfolding remove_initial_bom drop_bom
remove_initial_bom-WithoutBom t n =
    let f = tok_get_char-Faithful t 0 (omega arith) n in
    subst (λ st. WithoutBom (whole t) (whole (drop_bom (st, (tok_get_char t 0).1))))
      (sym f.same_char)
      (drop_bom-WithoutBom (whole t) (pop_codepoint (whole t)) (tok_get_char t 0).1 refl
        f.same_input λ c next e. (f.read_so_far c next (f.same_char ∙ e)).1)

-- A tokenizer created over a stream has ahead of it what a tokenizer created over the concatenated
-- reads has, and that is their text without the byte order mark 0xFEFF where it starts with one, and
-- all of it where it does not, provided that no read but the end is empty.
pub create_stream_tokenizer-Bom :
    (reads : List Bytes)
    → All NonEmpty reads
    → Alike (create_stream_tokenizer reads) (create_string_tokenizer (flatten reads))
      × WithoutBom (flatten reads) (whole (create_stream_tokenizer reads))
unfolding create_stream_tokenizer
create_stream_tokenizer-Bom reads n = (
  create_stream_tokenizer-Alike reads n,
  remove_initial_bom-WithoutBom (record { document = []; charset = v2; reads = reads }) n,
)
