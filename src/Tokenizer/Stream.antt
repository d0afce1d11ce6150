-- ===== src/Tokenizer/Stream.antt =====
-- src/tokenizer.c: where the input is cut into reads makes no difference to the characters.
use ckdl.Prelude.{
  Bool-cases, inl, inr, subst, ℕ, zero, suc, ◌-◌, ◌≤◌, ◌<◌, ◌≡◌, ◌≢◌, refl, ap, ◌∙◌, arith, false,
  List, [], ◌∷◌, ◌++◌, append_assoc, append-nil, Bytes, length, length-append, All,
}
use ckdl.Grammar.{CharacterSet}
use ckdl.Utf8.{Popped, ok, eof, incomplete, decode_error, pop_codepoint}
use ckdl.Utf8.Prefix.{Extends, pop_Extends, pop_takes}
use ckdl.Tokenizer.{Tokenizer, drop, flatten, whole}
use ckdl.Tokenizer.Input.{CharStatus, got, settle, wants_more, get_char_loop, tok_get_char}

-- A stream as the documentation asks for it: only its end reads nothing.
abbrev pub NonEmpty : Bytes → Type 0
NonEmpty r = r ≢ []

pub drop-append : (n : ℕ) (s t : Bytes) → n ≤ length s → drop n (s ++ t) ≡ drop n s ++ t
drop-append zero s t h = refl
drop-append (suc n) [] t h = absurd (omega arith)
drop-append (suc n) (x ∷ s) t h = drop-append n s t (omega arith)

pub length-drop : (n : ℕ) (s : Bytes) → length (drop n s) ≡ length s - n
length-drop zero s = omega arith
length-drop (suc n) [] = omega arith
length-drop (suc n) (x ∷ s) = omega (arith, length-drop n s)

-- What the answer on the first read says of the whole input.
settle-append :
    (doc more : Bytes) (cur : ℕ) (p : Popped)
    → cur ≤ length doc
    → pop_codepoint (drop cur doc) ≡ p
    → wants_more p ≡ false
    → settle (length doc) p ≡ settle (length (doc ++ more)) (pop_codepoint (drop cur (doc ++ more)))
unfolding settle wants_more
settle-append doc more cur (ok c rest) h e w =
    let ext : pop_codepoint (drop cur doc ++ more) ≡ ok c (rest ++ more) =
      subst (Extends (drop cur doc) more) e (pop_Extends (drop cur doc) more) in
    rw (drop-append cur doc more h, ext)
      (let same : length doc - length rest ≡ length (doc ++ more) - length (rest ++ more) =
          omega (arith, length-append doc more, length-append rest more) in
        ap (got c) same)
settle-append doc more cur eof h e w = absurd (ground arith)
settle-append doc more cur incomplete h e w = absurd (ground arith)
settle-append doc more cur decode_error h e w =
    let ext : pop_codepoint (drop cur doc ++ more) ≡ decode_error =
      subst (Extends (drop cur doc) more) e (pop_Extends (drop cur doc) more) in
    rw (drop-append cur doc more h, ext) refl

settle_got :
    (doc : Bytes) (cur : ℕ) (p : Popped) {c next : ℕ}
    → cur ≤ length doc
    → pop_codepoint (drop cur doc) ≡ p
    → settle (length doc) p ≡ got c next
    → (cur < next) × (next ≤ length doc)
unfolding settle
settle_got doc cur (ok c rest) h e w =
    ground (arith, pop_takes (drop cur doc) e, length-drop cur doc)
settle_got doc cur eof h e w = absurd (ground arith)
settle_got doc cur incomplete h e w = absurd (ground arith)
settle_got doc cur decode_error h e w = absurd (ground arith)

-- What is read is the character that the whole input has there; nothing of the input is lost.
pub record Faithful (doc : Bytes) (rest : List Bytes) (charset : CharacterSet) (cur : ℕ)
    (r : CharStatus × Tokenizer) : Type 0 where
  pub same_char :
      r.0 ≡ settle (length (doc ++ flatten rest)) (pop_codepoint (drop cur (doc ++ flatten rest)))
  pub same_input : whole r.1 ≡ doc ++ flatten rest
  pub same_set : r.1.charset ≡ charset
  pub non_empty : All NonEmpty r.1.reads
  pub grown : length doc ≤ length r.1.document
  pub read_so_far : (c next : ℕ) → r.0 ≡ got c next → (cur < next) × (next ≤ length r.1.document)

-- A character that is whole on the first read, or where no read follows.
settled :
    (doc : Bytes) (reads : List Bytes) (charset : CharacterSet) (cur : ℕ)
    → cur ≤ length doc
    → All NonEmpty reads
    → settle (length doc) (pop_codepoint (drop cur doc))
      ≡ settle (length (doc ++ flatten reads)) (pop_codepoint (drop cur (doc ++ flatten reads)))
    → Faithful doc reads charset cur (
      settle (length doc) (pop_codepoint (drop cur doc)),
      record { document = doc; charset = charset; reads = reads },
    )
settled doc reads charset cur h n e = record {
  same_char = e;
  same_input = refl;
  same_set = refl;
  non_empty = n;
  grown = omega arith;
  read_so_far = λ c next k. settle_got doc cur (pop_codepoint (drop cur doc)) h refl k;
}

-- A refill moves bytes from the reads to the document.
refilled :
    (doc r : Bytes) (rs : List Bytes) (charset : CharacterSet) (cur : ℕ)
    {q : CharStatus × Tokenizer}
    → Faithful (doc ++ r) rs charset cur q
    → Faithful doc (r ∷ rs) charset cur q
refilled doc r rs charset cur f =
    let moved : (doc ++ r) ++ flatten rs ≡ doc ++ (r ++ flatten rs) =
      append_assoc doc r (flatten rs) in
    record {
      same_char = rw moved at f.same_char;
      same_input = f.same_input ∙ moved;
      same_set = f.same_set;
      non_empty = f.non_empty;
      grown = omega (arith, f.grown, length-append doc r);
      read_so_far = f.read_so_far;
    }

get_char_loop-Faithful :
    (reads : List Bytes) (doc : Bytes) (charset : CharacterSet) (cur : ℕ)
    → cur ≤ length doc
    → All NonEmpty reads
    → Faithful doc reads charset cur (get_char_loop reads doc charset cur)
unfolding get_char_loop
get_char_loop-Faithful [] doc charset cur h n =
    settled doc [] charset cur h n (rw (append-nil doc) refl)
get_char_loop-Faithful ([] ∷ rs) doc charset cur h (hr, hs) = absurd (hr refl)
get_char_loop-Faithful ((b ∷ r) ∷ rs) doc charset cur h (hr, hs) =
    elim (Bool-cases (wants_more (pop_codepoint (drop cur doc)))) [
      | inl w ↦ rw w (
          refilled doc (b ∷ r) rs charset cur (
            get_char_loop-Faithful rs (doc ++ b ∷ r) charset cur
              (rw (length-append doc (b ∷ r)) (omega arith)) hs))
      | inr w ↦ rw w (
          settled doc ((b ∷ r) ∷ rs) charset cur h (hr, hs)
            (settle-append doc (flatten ((b ∷ r) ∷ rs)) cur (pop_codepoint (drop cur doc)) h refl
              w))
    ]

-- However the input is cut into reads, `_tok_get_char` answers the character that the whole input has
-- at the offset, or the status that decoding has there, and neither loses nor invents a byte, provided
-- that no read but the end delivers nothing and that the offset is in the document.
pub tok_get_char-Faithful :
    (t : Tokenizer) (cur : ℕ)
    → cur ≤ length t.document
    → All NonEmpty t.reads
    → Faithful t.document t.reads t.charset cur (tok_get_char t cur)
unfolding tok_get_char
tok_get_char-Faithful t cur h n = get_char_loop-Faithful t.reads t.document t.charset cur h n
