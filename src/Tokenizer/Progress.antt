-- ===== src/Tokenizer/Progress.antt =====
-- src/tokenizer.c: each token takes a byte of the input at least.
pub mod Create
pub mod Loops
pub mod Branches
pub mod PopToken
use ckdl.Prelude.{
  ℕ, zero, suc, ◌+◌, ◌-◌, ◌≤◌, ◌<◌, ◌≡◌, refl, sym, ap, ◌∙◌, arith, Bool, true, false, not, ◌&&◌,
  ◌||◌, ◌==◌, if◌then◌else◌, Bytes, length, length-append, All,
}
use ckdl.Grammar.{CharacterSet, is_word_char, is_end_of_word}
use ckdl.Utf8.{pop_codepoint}
use ckdl.Tokenizer.{TokenType, Tokenizer, flatten, drop, whole, update_doc_ptr}
use ckdl.Tokenizer.Input.{CharStatus, got, at_eof, cut_off, invalid, settle, tok_get_char}
use ckdl.Tokenizer.Stream.{NonEmpty, tok_get_char-Faithful, length-drop}
use ckdl.Tokenizer.Scan.{
  Step, go, stop, accept, fail, Loop, Outcome, ended, failed, out_of_fuel, settle_end, advance,
  respond, scan, fuel_for,
}
use ckdl.Tokenizer.Kept.{Holds, Kept, scan-Holds}
use ckdl.Tokenizer.Tokens.{PopResult, popped, end_of_file, error, stuck, emit, after, with_char}

-- A tokenizer with the input `w` and the character set `cs`, whose document reaches the offset.
pub record Reading (w : Bytes) (cs : CharacterSet) (cur : ℕ) (t : Tokenizer) : Type 0 where
  pub in_document : cur ≤ length t.document
  pub same_input : whole t ≡ w
  pub same_set : t.charset ≡ cs
  pub non_empty : All NonEmpty t.reads

pub back_to :
    (cur : ℕ) {next : ℕ} {w : Bytes} {cs : CharacterSet} {t : Tokenizer}
    → cur ≤ next
    → Reading w cs next t
    → Reading w cs cur t
back_to cur h g = record {
  in_document = omega (arith, g.in_document);
  same_input = g.same_input;
  same_set = g.same_set;
  non_empty = g.non_empty;
}

-- A character that is read leaves the tokenizer in the same input, and ends behind its start.
pub record ReadingChar (w : Bytes) (cs : CharacterSet) (cur : ℕ) (r : CharStatus × Tokenizer)
    : Type 0 where
  pub at_cur : Reading w cs cur r.1
  pub same_char : r.0 ≡ settle (length w) (pop_codepoint (drop cur w))
  pub moved : (c next : ℕ) → r.0 ≡ got c next → (cur < next) × Reading w cs next r.1

pub read_char :
    {w : Bytes} {cs : CharacterSet} {cur : ℕ} {t : Tokenizer}
    → Reading w cs cur t
    → ReadingChar w cs cur (tok_get_char t cur)
read_char {w = w} {cs = cs} {cur = cur} {t = t} g =
    let f = tok_get_char-Faithful t cur g.in_document g.non_empty in
    record {
      at_cur = record {
        in_document = omega (arith, f.grown, g.in_document);
        same_input = f.same_input ∙ g.same_input;
        same_set = f.same_set ∙ g.same_set;
        non_empty = f.non_empty;
      };
      same_char =
          f.same_char ∙ ap (λ x. settle (length x) (pop_codepoint (drop cur x))) g.same_input;
      moved = λ c next e. (
        (f.read_so_far c next e).0,
        record {
          in_document = (f.read_so_far c next e).1;
          same_input = f.same_input ∙ g.same_input;
          same_set = f.same_set ∙ g.same_set;
          non_empty = f.non_empty;
        },
      );
    }

module _ (w : Bytes) (cs : CharacterSet) where
  module _ {S : Type 0} where
    -- A loop that ended is in the same input.
    abbrev pub Stays : Outcome S → Type 0
    Stays (ended s cur t) = Reading w cs cur t
    Stays (failed t) = Reading w cs 0 t
    Stays out_of_fuel = Unit

    settle_end-Stays :
        (step : Step S) {cur : ℕ} {t : Tokenizer}
        → Reading w cs cur t
        → Stays (settle_end step cur t)
    unfolding settle_end
    settle_end-Stays (go s) g = g
    settle_end-Stays (stop s) g = g
    settle_end-Stays (accept s) g = g
    settle_end-Stays fail g = back_to 0 (omega arith) g

    advance-Stays :
        (again : Tokenizer → ℕ → S → Outcome S) (step : Step S) (cur next : ℕ) {t : Tokenizer}
        → Reading w cs cur t
        → Reading w cs next t
        → ((s : S) → Stays (again t next s))
        → Stays (advance again step cur next t)
    unfolding advance
    advance-Stays again (go s) cur next g h k = k s
    advance-Stays again (stop s) cur next g h k = g
    advance-Stays again (accept s) cur next g h k = h
    advance-Stays again fail cur next g h k = back_to 0 (omega arith) g

    respond-Stays :
        (loop : Loop S) (again : Tokenizer → ℕ → S → Outcome S) (status : CharStatus) {cur : ℕ}
        (s : S) {t : Tokenizer}
        → Reading w cs cur t
        → ((c next : ℕ)
            → status ≡ got c next
            → Reading w cs next t × ((s : S) → Stays (again t next s)))
        → Stays (respond loop again status cur s t)
    unfolding respond
    respond-Stays loop again (got c next) {cur} s g k =
        advance-Stays again (loop.round s cur c) cur next g (k c next refl).0 (k c next refl).1
    respond-Stays loop again at_eof s g k = settle_end-Stays (loop.on_eof s) g
    respond-Stays loop again cut_off s g k = settle_end-Stays (loop.on_error s) g
    respond-Stays loop again invalid s g k = settle_end-Stays (loop.on_error s) g

    pub scan-Stays :
        (fuel : ℕ) (loop : Loop S) (t : Tokenizer) {cur : ℕ} (s : S)
        → Reading w cs cur t
        → Stays (scan fuel loop t cur s)
    unfolding scan
    scan-Stays zero loop t s g = tt
    scan-Stays (suc fuel) loop t {cur} s g =
        let r = read_char g in
        respond-Stays loop (scan fuel loop) (tok_get_char t cur).0 s r.at_cur λ c next e. (
          (r.moved c next e).1,
          λ s'. scan-Stays fuel loop (tok_get_char t cur).1 s' (r.moved c next e).1,
        )

  -- A token leaves less of the input than there was; the end and an error leave the input.
  abbrev pub Shorter : PopResult → Type 0
  Shorter (popped token t) = (length (whole t) < length w) × All NonEmpty t.reads
  Shorter (end_of_file t) = Reading w cs 0 t
  Shorter (error t) = Reading w cs 0 t
  Shorter stuck = Unit

  pub emit-Shorter :
      (type : TokenType) (start end rest : ℕ) {t : Tokenizer}
      → 1 ≤ rest
      → Reading w cs rest t
      → Shorter (emit type start end rest t)
  unfolding update_doc_ptr
  emit-Shorter type start end rest {t} h g = (
    (let before : length (whole t) ≡ length w = ap length g.same_input in
        omega (
          arith,
          before,
          g.in_document,
          length-append t.document (flatten t.reads),
          length-append (drop rest t.document) (flatten t.reads),
          length-drop rest t.document,
        )),
    g.non_empty,
  )

  pub if-Shorter :
      (b : Bool) (x y : PopResult)
      → (b ≡ true → Shorter x)
      → (b ≡ false → Shorter y)
      → Shorter (if b then x else y)
  if-Shorter true x y h k = h refl
  if-Shorter false x y h k = k refl

  pub with_char-Shorter :
      {cur : ℕ} (r : CharStatus × Tokenizer) (k : ℕ → ℕ → Tokenizer → PopResult)
      → ReadingChar w cs cur r
      → ((c next : ℕ)
          → r.0 ≡ got c next
          → cur < next
          → Reading w cs next r.1
          → Shorter (k c next r.1))
      → Shorter (with_char r k)
  with_char-Shorter (got c next, t) k g h =
      h c next refl (g.moved c next refl).0 (g.moved c next refl).1
  with_char-Shorter (at_eof, t) k g h = back_to 0 (omega arith) g.at_cur
  with_char-Shorter (cut_off, t) k g h = back_to 0 (omega arith) g.at_cur
  with_char-Shorter (invalid, t) k g h = back_to 0 (omega arith) g.at_cur

  module _ {S : Type 0} where
    pub after-Shorter :
        (J : S → ℕ → Type 0) (k : S → ℕ → Tokenizer → PopResult) (o : Outcome S)
        → Stays o
        → Holds J o
        → ((s : S) (cur : ℕ) (t : Tokenizer) → J s cur → Reading w cs cur t → Shorter (k s cur t))
        → Shorter (after o k)
    after-Shorter J k (ended s cur t) g j h = h s cur t j g
    after-Shorter J k (failed t) g j h = g
    after-Shorter J k out_of_fuel g j h = tt

    -- A loop with what it keeps.
    pub scan-Shorter :
        (I J : S → ℕ → Type 0) (k : S → ℕ → Tokenizer → PopResult) (loop : Loop S) (t : Tokenizer)
        (fuel cur : ℕ) (s : S)
        → Kept I J loop
        → Reading w cs cur t
        → I s cur
        → ((s : S) (cur : ℕ) (t : Tokenizer) → J s cur → Reading w cs cur t → Shorter (k s cur t))
        → Shorter (after (scan fuel loop t cur s) k)
    scan-Shorter I J k loop t fuel cur s kept g i h =
        after-Shorter J k (scan fuel loop t cur s) (scan-Stays fuel loop t s g)
          (scan-Holds I J fuel loop t cur s kept g.in_document g.non_empty i) h
