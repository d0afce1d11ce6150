-- ===== src/Tokenizer/Reads.antt =====
-- src/tokenizer.c: the loops over characters end, and the cut of the input into reads makes no difference.
use ckdl.Prelude.{
  ℕ, zero, suc, ◌+◌, ◌≤◌, ◌<◌, ◌≡◌, refl, sym, ap, ◌∙◌, arith, length, length-append, All, subst,
}
use ckdl.Grammar.{CharacterSet}
use ckdl.Utf8.{pop_codepoint}
use ckdl.Tokenizer.{Tokenizer, drop, flatten, whole}
use ckdl.Tokenizer.Input.{CharStatus, got, at_eof, cut_off, invalid, settle, tok_get_char}
use ckdl.Tokenizer.Stream.{NonEmpty, tok_get_char-Faithful}
use ckdl.Tokenizer.Scan.{
  Step, go, stop, accept, fail, Loop, Outcome, ended, failed, settle_end, advance, respond, scan,
  fuel_for,
}

-- Two tokenizers with the same input ahead of them, cut in two ways.
pub record Alike (t t' : Tokenizer) : Type 0 where
  pub same_whole : whole t ≡ whole t'
  pub same_charset : t.charset ≡ t'.charset
  pub reads_left : All NonEmpty t.reads
  pub reads_right : All NonEmpty t'.reads

-- Two tokenizers whose documents both reach the offset.
pub record AlikeAt (cur : ℕ) (t t' : Tokenizer) : Type 0 where
  pub alike : Alike t t'
  pub in_left : cur ≤ length t.document
  pub in_right : cur ≤ length t'.document

-- Both loops ended, in the same way, with the same variables.
abbrev pub Agree : {S : Type 0} → Outcome S → Outcome S → Type 0
Agree (ended s cur t) (ended s' cur' t') = (s ≡ s') × (cur ≡ cur') × AlikeAt cur t t'
Agree (failed t) (failed t') = Alike t t'
Agree _ _ = ⊥

-- One character from either.
pub record AgreeChar (cur : ℕ) (r r' : CharStatus × Tokenizer) : Type 0 where
  pub same_char : r.0 ≡ r'.0
  pub at_cur : AlikeAt cur r.1 r'.1
  pub moved : (c next : ℕ) → r.0 ≡ got c next → (cur < next) × AlikeAt next r.1 r'.1

pub tok_get_char-AgreeChar :
    (t t' : Tokenizer) (cur : ℕ)
    → AlikeAt cur t t'
    → AgreeChar cur (tok_get_char t cur) (tok_get_char t' cur)
tok_get_char-AgreeChar t t' cur a =
    let f = tok_get_char-Faithful t cur a.in_left a.alike.reads_left in
    let f' = tok_get_char-Faithful t' cur a.in_right a.alike.reads_right in
    let alike : Alike (tok_get_char t cur).1 (tok_get_char t' cur).1 = record {
      same_whole = f.same_input ∙ (a.alike.same_whole ∙ sym f'.same_input);
      same_charset = f.same_set ∙ (a.alike.same_charset ∙ sym f'.same_set);
      reads_left = f.non_empty;
      reads_right = f'.non_empty;
    } in
    let same : (tok_get_char t cur).0 ≡ (tok_get_char t' cur).0 =
      f.same_char
      ∙ (ap (λ w. settle (length w) (pop_codepoint (drop cur w))) a.alike.same_whole
          ∙ sym f'.same_char) in
    record {
      same_char = same;
      at_cur = record {
        alike = alike;
        in_left = omega (arith, f.grown, a.in_left);
        in_right = omega (arith, f'.grown, a.in_right);
      };
      moved = λ c next e. (
        (f.read_so_far c next e).0,
        record {
          alike = alike;
          in_left = (f.read_so_far c next e).1;
          in_right = (f'.read_so_far c next (sym same ∙ e)).1;
        },
      );
    }

module _ {S : Type 0} where
  settle_end-Agree :
      (step : Step S) (cur : ℕ) {t t' : Tokenizer}
      → AlikeAt cur t t'
      → Agree (settle_end step cur t) (settle_end step cur t')
  unfolding settle_end
  settle_end-Agree (go s) cur a = (refl, refl, a)
  settle_end-Agree (stop s) cur a = (refl, refl, a)
  settle_end-Agree (accept s) cur a = (refl, refl, a)
  settle_end-Agree fail cur a = a.alike

  advance-Agree :
      (again again' : Tokenizer → ℕ → S → Outcome S) (step : Step S) (cur next : ℕ)
      {t t' : Tokenizer}
      → AlikeAt cur t t'
      → AlikeAt next t t'
      → ((s : S) → Agree (again t next s) (again' t' next s))
      → Agree (advance again step cur next t) (advance again' step cur next t')
  unfolding advance
  advance-Agree again again' (go s) cur next a b k = k s
  advance-Agree again again' (stop s) cur next a b k = (refl, refl, a)
  advance-Agree again again' (accept s) cur next a b k = (refl, refl, b)
  advance-Agree again again' fail cur next a b k = a.alike

  respond-Agree :
      (loop : Loop S) (again again' : Tokenizer → ℕ → S → Outcome S) (status : CharStatus) (cur : ℕ)
      (s : S) {t t' : Tokenizer}
      → AlikeAt cur t t'
      → ((c next : ℕ)
          → status ≡ got c next
          → AlikeAt next t t' × ((s : S) → Agree (again t next s) (again' t' next s)))
      → Agree (respond loop again status cur s t) (respond loop again' status cur s t')
  unfolding respond
  respond-Agree loop again again' (got c next) cur s a k =
      advance-Agree again again' (loop.round s cur c) cur next a (k c next refl).0 (k c next refl).1
  respond-Agree loop again again' at_eof cur s a k = settle_end-Agree (loop.on_eof s) cur a
  respond-Agree loop again again' cut_off cur s a k = settle_end-Agree (loop.on_error s) cur a
  respond-Agree loop again again' invalid cur s a k = settle_end-Agree (loop.on_error s) cur a

  -- Every loop of the tokenizer ends within its fuel, and two tokenizers over the same input, however
  -- it is cut into reads, end it in the same way: with the same variables at the same offset, or both
  -- with an error. The reads but the last are not empty, and the offset lies in both documents.
  pub scan-Agree :
      (fuel : ℕ) (loop : Loop S) (t t' : Tokenizer) (cur : ℕ) (s : S)
      → AlikeAt cur t t'
      → length (whole t) < cur + fuel
      → Agree (scan fuel loop t cur s) (scan fuel loop t' cur s)
  unfolding scan
  scan-Agree zero loop t t' cur s a h =
      absurd (omega (arith, a.in_left, length-append t.document (flatten t.reads)))
  scan-Agree (suc fuel) loop t t' cur s a h =
      let r = tok_get_char-AgreeChar t t' cur a in
      let f = tok_get_char-Faithful t cur a.in_left a.alike.reads_left in
      let enough : (c next : ℕ)
          → (tok_get_char t cur).0 ≡ got c next
          → length (whole (tok_get_char t cur).1) < next + fuel =
        λ c next e. rw f.same_input (omega (arith, (r.moved c next e).0)) in
      let both =
        respond-Agree loop (scan fuel loop) (scan fuel loop) (tok_get_char t cur).0 cur s r.at_cur
          λ c next e. (
            (r.moved c next e).1,
            λ s'.
                scan-Agree fuel loop (tok_get_char t cur).1 (tok_get_char t' cur).1 next s'
                  ((r.moved c next e).1) (enough c next e),
          ) in
      rw (sym r.same_char) both

  -- The same with the fuel that the tokenizer's operations give, for a loop over their character set.
  pub scan_same :
      (loop : CharacterSet → Loop S) {t t' : Tokenizer} {cur : ℕ} (s : S)
      → AlikeAt cur t t'
      → Agree
          (scan (fuel_for t) (loop t.charset) t cur s)
          (scan (fuel_for t') (loop t'.charset) t' cur s)
  scan_same loop {t} {t'} {cur} s a =
      let left = scan (fuel_for t) (loop t.charset) t cur s in
      let one : Agree left (scan (fuel_for t) (loop t.charset) t' cur s) =
        scan-Agree (fuel_for t) (loop t.charset) t t' cur s a (omega arith) in
      subst (λ cs. Agree left (scan (fuel_for t') (loop cs) t' cur s)) a.alike.same_charset
        (subst (λ w. Agree left (scan (suc (length w)) (loop t.charset) t' cur s))
          a.alike.same_whole one)
