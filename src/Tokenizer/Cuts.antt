-- ===== src/Tokenizer/Cuts.antt =====
-- src/tokenizer.c: results of `kdl_pop_token` that agree, for the same input cut into reads in two ways.
pub mod PopToken
pub mod Create
use ckdl.Prelude.{
  ℕ, zero, suc, ◌+◌, ◌-◌, ◌≤◌, ◌<◌, ◌≡◌, ◌≢◌, refl, sym, ap, ◌∙◌, arith, Bool, true, false, not,
  ◌&&◌, ◌||◌, ◌==◌, if◌then◌else◌, List, [], ◌∷◌, ◌++◌, Bytes, length, length-append, All, subst,
}
use ckdl.Text.{take}
use ckdl.Grammar.{CharacterSet, is_illegal_char, is_whitespace, is_newline, is_word_char}
use ckdl.Tokenizer.{
  TokenType, start_type, end_type, word, string, single_line_comment, slashdash, multi_line_comment,
  equals, start_children, end_children, newline, semicolon, line_continuation, whitespace, Token,
  Tokenizer, drop, slice, flatten, whole, update_doc_ptr,
}
use ckdl.Tokenizer.Input.{CharStatus, got, at_eof, cut_off, invalid, tok_get_char}
use ckdl.Tokenizer.Stream.{NonEmpty, drop-append, length-drop}
use ckdl.Tokenizer.Scan.{
  Outcome, ended, failed, out_of_fuel, scan, fuel_for, whitespace_loop, word_loop,
  line_comment_loop, CommentState, block_comment_loop, hashes_loop, QuoteState, quotes_loop,
  BodyState, body_loop,
}
use ckdl.Tokenizer.Reads.{Alike, AlikeAt, Agree, AgreeChar, tok_get_char-AgreeChar, scan_same}
use ckdl.Tokenizer.Kept.{Holds, InString, scan-Holds, body_loop-Kept}
use ckdl.Tokenizer.Tokens.{
  PopResult, popped, end_of_file, error, stuck, emit, after, with_char, pop_word, pop_comment,
  pop_body, no_quotes, string_type, pop_quotes, pop_hashes, pop_string, pop_newline,
  pop_raw_or_word, dispatch, pop_token,
}

-- The same token or the same failure, with the same input left.
pub data Same : PopResult → PopResult → Type 0 where
  both_popped :
      {token token' : Token} {t t' : Tokenizer}
      → token ≡ token'
      → Alike t t'
      → Same (popped token t) (popped token' t')
  both_at_end : {t t' : Tokenizer} → Alike t t' → Same (end_of_file t) (end_of_file t')
  both_failed : {t t' : Tokenizer} → Alike t t' → Same (error t) (error t')

take-append : (n : ℕ) (s more : Bytes) → n ≤ length s → take n (s ++ more) ≡ take n s
take-append zero s more h = refl
take-append (suc n) [] more h = absurd (omega arith)
take-append (suc n) (b ∷ s) more h = ap (λ u. b ∷ u) (take-append n s more (omega arith))

slice_whole :
    (start stop : ℕ) (s more : Bytes)
    → start ≤ length s
    → stop ≤ length s
    → slice start stop (s ++ more) ≡ slice start stop s
slice_whole start stop s more h k =
    rw (drop-append start s more h)
      (take-append (stop - start) (drop start s) more (omega (arith, length-drop start s)))

-- `_update_doc_ptr` to an offset in both documents.
pub moved_on :
    (rest : ℕ) {t t' : Tokenizer}
    → AlikeAt rest t t'
    → Alike (update_doc_ptr t rest) (update_doc_ptr t' rest)
unfolding update_doc_ptr
moved_on rest {t} {t'} a = record {
  same_whole =
      sym (drop-append rest t.document (flatten t.reads) a.in_left)
      ∙ (ap (drop rest) a.alike.same_whole
          ∙ drop-append rest t'.document (flatten t'.reads) a.in_right);
  same_charset = a.alike.same_charset;
  reads_left = a.alike.reads_left;
  reads_right = a.alike.reads_right;
}

pub emit-Same :
    (type : TokenType) (start stop rest : ℕ) {t t' : Tokenizer}
    → start ≤ rest
    → stop ≤ rest
    → AlikeAt rest t t'
    → Same (emit type start stop rest t) (emit type start stop rest t')
unfolding update_doc_ptr
emit-Same type start stop rest {t} {t'} h k a =
    let same : slice start stop t.document ≡ slice start stop t'.document =
      sym (
        slice_whole start stop t.document (flatten t.reads) (omega (arith, a.in_left))
          (omega (arith, a.in_left)))
      ∙ (ap (slice start stop) a.alike.same_whole
          ∙ slice_whole start stop t'.document (flatten t'.reads) (omega (arith, a.in_right))
              (omega (arith, a.in_right))) in
    both_popped (ap (λ v. record { type = type; value = v }) same) (moved_on rest a)

pub at_start : {t t' : Tokenizer} → Alike t t' → AlikeAt 0 t t'
at_start a = record { alike = a; in_left = omega arith; in_right = omega arith }

pub earlier :
    (cur : ℕ) {next : ℕ} {t t' : Tokenizer} → cur ≤ next → AlikeAt next t t' → AlikeAt cur t t'
earlier cur h a = record {
  alike = a.alike;
  in_left = omega (arith, a.in_left);
  in_right = omega (arith, a.in_right);
}

pub if-Same :
    {b b' : Bool} {x y x' y' : PopResult}
    → b ≡ b'
    → Same x x'
    → Same y y'
    → Same (if b then x else y) (if b' then x' else y')
if-Same {b} {b'} {x} {y} {x'} {y'} e h k =
    subst (λ b'. Same (if b then x else y) (if b' then x' else y')) e (go b)
  where
    go : (b : Bool) → Same (if b then x else y) (if b then x' else y')
    go true = h
    go false = k

pub on_char-Same :
    (k : CharStatus × Tokenizer → PopResult) {cur : ℕ} {r r' : CharStatus × Tokenizer}
    → AgreeChar cur r r'
    → ((status : CharStatus) (t t' : Tokenizer)
        → AlikeAt cur t t'
        → ((c next : ℕ) → status ≡ got c next → (cur < next) × AlikeAt next t t')
        → Same (k (status, t)) (k (status, t')))
    → Same (k r) (k r')
on_char-Same k {cur} {r} {r'} a h =
    subst (λ s. Same (k r) (k (s, r'.1))) a.same_char (h r.0 r.1 r'.1 a.at_cur a.moved)

pub with_char-Same :
    (k : ℕ → ℕ → Tokenizer → PopResult) {cur : ℕ} {r r' : CharStatus × Tokenizer}
    → AgreeChar cur r r'
    → ((c next : ℕ) (t t' : Tokenizer)
        → cur < next
        → AlikeAt next t t'
        → Same (k c next t) (k c next t'))
    → Same (with_char r k) (with_char r' k)
with_char-Same k {cur} a h = on_char-Same (λ r. with_char r k) a go
  where
    go :
        (s : CharStatus) (t t' : Tokenizer)
        → AlikeAt cur t t'
        → ((c next : ℕ) → s ≡ got c next → (cur < next) × AlikeAt next t t')
        → Same (with_char (s, t) k) (with_char (s, t') k)
    go (got c next) t t' b m = h c next t t' (m c next refl).0 (m c next refl).1
    go at_eof t t' b m = both_failed b.alike
    go cut_off t t' b m = both_failed b.alike
    go invalid t t' b m = both_failed b.alike

module _ {S : Type 0} where
  -- A continuation may use what the loop kept.
  pub after_kept :
      (I : S → ℕ → Type 0) (k : S → ℕ → Tokenizer → PopResult) (o o' : Outcome S)
      → Agree o o'
      → Holds I o
      → ((s : S) (cur : ℕ) (t t' : Tokenizer)
          → I s cur
          → AlikeAt cur t t'
          → Same (k s cur t) (k s cur t'))
      → Same (after o k) (after o' k)
  after_kept I k (ended s cur t) (ended s' cur' t') (e, d, a) i h =
      subst (λ s'. Same (k s cur t) (k s' cur' t')) e
        (subst (λ cur'. Same (k s cur t) (k s cur' t')) d (h s cur t t' i a))
  after_kept I k (failed t) (failed t') a i h = both_failed a
  after_kept I k (ended s cur t) (failed t') a i h = elim a [ ]
  after_kept I k (ended s cur t) out_of_fuel a i h = elim a [ ]
  after_kept I k (failed t) (ended s' cur' t') a i h = elim a [ ]
  after_kept I k (failed t) out_of_fuel a i h = elim a [ ]
  after_kept I k out_of_fuel _ a i h = elim a [ ]

  any_outcome : (o : Outcome S) → Holds (λ s cur. Unit) o
  any_outcome (ended s cur t) = tt
  any_outcome (failed t) = tt
  any_outcome out_of_fuel = tt

  pub after-Same :
      (k : S → ℕ → Tokenizer → PopResult) (o o' : Outcome S)
      → Agree o o'
      → ((s : S) (cur : ℕ) (t t' : Tokenizer) → AlikeAt cur t t' → Same (k s cur t) (k s cur t'))
      → Same (after o k) (after o' k)
  after-Same k o o' a h =
      after_kept (λ s cur. Unit) k o o' a (any_outcome o) (λ s cur t t' i. h s cur t t')
