-- ===== src/Tokenizer/Kept.antt =====
-- src/tokenizer.c: what each round of a loop keeps holds where the loop ends; the offsets of a string.
use ckdl.Prelude.{ℕ, zero, suc, ◌≤◌, ◌<◌, ◌≡◌, refl, arith, Bool, length, All}
use ckdl.Grammar.{CharacterSet}
use ckdl.Tokenizer.{Tokenizer}
use ckdl.Tokenizer.Input.{CharStatus, got, at_eof, cut_off, invalid, tok_get_char}
use ckdl.Tokenizer.Stream.{NonEmpty, tok_get_char-Faithful}
use ckdl.Tokenizer.Scan.{
  Step, go, stop, accept, fail, Loop, Outcome, ended, failed, out_of_fuel, settle_end, advance,
  respond, scan, BodyState, body_count, body_round, body_loop,
}

module _ {S : Type 0} where
  -- What the loop ended with, if it did.
  abbrev pub Holds : (S → ℕ → Type 0) → Outcome S → Type 0
  Holds I (ended s cur t) = I s cur
  Holds I (failed t) = Unit
  Holds I out_of_fuel = Unit

  -- What a step keeps, for a character from `cur` to `next`: `I` to go on, and `J` to end.
  abbrev pub Keeps : (S → ℕ → Type 0) → (S → ℕ → Type 0) → ℕ → ℕ → Step S → Type 0
  Keeps I J cur next (go s) = I s next
  Keeps I J cur next (stop s) = J s cur
  Keeps I J cur next (accept s) = J s next
  Keeps I J cur next fail = Unit

  -- A loop that keeps a predicate of the variables and the offset, and ends with another one.
  pub record Kept (I J : S → ℕ → Type 0) (loop : Loop S) : Type 0 where
    pub each_round :
        (s : S) (cur c next : ℕ) → cur < next → I s cur → Keeps I J cur next (loop.round s cur c)
    pub at_eof_too : (s : S) (cur : ℕ) → I s cur → Keeps J J cur cur (loop.on_eof s)
    pub on_error_too : (s : S) (cur : ℕ) → I s cur → Keeps J J cur cur (loop.on_error s)

  settle_end-Holds :
      (J : S → ℕ → Type 0) (step : Step S) (cur : ℕ) (t : Tokenizer)
      → Keeps J J cur cur step
      → Holds J (settle_end step cur t)
  unfolding settle_end
  settle_end-Holds J (go s) cur t k = k
  settle_end-Holds J (stop s) cur t k = k
  settle_end-Holds J (accept s) cur t k = k
  settle_end-Holds J fail cur t k = tt

  advance-Holds :
      (I J : S → ℕ → Type 0) (again : Tokenizer → ℕ → S → Outcome S) (step : Step S) (cur next : ℕ)
      (t : Tokenizer)
      → Keeps I J cur next step
      → ((s : S) → I s next → Holds J (again t next s))
      → Holds J (advance again step cur next t)
  unfolding advance
  advance-Holds I J again (go s) cur next t h k = k s h
  advance-Holds I J again (stop s) cur next t h k = h
  advance-Holds I J again (accept s) cur next t h k = h
  advance-Holds I J again fail cur next t h k = tt

  respond-Holds :
      (I J : S → ℕ → Type 0) (loop : Loop S) (again : Tokenizer → ℕ → S → Outcome S)
      (status : CharStatus) (cur : ℕ) (s : S) (t : Tokenizer)
      → Kept I J loop
      → I s cur
      → ((c next : ℕ)
          → status ≡ got c next
          → (cur < next) × ((s : S) → I s next → Holds J (again t next s)))
      → Holds J (respond loop again status cur s t)
  unfolding respond
  respond-Holds I J loop again (got c next) cur s t kept h k =
      advance-Holds I J again (loop.round s cur c) cur next t
        (kept.each_round s cur c next (k c next refl).0 h) (k c next refl).1
  respond-Holds I J loop again at_eof cur s t kept h k =
      settle_end-Holds J (loop.on_eof s) cur t (kept.at_eof_too s cur h)
  respond-Holds I J loop again cut_off cur s t kept h k =
      settle_end-Holds J (loop.on_error s) cur t (kept.on_error_too s cur h)
  respond-Holds I J loop again invalid cur s t kept h k =
      settle_end-Holds J (loop.on_error s) cur t (kept.on_error_too s cur h)

  pub scan-Holds :
      (I J : S → ℕ → Type 0) (fuel : ℕ) (loop : Loop S) (t : Tokenizer) (cur : ℕ) (s : S)
      → Kept I J loop
      → cur ≤ length t.document
      → All NonEmpty t.reads
      → I s cur
      → Holds J (scan fuel loop t cur s)
  unfolding scan
  scan-Holds I J zero loop t cur s kept h n i = tt
  scan-Holds I J (suc fuel) loop t cur s kept h n i =
      let f = tok_get_char-Faithful t cur h n in
      respond-Holds I J loop (scan fuel loop) (tok_get_char t cur).0 cur s (tok_get_char t cur).1
        kept i
        λ c next e. (
          (f.read_so_far c next e).0,
          λ s' i'.
              scan-Holds I J fuel loop (tok_get_char t cur).1 next s' kept
                (f.read_so_far c next e).1 f.non_empty i',
        )

-- The end of the string lies between its start and the offset, or is not found yet.
abbrev pub InString : ℕ → BodyState → ℕ → Type 0
InString start s cur = (start ≤ cur) × (s.end_quote_offset ≤ cur)

body_count-InString :
    (is_raw : Bool) (start quotes : ℕ) (s : BodyState) (cur c next : ℕ)
    → cur < next
    → InString start s cur
    → InString start (body_count is_raw quotes s cur c) next
unfolding body_count
body_count-InString is_raw start quotes s cur c next h i = ground arith

pub body_loop-Kept :
    (cs : CharacterSet) (is_raw : Bool) (hashes quotes start : ℕ)
    → Kept (InString start) (InString start) (body_loop cs is_raw hashes quotes)
unfolding body_round
body_loop-Kept cs is_raw hashes quotes start = record {
  each_round = λ s cur c next h i.
      (let k = body_count-InString is_raw start quotes s cur c next h i in ground arith);
  at_eof_too = λ s cur i. tt;
  on_error_too = λ s cur i. tt;
}
