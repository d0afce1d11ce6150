-- ===== src/Parser/Ending/Calls.antt =====
-- src/parser.c: every call of `kdl_parser_next_event` returns an event.
use ckdl.Prelude.{
  ℕ, zero, suc, ◌+◌, ◌*◌, ◌<◌, ◌≤◌, ◌≡◌, refl, sym, ap, ◌∙◌, subst, arith, Bool, true, false,
  Option, none, some, List, [], ◌++◌, Bytes, length, All, if◌then◌else◌, ltb,
}
use ckdl.Number.{Floats}
use ckdl.Tokenizer.{Token, flatten, whole}
use ckdl.Tokenizer.Stream.{NonEmpty}
use ckdl.Tokenizer.Tokens.{PopResult, popped, end_of_file, error, stuck, pop_token}
use ckdl.Tokenizer.Progress.PopToken.{Answers, pop_token-Answers}
use ckdl.Parser.{Event, Parser, Reply, emitted, silent, is_not_plain, set_parse_error, reset_event}
use ckdl.Parser.Node.{on_state}
use ckdl.Parser.Next.{
  Fetched, is_dangling, at_end_of_file, fetched, fetch_from, fetch, handle, answer, on_fetched,
  event_loop, next_event,
}
use ckdl.Parser.Ending.{rank, token_weight, weight, After, Lowers, After-map, rank_bound}
use ckdl.Parser.Ending.Rounds.{handle-Lowers}
use ckdl.Parser.Ending.Newline.{newline_token, newline_in_node-Lowers, waited-Lowers}

-- A byte of the input counts more than any state and any token that waits.
abbrev pub measure : {D : Type 0} → Parser D → ℕ
measure p = 16 * length (whole p.tokenizer) + weight p

module _ (F : Floats) where
  open F use {Double}

  -- What a call leaves, where the event is not the end of the document or an error.
  abbrev pub Onward : ℕ → Parser Double → Type 0
  Onward m r = After r.event.kind (All NonEmpty r.tokenizer.reads × (measure r < m))

  -- The result of a call.
  abbrev Returns : ℕ → Option (Parser Double) → Type 0
  Returns m o = (r : Parser Double) × (o ≡ some r) × Onward m r

  -- The next round returns, if it has less to do than the fuel allows.
  abbrev Again : ℕ → (Parser Double → Option (Parser Double)) → Type 0
  Again n again =
      (p : Parser Double)
      → All NonEmpty p.tokenizer.reads
      → measure p < n
      → Returns (measure p) (again p)

  Returns-more : (m k : ℕ) (o : Option (Parser Double)) → m ≤ k → Returns m o → Returns k o
  Returns-more m k o h x =
      let r = x.0 in (r, x.1, After-map r.event.kind (λ y. (y.0, (let b = y.1 in omega arith))) x.2)

  whole-same :
      (d : Bytes) (rs : List Bytes) (p : Parser Double)
      → p.tokenizer.document ≡ d
      → p.tokenizer.reads ≡ rs
      → length (whole p.tokenizer) ≡ length (d ++ flatten rs)
  whole-same d rs p h k =
      ap length (ap (λ x. x ++ flatten p.tokenizer.reads) h ∙ ap (λ x. d ++ flatten x) k)

  answer-Returns :
      (n m k : ℕ) (again : Parser Double → Option (Parser Double)) (d : Bytes) (rs : List Bytes)
      (r : Reply Double)
      → Again n again
      → Lowers d rs m r
      → All NonEmpty rs
      → 16 * length (d ++ flatten rs) + m ≤ k
      → k ≤ n
      → Returns k (answer F again r)
  answer-Returns n m k again d rs (emitted p) j l h b c = (
    p,
    refl,
    After-map p.event.kind
        (λ x.
          let e = whole-same d rs p x.0 x.1 in
          let low = x.2 in (subst (All NonEmpty) (sym x.1) h, omega arith))
        l,
  )
  answer-Returns n m k again d rs (silent p) j l h b c =
      let e = whole-same d rs p l.0 l.1 in
      let low = l.2 in
      Returns-more (measure p) k (again p) (omega arith)
        (j p (subst (All NonEmpty) (sym l.1) h) (omega arith))

  if-Returns :
      (m : ℕ) (again : Parser Double → Option (Parser Double)) (b : Bool) (x y : Fetched Double)
      → (b ≡ true → Returns m (on_fetched F again x))
      → (b ≡ false → Returns m (on_fetched F again y))
      → Returns m (on_fetched F again (if b then x else y))
  if-Returns m again true x y h k = h refl
  if-Returns m again false x y h k = k refl

  fetched-Returns :
      (n k : ℕ) (again : Parser Double → Option (Parser Double)) (p : Parser Double) (r : PopResult)
      → Again n again
      → p.next_token ≡ none
      → Answers p.tokenizer r
      → 16 * length (whole p.tokenizer) + rank p.state ≤ k
      → k ≤ n
      → Returns k (on_fetched F again (fetched r p))
  unfolding fetched at_end_of_file set_parse_error reset_event
  fetched-Returns n k again p (popped token t) j e a b c =
      let q = record p { tokenizer = t } in
      let bound = rank_bound p.state in
      let shorter = a.0 in
      answer-Returns n (8 + rank p.state) k again t.document t.reads (handle F token q) j
        (handle-Lowers F t.document t.reads (8 + rank p.state) (omega arith) token q (refl, refl, e)
          (omega arith))
        a.1 (omega arith) c
  fetched-Returns n k again p (end_of_file t) j e a b c =
      let q =
        on_state (λ s. record s { newlines_are_whitespace = false }) (record p { tokenizer = t }) in
      let shorter = a.0 in
      if-Returns k again p.state.in_node _ _
        (λ i.
          answer-Returns n (rank p.state) k again t.document t.reads (handle F (newline_token []) q)
            j (newline_in_node-Lowers F t.document t.reads [] q (refl, refl, e) i refl) a.1
            (omega arith) c)
        λ _.
          if-Returns k again (ltb 0 p.depth) _ _ (λ _. (_, refl, tt))
            λ _.
              if-Returns k again (is_dangling p.slashdash_depth) _ _ (λ _. (_, refl, tt))
                λ _.
                  if-Returns k again (is_not_plain p.state) _ _ (λ _. (_, refl, tt))
                    (λ _. (_, refl, tt))
  fetched-Returns n k again p (error t) j e a b c = (_, refl, tt)
  fetched-Returns n k again p stuck j e a b c = elim a [ ]

  fetch_from-Returns :
      (n : ℕ) (again : Parser Double → Option (Parser Double)) (p : Parser Double)
      (next : Option Token)
      → Again n again
      → p.next_token ≡ next
      → All NonEmpty p.tokenizer.reads
      → measure p ≤ n
      → Returns (measure p) (on_fetched F again (fetch_from next p))
  unfolding fetch_from
  fetch_from-Returns n again p none j e h b =
      fetched-Returns n (measure p) again p (pop_token p.tokenizer) j e
        (pop_token-Answers p.tokenizer h) (omega arith) b
  fetch_from-Returns n again p (some token) j e h b =
      let q = record p { next_token = none } in
      answer-Returns n (token_weight token.type + rank p.state) (measure p) again
        p.tokenizer.document p.tokenizer.reads (handle F token q) j
        (waited-Lowers F p.tokenizer.document p.tokenizer.reads token.type token.value q
          (refl, refl, refl))
        h (rw e (omega arith)) b

  -- A call on a parser whose reads are not empty returns an event, where the fuel is greater than the
  -- measure; and unless this is the end of the document or an error, the measure is lower then.
  pub event_loop-Onward :
      (fuel : ℕ) (p : Parser Double)
      → All NonEmpty p.tokenizer.reads
      → measure p < fuel
      → (r : Parser Double) × (event_loop F fuel p ≡ some r) × Onward (measure p) r
  unfolding event_loop fetch
  event_loop-Onward zero p h b = absurd (omega arith)
  event_loop-Onward (suc fuel) p h b =
      fetch_from-Returns fuel (event_loop F fuel) p p.next_token (event_loop-Onward fuel) refl h
        (omega arith)

  -- A call of `kdl_parser_next_event` on a parser whose reads are not empty returns an event, where the
  -- fuel is greater than the measure, which is 16 for each byte still to come and what the state and a
  -- token that waits add; and unless this is the end of the document or an error, the measure is lower
  -- then, and the reads are still not empty.
  pub next_event-Onward :
      (fuel : ℕ) (p : Parser Double)
      → All NonEmpty p.tokenizer.reads
      → measure p < fuel
      → (r : Event Double × Parser Double) × (next_event F fuel p ≡ some r)
        × After r.0.kind (All NonEmpty r.1.tokenizer.reads × (measure r.1 < measure p))
  unfolding next_event reset_event
  next_event-Onward fuel p h b =
      let x = event_loop-Onward fuel (reset_event p) h b in
      ((x.0.event, x.0), ap (λ o. elim o [ none ↦ none | some q ↦ some (q.event, q) ]) x.1, x.2)
