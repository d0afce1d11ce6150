-- ===== src/Parser/Balance/Loop.antt =====
-- src/parser.c: the events of a parser open and end nodes in balance.
use ckdl.Prelude.{
  ℕ, zero, suc, ◌≡◌, refl, subst, arith, Bool, true, false, not, ◌&&◌, ◌||◌, Option, none, some,
  if◌then◌else◌,
}
use ckdl.Number.{Floats}
use ckdl.Tokenizer.{
  Token, TokenType, start_type, word, string, multiline_string, raw_string_v1, raw_string_v2,
  raw_multiline_string, single_line_comment, slashdash, multi_line_comment, start_children,
  end_children, newline, semicolon, line_continuation, whitespace,
}
use ckdl.Tokenizer.Tokens.{PopResult, popped, end_of_file, error, stuck, pop_token}
use ckdl.Parser.{version_2, node_cannot_end_here, Parser, Reply, emitted, silent}
use ckdl.Parser.Words.{parse_value}
use ckdl.Parser.Versions.{parse_value-Versioned}
use ckdl.Parser.Node.{
  on_state, is_value_token, is_active, take_type, take_name, node_token, next_node,
}
use ckdl.Parser.InNode.{
  is_bare, is_equals, is_line_continuation, continue_line, after_line_cont, other_entry,
  take_argument, entry_token, in_node_token, node_event,
}
use ckdl.Parser.Next.{
  Fetched, token_read, event_ready, no_answer, at_end_of_file, fetched, fetch_from, fetch, answer,
  on_fetched, comment_event, seen_as, node_or_event, handle_as, handle, event_loop,
}
use ckdl.Parser.Balance.{
  At, Counted, set_version-At, open_type-Counted, close_type-Counted, end_child_block-Counted,
  Versioned-At, Versioned-state, end_of_node_token-Counted, open_children-Counted,
  take_equals-Counted, emit_waiting-Counted, pass_space-Counted, start_slashdash-Counted,
  comment_event-Counted, read_type-Counted, read_name-Counted, read_argument-Counted,
  blank_line-Counted,
}

module _ {D : Type 0} where
  if-Counted :
      (n : ℕ) (b : Bool) (x y : Reply D)
      → (b ≡ true → Counted n x)
      → (b ≡ false → Counted n y)
      → Counted n (if b then x else y)
  if-Counted n true x y h k = h refl
  if-Counted n false x y h k = k refl

module _ (F : Floats) where
  open F use {Double}

  take_type-Counted :
      (n : ℕ) (token : Token) (p : Parser Double) → At n p → Counted n (take_type F token p)
  unfolding take_type
  take_type-Counted n token p h =
      if-Counted n (is_value_token token.type) _ _
        (λ e.
          read_type-Counted F n (parse_value F token p).0 (parse_value F token p).1
            (Versioned-At n (parse_value-Versioned F token p) h))
        (λ e. h)

  -- What `_parse_value` leaves of the state.
  parse_value-state :
      (token : Token) (p : Parser Double) → (parse_value F token p).1.state ≡ p.state
  parse_value-state token p = Versioned-state (parse_value-Versioned F token p)

  take_name-Counted :
      (n : ℕ) (token : Token) (p : Parser Double)
      → At n p
      → p.state.in_node ≡ false
      → Counted n (take_name F token p)
  unfolding take_name
  take_name-Counted n token p h k =
      read_name-Counted F n (parse_value F token p).0 (parse_value F token p).1
        (Versioned-At n (parse_value-Versioned F token p) h) (rw (parse_value-state token p) k)

  node_token-Counted :
      (n : ℕ) (type : TokenType) (token : Token) (p : Parser Double)
      → At n p
      → p.state.in_node ≡ false
      → Counted n (node_token F type token p)
  unfolding node_token
  node_token-Counted n newline token p h k = blank_line-Counted F n p h
  node_token-Counted n semicolon token p h k = blank_line-Counted F n p h
  node_token-Counted n start_type token p h k = open_type-Counted n p h
  node_token-Counted n word token p h k = take_name-Counted n token p h k
  node_token-Counted n string token p h k = take_name-Counted n token p h k
  node_token-Counted n multiline_string token p h k = take_name-Counted n token p h k
  node_token-Counted n raw_string_v1 token p h k = take_name-Counted n token p h k
  node_token-Counted n raw_string_v2 token p h k = take_name-Counted n token p h k
  node_token-Counted n raw_multiline_string token p h k = take_name-Counted n token p h k
  node_token-Counted n end_children token p h k = end_child_block-Counted n p h k
  node_token-Counted n line_continuation token p h k =
      if-Counted n p.opt.read_version_2 _ _ (λ e. set_version-At n version_2 p h) (λ e. h)
  node_token-Counted n _ token p h k = h

  next_node-Counted :
      (n : ℕ) (token : Token) (p : Parser Double)
      → At n p
      → p.state.in_node ≡ false
      → Counted n (next_node F token p)
  unfolding next_node
  next_node-Counted n token p h k =
      if-Counted n p.state.type_annotation_start _ _ (λ e. take_type-Counted n token p h)
        λ e.
          if-Counted n p.state.type_annotation_end _ _ (λ e. close_type-Counted n token.type p h)
            λ e. node_token-Counted n token.type token p h k

  take_argument-Counted :
      (n : ℕ) (token : Token) (p : Parser Double)
      → At n p
      → p.state.in_node ≡ true
      → Counted n (take_argument F token p)
  unfolding take_argument
  take_argument-Counted n token p h k =
      if-Counted n p.state.whitespace_required _ _ (λ e. h)
        λ e.
          read_argument-Counted F n (is_bare token.type) (parse_value F token p).0
            (parse_value F token p).1 (Versioned-At n (parse_value-Versioned F token p) h)
            (rw (parse_value-state token p) k)

  other_entry-Counted :
      (n : ℕ) (type : TokenType) (p : Parser Double) → At n p → Counted n (other_entry type p)
  unfolding other_entry
  other_entry-Counted n start_type p h =
      if-Counted n p.state.whitespace_required _ _ (λ e. h) (λ e. open_type-Counted n p h)
  other_entry-Counted n _ p h = h

  entry_token-Counted :
      (n : ℕ) (token : Token) (p : Parser Double)
      → At n p
      → p.state.in_node ≡ true
      → Counted n (entry_token F token p)
  unfolding entry_token
  entry_token-Counted n token p h k =
      if-Counted n (p.state.end_of_node || p.state.end_of_node_or_child_block) _ _ (λ e. h)
        λ e.
          if-Counted n (is_value_token token.type) _ _ (λ e. take_argument-Counted n token p h k)
            λ e. other_entry-Counted n token.type p h

  in_node_token-Counted :
      (n : ℕ) (type : TokenType) (token : Token) (p : Parser Double)
      → At n p
      → p.state.in_node ≡ true
      → Counted n (in_node_token F type token p)
  unfolding in_node_token
  in_node_token-Counted n end_children token p h k =
      end_of_node_token-Counted n (record p { next_token = some token }) h k
  in_node_token-Counted n newline token p h k = end_of_node_token-Counted n p h k
  in_node_token-Counted n semicolon token p h k = end_of_node_token-Counted n p h k
  in_node_token-Counted n start_children token p h k =
      if-Counted n (p.state.end_of_node && not (is_active p.slashdash_depth)) _ _ (λ e. h)
        (λ e. open_children-Counted n p h k)
  in_node_token-Counted n _ token p h k =
      if-Counted n (p.state.end_of_node && not (is_active p.slashdash_depth)) _ _ (λ e. h)
        (λ e. entry_token-Counted n token p h k)

  node_event-Counted :
      (n : ℕ) (token : Token) (p : Parser Double)
      → At n p
      → p.state.in_node ≡ true
      → Counted n (node_event F token p)
  unfolding node_event
  node_event-Counted n token p h k =
      if-Counted n (is_line_continuation token.type) _ _
        (λ e. pass_space-Counted n _ continue_line p (λ p' _ h'. h') h)
        λ e.
          if-Counted n p.state.maybe_in_property _ _
            (λ e.
              if-Counted n (is_equals token.type) _ _ (λ e. take_equals-Counted n p h)
                (λ e. emit_waiting-Counted n token p h k))
            λ e.
              if-Counted n p.state.type_annotation_start _ _ (λ e. take_type-Counted n token p h)
                λ e.
                  if-Counted n p.state.type_annotation_end _ _
                    (λ e. close_type-Counted n token.type p h)
                    λ e. in_node_token-Counted n token.type token p h k

  after_line_cont-Counted :
      (n : ℕ) (type : TokenType) (token : Token) (p : Parser Double)
      → At n p
      → p.state.in_node ≡ true
      → Counted n (after_line_cont F type token p)
  unfolding after_line_cont
  after_line_cont-Counted n single_line_comment token p h k = node_event-Counted n token p h k
  after_line_cont-Counted n newline token p h k = h
  after_line_cont-Counted n _ token p h k = h

  node_or_event-Counted :
      (n : ℕ) (token : Token) (p : Parser Double) → At n p → Counted n (node_or_event F token p)
  unfolding node_or_event
  node_or_event-Counted n token p h =
      let p' = on_state (λ s. record s { newlines_are_whitespace = false }) p in
      if-Counted n p.state.in_node _ _
        (λ k.
          if-Counted n p.state.line_cont _ _
            (λ e. after_line_cont-Counted n token.type token p' h k)
            (λ e. node_event-Counted n token p' h k))
        (λ k. next_node-Counted n token p' h k)

  handle_as-Counted :
      (n : ℕ) (type : TokenType) (token : Token) (p : Parser Double)
      → At n p
      → Counted n (handle_as F type token p)
  unfolding handle_as
  handle_as-Counted n whitespace token p h = pass_space-Counted n _ silent p (λ p' _ h'. h') h
  handle_as-Counted n multi_line_comment token p h =
      pass_space-Counted n _ (comment_event token) p
        (λ p' _ h'. comment_event-Counted n token p' h') h
  handle_as-Counted n single_line_comment token p h =
      pass_space-Counted n _ (comment_event token) p
        (λ p' _ h'. comment_event-Counted n token p' h') h
  handle_as-Counted n slashdash token p h =
      if-Counted n p.state.whitespace_required _ _ (λ e. h)
        λ e.
          if-Counted n p.state.maybe_in_property _ _ (λ e. node_or_event-Counted n token p h)
            λ e.
              if-Counted n (node_cannot_end_here p.state) _ _ (λ e. h)
                (λ e. start_slashdash-Counted n p h)
  handle_as-Counted n _ token p h = node_or_event-Counted n token p h

  handle-Counted :
      (n : ℕ) (token : Token) (p : Parser Double) → At n p → Counted n (handle F token p)
  unfolding handle handle_as
  handle-Counted n token p h = handle_as-Counted n (seen_as p.state token.type) token p h

  abbrev FetchCounted : ℕ → Fetched Double → Type 0
  FetchCounted n (token_read token p) = At n p
  FetchCounted n (event_ready p) = Counted n (emitted p)
  FetchCounted n no_answer = Unit

  at_end_of_file-Counted : (n : ℕ) (p : Parser Double) → At n p → FetchCounted n (at_end_of_file p)
  unfolding at_end_of_file
  at_end_of_file-Counted n p h = ground arith

  fetched-Counted :
      (n : ℕ) (r : PopResult) (p : Parser Double) → At n p → FetchCounted n (fetched r p)
  unfolding fetched
  fetched-Counted n (popped token t) p h = h
  fetched-Counted n (end_of_file t) p h = at_end_of_file-Counted n (record p { tokenizer = t }) h
  fetched-Counted n (error t) p h = h
  fetched-Counted n stuck p h = tt

  fetch-Counted :
      (n : ℕ) (o : Option Token) (p : Parser Double) → At n p → FetchCounted n (fetch_from o p)
  unfolding fetch_from
  fetch-Counted n (some token) p h = h
  fetch-Counted n none p h = fetched-Counted n (pop_token p.tokenizer) p h

  -- What a round keeps, the loop keeps.
  answer-Counted :
      (n : ℕ) (again : Parser Double → Option (Parser Double)) (r : Reply Double)
      (q : Parser Double)
      → ((p : Parser Double) → At n p → again p ≡ some q → Counted n (emitted q))
      → Counted n r
      → answer F again r ≡ some q
      → Counted n (emitted q)
  answer-Counted n again (emitted p) q keep h e =
      let same : p ≡ q = cc in subst (λ q. Counted n (emitted q)) same h
  answer-Counted n again (silent p) q keep h e = keep p h e

  on_fetched-Counted :
      (n : ℕ) (again : Parser Double → Option (Parser Double)) (r : Fetched Double)
      (q : Parser Double)
      → ((p : Parser Double) → At n p → again p ≡ some q → Counted n (emitted q))
      → FetchCounted n r
      → on_fetched F again r ≡ some q
      → Counted n (emitted q)
  on_fetched-Counted n again (token_read token p) q keep h e =
      answer-Counted n again (handle F token p) q keep (handle-Counted n token p h) e
  on_fetched-Counted n again (event_ready p) q keep h e =
      let same : p ≡ q = cc in subst (λ q. Counted n (emitted q)) same h
  on_fetched-Counted n again no_answer q keep h e = absurd (ground arith)

  pub event_loop-Counted :
      (n fuel : ℕ) (p q : Parser Double)
      → At n p
      → event_loop F fuel p ≡ some q
      → Counted n (emitted q)
  unfolding event_loop
  event_loop-Counted n zero p q h e = absurd (ground arith)
  event_loop-Counted n (suc fuel) p q h e =
      on_fetched-Counted n (event_loop F fuel) (fetch p) q
        (λ p' h' e'. event_loop-Counted n fuel p' q h' e') (fetch-Counted n p.next_token p h) e
