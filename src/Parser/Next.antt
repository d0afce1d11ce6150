-- ===== src/Parser/Next.antt =====
-- src/parser.c: `kdl_parser_next_event`.
use ckdl.Prelude.{
  ℕ, zero, suc, Bool, true, false, Option, none, some, [], ltb, if◌then◌else◌, codes,
}
use ckdl.Number.{Floats}
use ckdl.Tokenizer.{
  TokenType, single_line_comment, multi_line_comment, slashdash, newline, whitespace, Token,
}
use ckdl.Tokenizer.Tokens.{PopResult, popped, end_of_file, error, stuck, pop_token}
use ckdl.Parser.{
  State, node_cannot_end_here, is_not_plain, eof, Event, Parser, Reply, emitted, silent,
  reset_event, set_parse_error, set_comment_event,
}
use ckdl.Parser.Node.{on_state, next_node}
use ckdl.Parser.InNode.{pass_space, next_event_in_node}

-- "get the next token": a token; an event instead; or neither, where the model of the tokenizer is
-- stuck, which it never is.
pub data Fetched (D : Type 0) : Type 0 where
  token_read : Token → Parser D → Fetched D
  event_ready : Parser D → Fetched D
  no_answer : Fetched D

-- `self->slashdash_depth > 0`
abbrev pub is_dangling : Option ℕ → Bool
is_dangling none = false
is_dangling (some d) = ltb 0 d

-- A newline that counts as whitespace.
abbrev pub seen_as : State → TokenType → TokenType
seen_as s newline = if s.newlines_are_whitespace then whitespace else newline
seen_as s type = type

module _ {D : Type 0} where
  abbrev pub fail_fetch : Reply D → Fetched D
  fail_fetch (emitted p) = event_ready p
  fail_fetch (silent p) = event_ready p

  -- `case KDL_TOKENIZER_EOF`
  unfoldable pub at_end_of_file : Parser D → Fetched D
  unfolding set_parse_error reset_event
  at_end_of_file p =
      if p.state.in_node
      then token_read (record { type = newline; value = [] })
          (on_state (λ s. record s { newlines_are_whitespace = false }) p)
      else if ltb 0 p.depth
      then fail_fetch
          (set_parse_error (codes "Unexpected end of data (unclosed lists of children)") p)
      else if is_dangling p.slashdash_depth
      then fail_fetch (set_parse_error (codes "Dangling slashdash (/-)") p)
      else if is_not_plain p.state
      then fail_fetch (set_parse_error (codes "Unexpected end of data") p)
      else (let p' = reset_event p in
          event_ready (record p' { event = record p'.event { kind = eof; commented = false } }))

  -- The switch over what `kdl_pop_token` returned.
  unfoldable pub fetched : PopResult → Parser D → Fetched D
  unfolding at_end_of_file set_parse_error
  fetched (popped token t) p = token_read token (record p { tokenizer = t })
  fetched (end_of_file t) p = at_end_of_file (record p { tokenizer = t })
  fetched (error t) p =
      fail_fetch (set_parse_error (codes "Parse error") (record p { tokenizer = t }))
  fetched stuck p = no_answer

  unfoldable pub fetch_from : Option Token → Parser D → Fetched D
  unfolding fetched
  fetch_from none p = fetched (pop_token p.tokenizer) p
  fetch_from (some token) p = token_read token (record p { next_token = none })

  unfoldable pub fetch : Parser D → Fetched D
  unfolding fetch_from
  fetch p = fetch_from p.next_token p

  -- "Comments may or may not be emitted".
  abbrev pub comment_event : Token → Parser D → Reply D
  comment_event token p = if p.opt.emit_comments then set_comment_event token p else silent p

  -- "slashdash comments out the next node or argument or property".
  unfoldable pub start_slashdash : Parser D → Reply D
  start_slashdash p = silent (record p {
    slashdash_depth = elim (p.slashdash_depth) [ none ↦ some (suc p.depth) | some d ↦ some d ];
    state = record p.state { newlines_are_whitespace = true };
  })

module _ (F : Floats) where
  open F use {Double}

  -- The `default` case of the switch.
  unfoldable pub node_or_event : Token → Parser Double → Reply Double
  unfolding next_node next_event_in_node
  node_or_event token p =
      let p' = on_state (λ s. record s { newlines_are_whitespace = false }) p in
      if p'.state.in_node then next_event_in_node F token p' else next_node F token p'

  -- The switch over the type of the token.
  unfoldable pub handle_as : TokenType → Token → Parser Double → Reply Double
  unfolding pass_space start_slashdash node_or_event set_parse_error set_comment_event
  handle_as whitespace token p = pass_space (codes "Whitespace not allowed here") silent p
  handle_as multi_line_comment token p =
      pass_space (codes "Comment not allowed here") (comment_event token) p
  handle_as single_line_comment token p =
      pass_space (codes "Comment not allowed here") (comment_event token) p
  handle_as slashdash token p =
      if p.state.whitespace_required
      then set_parse_error (codes "Whitespace required before /-") p
      else if p.state.maybe_in_property
      then node_or_event token p
      else if node_cannot_end_here p.state
      then set_parse_error (codes "/- not allowed here") p
      else start_slashdash p
  handle_as _ token p = node_or_event token p

  unfoldable pub handle : Token → Parser Double → Reply Double
  unfolding handle_as
  handle token p = handle_as (seen_as p.state token.type) token p

  -- What follows a reply, and what follows a token; `again` is the next round.
  abbrev pub answer :
      (Parser Double → Option (Parser Double)) → Reply Double → Option (Parser Double)
  answer again (emitted p) = some p
  answer again (silent p) = again p

  abbrev pub on_fetched :
      (Parser Double → Option (Parser Double)) → Fetched Double → Option (Parser Double)
  on_fetched again (event_ready p) = some p
  on_fetched again no_answer = none
  on_fetched again (token_read token p) = answer again (handle token p)

  -- The loop; `none` is no answer of the source, and does not happen with enough fuel.
  unfoldable pub event_loop : ℕ → Parser Double → Option (Parser Double)
  unfolding fetch handle
  event_loop zero p = none
  event_loop (suc fuel) p = on_fetched (event_loop fuel) (fetch p)

  -- `kdl_parser_next_event`: the event that it answers, and the parser that it leaves.
  unfoldable pub next_event : ℕ → Parser Double → Option (Event Double × Parser Double)
  unfolding event_loop reset_event
  next_event fuel p = elim (event_loop fuel (reset_event p)) [
    | none ↦ none
    | some q ↦ some (q.event, q)
  ]
