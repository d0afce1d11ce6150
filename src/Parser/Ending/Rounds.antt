-- ===== src/Parser/Ending/Rounds.antt =====
-- src/parser.c: each round of `kdl_parser_next_event` on a token, whatever it is.
use ckdl.Prelude.{
  ◌+◌, ◌≤◌, Bytes, List, inl, inr, Bool-cases, ℕ, ◌≡◌, arith, Bool, true, false, not, ◌&&◌, ◌||◌,
  Option, none, some, if◌then◌else◌,
}
use ckdl.Number.{Floats}
use ckdl.Tokenizer.{
  Token, TokenType, start_type, single_line_comment, slashdash, multi_line_comment, start_children,
  end_children, newline, semicolon, whitespace,
}
use ckdl.Parser.{
  set_parse_error, State, Value, parser_in_node, set_version, v1_only, version_2,
  node_cannot_end_here, Parser, silent,
}
use ckdl.Parser.Words.{parse_value}
use ckdl.Parser.Versions.{parse_value-Versioned}
use ckdl.Parser.Node.{on_state, is_value_token, is_active}
use ckdl.Parser.InNode.{
  is_there, value_event, use_value, read_argument, next_event_in_node, is_bare, is_equals,
  is_line_continuation, continue_line, after_line_cont, other_entry, take_argument, entry_token,
  in_node_token, node_event,
}
use ckdl.Parser.Next.{comment_event, seen_as, node_or_event, handle_as, handle}
use ckdl.Parser.Ending.{rank, From, Lowers, token_weight_bound, small}
use ckdl.Parser.Ending.Replies.{
  set_version-From, Versioned-From, if-Lowers, with_state-Lowers, pass_space-Lowers,
  end_of_node-Lowers, emit_waiting-Lowers, silent-Lowers, open_type-Lowers, close_type-Lowers,
  open_children-Lowers, take_equals-Lowers, comment_event-Lowers, start_slashdash-Lowers,
}
use ckdl.Parser.Ending.Outside.{take_type-Lowers, next_node-Lowers}

-- A node name may still wait for an equals sign.
pub rank_waiting : (s : State) → s.in_node ≡ true → s.maybe_in_property ≡ true → 4 ≤ rank s
rank_waiting s h k = ground arith

pub rank_in_node : (s : State) → s.in_node ≡ true → 2 ≤ rank s
rank_in_node s h = ground arith

module _ (F : Floats) (d : Bytes) (rs : List Bytes) (m : ℕ) (low : 8 ≤ m) where
  open F use {Double}

  value_event-Lowers :
      (v : Value Double) (p : Parser Double) → From d rs p → Lowers d rs m (value_event F v p)
  value_event-Lowers v p h =
      let s : State = record parser_in_node { whitespace_required = true } in
      let l = small m low p.next_token s h.2 in
      elim (Bool-cases p.state.in_property) [
        | inl e ↦ rw e (with_state-Lowers d rs m s _ (h.0, h.1, l))
        | inr e ↦ rw e (with_state-Lowers d rs m s _ (h.0, h.1, l))
      ]

  use_value-Lowers :
      (bare : Bool) (v : Value Double) (p : Parser Double)
      → From d rs p
      → Lowers d rs m (use_value F bare v p)
  unfolding set_parse_error
  use_value-Lowers bare (Value.string s) p h =
      if-Lowers d rs m (not (is_there p.waiting_type_annotation) && not p.state.in_property) _ _
        (λ _. (
          h.0,
          h.1,
          small m low p.next_token
              (record p.state {
                maybe_in_property = true;
                bare_property_name = if bare then true else p.state.bare_property_name;
              })
              h.2,
        ))
        λ _.
          if-Lowers d rs m bare _ _
            (λ _.
              if-Lowers d rs m (v1_only p.opt) _ _ (λ _. tt)
                (λ _.
                  value_event-Lowers (Value.string s) (set_version version_2 p)
                    (set_version-From d rs m version_2 p h)))
            (λ _. value_event-Lowers (Value.string s) p h)
  use_value-Lowers bare v p h = value_event-Lowers v p h

  read_argument-Lowers :
      (bare : Bool) (v : Option (Value Double)) (p : Parser Double)
      → From d rs p
      → Lowers d rs m (read_argument F bare (v, p))
  unfolding set_parse_error
  read_argument-Lowers bare none p h = tt
  read_argument-Lowers bare (some v) p h = use_value-Lowers bare v p h

  take_argument-Lowers :
      (token : Token) (p : Parser Double) → From d rs p → Lowers d rs m (take_argument F token p)
  unfolding take_argument set_parse_error
  take_argument-Lowers token p h =
      if-Lowers d rs m p.state.whitespace_required _ _ (λ e. tt)
        (λ e.
          read_argument-Lowers (is_bare token.type) (parse_value F token p).0
            (parse_value F token p).1 (Versioned-From d rs m (parse_value-Versioned F token p) h))

  other_entry-Lowers :
      (type : TokenType) (p : Parser Double) → From d rs p → Lowers d rs m (other_entry type p)
  unfolding other_entry set_parse_error
  other_entry-Lowers start_type p h =
      if-Lowers d rs m p.state.whitespace_required _ _ (λ e. tt)
        (λ e. open_type-Lowers d rs m low p h)
  other_entry-Lowers _ p h = tt

  entry_token-Lowers :
      (token : Token) (p : Parser Double) → From d rs p → Lowers d rs m (entry_token F token p)
  unfolding entry_token set_parse_error
  entry_token-Lowers token p h =
      if-Lowers d rs m (p.state.end_of_node || p.state.end_of_node_or_child_block) _ _ (λ e. tt)
        λ e.
          if-Lowers d rs m (is_value_token token.type) _ _ (λ e. take_argument-Lowers token p h)
            λ e. other_entry-Lowers token.type p h

  in_node_token-Lowers :
      (type : TokenType) (token : Token) (p : Parser Double)
      → From d rs p
      → 10 ≤ m
      → Lowers d rs m (in_node_token F type token p)
  unfolding in_node_token set_parse_error
  in_node_token-Lowers end_children token p h k =
      let w = token_weight_bound token.type in
      end_of_node-Lowers d rs m (record p { next_token = some token }) h.0 h.1 (omega arith)
  in_node_token-Lowers newline token p h k =
      end_of_node-Lowers d rs m p h.0 h.1 (rw h.2 (omega arith))
  in_node_token-Lowers semicolon token p h k =
      end_of_node-Lowers d rs m p h.0 h.1 (rw h.2 (omega arith))
  in_node_token-Lowers start_children token p h k =
      if-Lowers d rs m (p.state.end_of_node && not (is_active p.slashdash_depth)) _ _ (λ e. tt)
        (λ e. open_children-Lowers d rs m low p h)
  in_node_token-Lowers _ token p h k =
      if-Lowers d rs m (p.state.end_of_node && not (is_active p.slashdash_depth)) _ _ (λ e. tt)
        (λ e. entry_token-Lowers token p h)

  node_event-Lowers :
      (token : Token) (p : Parser Double)
      → From d rs p
      → p.state.in_node ≡ true
      → 8 + rank p.state ≤ m
      → Lowers d rs m (node_event F token p)
  unfolding node_event
  node_event-Lowers token p h k l =
      let r = rank_in_node p.state k in
      let w = token_weight_bound token.type in
      if-Lowers d rs m (is_line_continuation token.type) _ _
        (λ e.
          pass_space-Lowers d rs m _ continue_line p
            (λ p' h' _.
              (h'.0, h'.1, small m low p'.next_token (record p'.state { line_cont = true }) h'.2))
            h)
        λ e.
          if-Lowers d rs m p.state.maybe_in_property _ _
            (λ e.
              if-Lowers d rs m (is_equals token.type) _ _ (λ _. take_equals-Lowers d rs m low p h)
                (λ _.
                  emit_waiting-Lowers d rs m token p h
                    (let q = rank_waiting p.state k e in omega arith)))
            λ e.
              if-Lowers d rs m p.state.type_annotation_start _ _
                (λ e. take_type-Lowers F d rs m low token p h)
                λ e.
                  if-Lowers d rs m p.state.type_annotation_end _ _
                    (λ e. close_type-Lowers d rs m low token.type p h)
                    λ e. in_node_token-Lowers token.type token p h (omega arith)

  after_line_cont-Lowers :
      (type : TokenType) (token : Token) (p : Parser Double)
      → From d rs p
      → p.state.in_node ≡ true
      → 8 + rank p.state ≤ m
      → Lowers d rs m (after_line_cont F type token p)
  unfolding after_line_cont set_parse_error
  after_line_cont-Lowers single_line_comment token p h k l = node_event-Lowers token p h k l
  after_line_cont-Lowers newline token p h k l =
      (h.0, h.1, small m low p.next_token (record p.state { line_cont = false }) h.2)
  after_line_cont-Lowers _ token p h k l = tt

  node_or_event-Lowers :
      (token : Token) (p : Parser Double)
      → From d rs p
      → 8 + rank p.state ≤ m
      → Lowers d rs m (node_or_event F token p)
  unfolding node_or_event next_event_in_node
  node_or_event-Lowers token p h l =
      let p' = on_state (λ s. record s { newlines_are_whitespace = false }) p in
      if-Lowers d rs m p.state.in_node _ _
        (λ k.
          if-Lowers d rs m p.state.line_cont _ _
            (λ e. after_line_cont-Lowers token.type token p' h k l)
            (λ e. node_event-Lowers token p' h k l))
        (λ k. next_node-Lowers F d rs m low token p' h)

  handle_as-Lowers :
      (type : TokenType) (token : Token) (p : Parser Double)
      → From d rs p
      → 8 + rank p.state ≤ m
      → Lowers d rs m (handle_as F type token p)
  unfolding handle_as set_parse_error
  handle_as-Lowers whitespace token p h l =
      pass_space-Lowers d rs m _ silent p (λ p' h' _. silent-Lowers d rs m low p' h') h
  handle_as-Lowers multi_line_comment token p h l =
      pass_space-Lowers d rs m _ (comment_event token) p
        (λ p' h' _. comment_event-Lowers d rs m low token p' h') h
  handle_as-Lowers single_line_comment token p h l =
      pass_space-Lowers d rs m _ (comment_event token) p
        (λ p' h' _. comment_event-Lowers d rs m low token p' h') h
  handle_as-Lowers slashdash token p h l =
      if-Lowers d rs m p.state.whitespace_required _ _ (λ e. tt)
        λ e.
          if-Lowers d rs m p.state.maybe_in_property _ _ (λ e. node_or_event-Lowers token p h l)
            λ e.
              if-Lowers d rs m (node_cannot_end_here p.state) _ _ (λ e. tt)
                (λ e. start_slashdash-Lowers d rs m low p h)
  handle_as-Lowers _ token p h l = node_or_event-Lowers token p h l

  -- A round that goes on has a weight below eight more than the rank it started with.
  pub handle-Lowers :
      (token : Token) (p : Parser Double)
      → From d rs p
      → 8 + rank p.state ≤ m
      → Lowers d rs m (handle F token p)
  unfolding handle
  handle-Lowers token p h l = handle_as-Lowers (seen_as p.state token.type) token p h l
