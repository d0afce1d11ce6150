-- ===== src/Parser/InNode.antt =====
-- src/parser.c: `_next_event_in_node`, for a token in a node.
use ckdl.Prelude.{
  ℕ, ◌+◌, ◌-◌, Bool, true, false, not, ◌&&◌, ◌||◌, Option, none, some, ltb, if◌then◌else◌, Bytes,
  codes,
}
use ckdl.Number.{Floats}
use ckdl.Str.UnescapeV2.{borrow_str}
use ckdl.Tokenizer.{
  TokenType, start_type, word, single_line_comment, equals, start_children, end_children, newline,
  semicolon, line_continuation, Token,
}
use ckdl.Parser.{
  version_2, v1_only, parser_in_node, parser_outside_node, whitespace_banned_v1,
  node_cannot_end_here, Value, null, end_node, argument, property, Parser, Reply, silent,
  set_version, reset_event, set_parse_error,
}
use ckdl.Parser.Words.{parse_value}
use ckdl.Parser.Node.{
  is_active, apply_slashdash, with_state, on_state, open_type, close_type, is_value_token,
  take_type,
}

abbrev pub is_equals : TokenType → Bool
is_equals equals = true
is_equals _ = false

-- `if (self->child_block_at_depth > self->depth)`
abbrev pub forget_block : Option ℕ → ℕ → Option ℕ
forget_block none depth = none
forget_block (some b) depth = if ltb depth b then none else some b

abbrev pub is_bare : TokenType → Bool
is_bare word = true
is_bare _ = false

abbrev pub is_there : Option Bytes → Bool
is_there none = false
is_there (some s) = true

abbrev pub is_line_continuation : TokenType → Bool
is_line_continuation line_continuation = true
is_line_continuation _ = false

module _ {D : Type 0} where
  -- What only the version 2 allows: an error for a parser that reads the version 1 only, and otherwise
  -- the choice of the version 2.
  abbrev pub require_v2 : Bytes → (Parser D → Reply D) → Parser D → Reply D
  require_v2 message k p =
      if v1_only p.opt then set_parse_error message p else k (set_version version_2 p)

  -- What whitespace, a comment and a line continuation do to the state.
  unfoldable pub pass_space : Bytes → (Parser D → Reply D) → Parser D → Reply D
  unfolding set_parse_error set_version
  pass_space message k p =
      let p' = on_state (λ s. record s { whitespace_required = false }) p in
      if whitespace_banned_v1 p'.state
      then require_v2 message k p'
      else if p'.state.maybe_in_property
      then k (on_state (λ s. record s { contextually_illegal_whitespace = true }) p')
      else k p'

  abbrev pub continue_line : Parser D → Reply D
  continue_line p = silent (on_state (λ s. record s { line_cont = true }) p)

  -- "Property value comes next".
  unfoldable pub take_equals : Parser D → Reply D
  unfolding set_parse_error set_version
  take_equals p =
      let p' = on_state (λ s. record s { maybe_in_property = false; in_property = true }) p in
      if p'.state.contextually_illegal_whitespace
      then require_v2 (codes "Whitespace not allowed before = sign") silent
          (on_state (λ s. record s { contextually_illegal_whitespace = false }) p')
      else silent p'

  -- "Not in property; emit as argument (if legal)".
  abbrev pub waiting_argument : Parser D → Reply D
  waiting_argument p =
      with_state
        (record parser_in_node {
          whitespace_required = not p.state.contextually_illegal_whitespace;
        })
        (apply_slashdash (record p {
          event = record p.event {
            kind = argument;
            commented = false;
            value = Value.string (borrow_str p.waiting_prop_name);
          };
          waiting_prop_name = none;
        }))

  unfoldable pub emit_waiting : Token → Parser D → Reply D
  unfolding set_parse_error set_version apply_slashdash
  emit_waiting token p =
      let p' = record p { next_token = some token } in
      if p'.state.bare_property_name
      then require_v2 (codes "Bare identifier not allowed here") waiting_argument p'
      else waiting_argument p'

  -- "end the node". The depth is not 0 in a node.
  unfoldable pub end_of_node_token : Parser D → Reply D
  unfolding set_parse_error reset_event apply_slashdash
  end_of_node_token p =
      if node_cannot_end_here p.state
      then set_parse_error (codes "Unexpected end of node (incomplete argument or property?)") p
      else (let p' = reset_event p in
          let depth = p.depth - 1 in
          apply_slashdash (record p' {
            state = parser_outside_node;
            depth = depth;
            child_block_at_depth = forget_block p.child_block_at_depth depth;
            event = record p'.event { kind = end_node; commented = false };
          }))

  unfoldable pub open_children : Parser D → Reply D
  unfolding reset_event
  open_children p =
      silent (record (reset_event p) { state = parser_outside_node; depth = p.depth + 1 })

  -- A token that holds no value, at the start of a node.
  unfoldable pub other_entry : TokenType → Parser D → Reply D
  unfolding set_parse_error open_type
  other_entry start_type p =
      if p.state.whitespace_required
      then set_parse_error (codes "Whitespace required before type") p
      else open_type p
  other_entry _ p = set_parse_error (codes "Unexpected token") p

module _ (F : Floats) where
  open F use {Double}

  -- "We can return the event": an argument or a property.
  abbrev pub value_event : Value Double → Parser Double → Reply Double
  value_event v p =
      let annotation : Option Bytes = elim (p.waiting_type_annotation) [
        | none ↦ p.event.type_annotation
        | some t ↦ some t
      ] in
      with_state (record parser_in_node { whitespace_required = true })
        (apply_slashdash (
          if p.state.in_property
          then record p {
            event = record {
              kind = property;
              commented = false;
              name = p.waiting_prop_name;
              type_annotation = annotation;
              value = v;
            };
            waiting_type_annotation = none;
            waiting_prop_name = none;
          }
          else record p {
            event = record p.event {
              kind = argument;
              commented = false;
              type_annotation = annotation;
              value = v;
            };
            waiting_type_annotation = none;
          }))

  -- "Can this be a property key?" The string waits for the next token.
  abbrev pub wait_for_equals : Bool → Bytes → Parser Double → Reply Double
  wait_for_equals bare s p = silent (record p {
    event = record p.event { value = null };
    waiting_prop_name = some s;
    state = record p.state {
      maybe_in_property = true;
      bare_property_name = if bare then true else p.state.bare_property_name;
    };
  })

  -- A string behind the value that `_parse_value` returned, and any other value.
  abbrev pub use_value : Bool → Value Double → Parser Double → Reply Double
  use_value bare (Value.string s) p =
      if not (is_there p.waiting_type_annotation) && not p.state.in_property
      then wait_for_equals bare s p
      else if bare
      then require_v2 (codes "Bare identifier not allowed here") (value_event (Value.string s)) p
      else value_event (Value.string s) p
  use_value bare v p = value_event v p

  abbrev pub read_argument : Bool → Option (Value Double) × Parser Double → Reply Double
  read_argument bare (v, p) = elim v [
    | none ↦ set_parse_error (codes "Error parsing property or argument") p
    | some v ↦ use_value bare v p
  ]

  unfoldable pub take_argument : Token → Parser Double → Reply Double
  unfolding parse_value set_parse_error set_version apply_slashdash
  take_argument token p =
      if p.state.whitespace_required
      then set_parse_error (codes "Whitespace required before argument or property") p
      else read_argument (is_bare token.type) (parse_value F token p)

  -- Arguments, properties and types, at the start of a node only.
  unfoldable pub entry_token : Token → Parser Double → Reply Double
  unfolding take_argument set_parse_error other_entry
  entry_token token p =
      if p.state.end_of_node || p.state.end_of_node_or_child_block
      then set_parse_error (codes "Expected end of node or child block") p
      else if is_value_token token.type
      then take_argument token p
      else other_entry token.type p

  -- The last branch of `_next_event_in_node`, on the type of the token.
  unfoldable pub in_node_token : TokenType → Token → Parser Double → Reply Double
  unfolding end_of_node_token open_children entry_token set_parse_error
  in_node_token end_children token p = end_of_node_token (record p { next_token = some token })
  in_node_token newline token p = end_of_node_token p
  in_node_token semicolon token p = end_of_node_token p
  in_node_token start_children token p =
      if p.state.end_of_node && not (is_active p.slashdash_depth)
      then set_parse_error (codes "Expected end of node") p
      else open_children p
  in_node_token _ token p =
      if p.state.end_of_node && not (is_active p.slashdash_depth)
      then set_parse_error (codes "Expected end of node") p
      else entry_token token p

  unfoldable pub node_event : Token → Parser Double → Reply Double
  unfolding pass_space take_equals emit_waiting take_type close_type in_node_token
  node_event token p =
      if is_line_continuation token.type
      then pass_space (codes "Line continuation not allowed here") continue_line p
      else if p.state.maybe_in_property
      then (if is_equals token.type then take_equals p else emit_waiting token p)
      else if p.state.type_annotation_start
      then take_type F token p
      else if p.state.type_annotation_end
      then close_type token.type p
      else in_node_token token.type token p

  -- The token behind a line continuation.
  unfoldable pub after_line_cont : TokenType → Token → Parser Double → Reply Double
  unfolding node_event set_parse_error
  after_line_cont single_line_comment token p = node_event token p
  after_line_cont newline token p = silent (on_state (λ s. record s { line_cont = false }) p)
  after_line_cont _ token p = set_parse_error (codes "Illegal token after line continuation") p

  -- `_next_event_in_node`
  unfoldable pub next_event_in_node : Token → Parser Double → Reply Double
  unfolding after_line_cont
  next_event_in_node token p =
      if p.state.line_cont then after_line_cont token.type token p else node_event token p
