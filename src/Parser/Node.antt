-- ===== src/Parser/Node.antt =====
-- src/parser.c: `_apply_slashdash` and `_next_node`, for a token outside of a node.
use ckdl.Prelude.{ℕ, ◌+◌, ◌-◌, Bool, true, false, Option, none, some, ◌==◌, if◌then◌else◌, codes}
use ckdl.Number.{Floats}
use ckdl.Tokenizer.{
  TokenType, start_type, end_type, word, string, multiline_string, raw_string_v1, raw_string_v2,
  raw_multiline_string, end_children, newline, semicolon, line_continuation, Token,
}
use ckdl.Parser.{
  version_2, State, parser_in_node, node_cannot_end_here, Value, start_node, Parser, Reply, emitted,
  silent, set_version, reset_event, set_parse_error,
}
use ckdl.Parser.Words.{parse_value}

-- The test `slashdash_depth == depth + 1`, where a slashdash ends.
abbrev pub ends_slashdash : Option ℕ → ℕ → Option ℕ
ends_slashdash none depth = none
ends_slashdash (some d) depth = if d == depth + 1 then none else some d

abbrev pub is_active : Option ℕ → Bool
is_active none = false
is_active (some d) = true

-- `case KDL_TOKEN_END_CHILDREN` outside of a node: the state of the parent behind its child block.
abbrev pub after_children : Option ℕ → Option ℕ → ℕ → State
after_children none child_block depth = record parser_in_node { end_of_node = true }
after_children (some d) none depth = record parser_in_node { end_of_node_or_child_block = true }
after_children (some d) (some b) depth =
    if b == depth
    then record parser_in_node { end_of_node = true }
    else record parser_in_node { end_of_node_or_child_block = true }

-- The tokens that hold a value.
abbrev pub is_value_token : TokenType → Bool
is_value_token word = true
is_value_token string = true
is_value_token multiline_string = true
is_value_token raw_string_v1 = true
is_value_token raw_string_v2 = true
is_value_token raw_multiline_string = true
is_value_token _ = false

module _ {D : Type 0} where
  -- `_apply_slashdash`
  unfoldable pub apply_slashdash : Parser D → Reply D
  unfolding reset_event
  apply_slashdash p =
      if is_active p.slashdash_depth
      then (let p' = record p { slashdash_depth = ends_slashdash p.slashdash_depth p.depth } in
          if p.opt.emit_comments
          then emitted (record p' { event = record p.event { commented = true } })
          else silent (reset_event p'))
      else emitted p

  -- A flag or the state set behind `_apply_slashdash`.
  abbrev pub with_state : State → Reply D → Reply D
  with_state s (emitted p) = emitted (record p { state = s })
  with_state s (silent p) = silent (record p { state = s })

  abbrev pub on_state : (State → State) → Parser D → Parser D
  on_state f p = record p { state = f p.state }

  -- `case KDL_TOKEN_START_TYPE` of both token functions. The annotation that it looks for is that of the
  -- event.
  unfoldable pub open_type : Parser D → Reply D
  unfolding set_parse_error
  open_type p = elim (p.event.type_annotation) [
    | some t ↦ set_parse_error (codes "Unexpected second type annotation") p
    | none ↦ silent (on_state (λ s. record s { type_annotation_start = true }) p)
  ]

  -- `case KDL_TOKEN_END_TYPE` with the flag TYPE_ANNOTATION_END, and any other token there.
  unfoldable pub close_type : TokenType → Parser D → Reply D
  unfolding set_parse_error
  close_type end_type p =
      silent
        (on_state (λ s. record s { type_annotation_end = false; type_annotation_ended = true }) p)
  close_type _ p = set_parse_error (codes "Unexpected token, expected ')'") p

  unfoldable pub end_child_block : Parser D → Reply D
  unfolding set_parse_error reset_event
  end_child_block p =
      if p.depth == 0
      then set_parse_error (codes "Unexpected '}'") p
      else (let depth = p.depth - 1 in
          silent (record (reset_event p) {
            depth = depth;
            state = after_children p.slashdash_depth p.child_block_at_depth depth;
            child_block_at_depth =
                if is_active p.slashdash_depth then p.child_block_at_depth else some depth;
            slashdash_depth = ends_slashdash p.slashdash_depth depth;
          }))

module _ (F : Floats) where
  open F use {Double}

  -- "this is an identifier": the type annotation waits for its value.
  abbrev pub read_type : Option (Value Double) × Parser Double → Reply Double
  read_type (v, p) = elim v [
    | none ↦ set_parse_error (codes "Error parsing type annotation") p
    | some v ↦ elim v [
      | Value.string s ↦ silent (record p {
        state = record p.state { type_annotation_start = false; type_annotation_end = true };
        waiting_type_annotation = some s;
      })
      | _ ↦ set_parse_error (codes "Expected identifier or string") p
    ]
  ]

  -- A token with the flag TYPE_ANNOTATION_START, which both token functions treat alike.
  unfoldable pub take_type : Token → Parser Double → Reply Double
  unfolding parse_value set_parse_error
  take_type token p =
      if is_value_token token.type
      then read_type (parse_value F token p)
      else set_parse_error (codes "Unexpected token, expected type") p

  -- The name of a node, and its event.
  abbrev pub read_name : Option (Value Double) × Parser Double → Reply Double
  read_name (v, p) = elim v [
    | none ↦ set_parse_error (codes "Error parsing node name") p
    | some v ↦ elim v [
      | Value.string s ↦ apply_slashdash (record p {
        state = record parser_in_node { whitespace_required = true };
        event = record p.event {
          kind = start_node;
          commented = false;
          name = some s;
          type_annotation = elim (p.waiting_type_annotation) [
            | none ↦ p.event.type_annotation
            | some t ↦ some t
          ];
        };
        waiting_type_annotation = none;
        depth = p.depth + 1;
      })
      | _ ↦ set_parse_error (codes "Expected identifier or string") p
    ]
  ]

  abbrev pub expected_node : Parser Double → Reply Double
  expected_node p = set_parse_error (codes "Unexpected token, expected node") p

  unfoldable pub take_name : Token → Parser Double → Reply Double
  unfolding parse_value set_parse_error apply_slashdash
  take_name token p = read_name (parse_value F token p)

  -- `case KDL_TOKEN_NEWLINE: case KDL_TOKEN_SEMICOLON:`
  unfoldable pub blank_line : Parser Double → Reply Double
  unfolding set_parse_error
  blank_line p =
      let p' = on_state (λ s. record s { whitespace_required = false }) p in
      if node_cannot_end_here p'.state
      then set_parse_error (codes "Unexpected end of node (incomplete node name?)") p'
      else silent p'

  -- The last branch of `_next_node`, on the type of the token.
  unfoldable pub node_token : TokenType → Token → Parser Double → Reply Double
  unfolding blank_line open_type take_name end_child_block set_version set_parse_error
  node_token newline token p = blank_line p
  node_token semicolon token p = blank_line p
  node_token start_type token p = open_type p
  node_token word token p = take_name token p
  node_token string token p = take_name token p
  node_token multiline_string token p = take_name token p
  node_token raw_string_v1 token p = take_name token p
  node_token raw_string_v2 token p = take_name token p
  node_token raw_multiline_string token p = take_name token p
  node_token end_children token p = end_child_block p
  node_token line_continuation token p =
      if p.opt.read_version_2 then silent (set_version version_2 p) else expected_node p
  node_token _ token p = expected_node p

  -- `_next_node`
  unfoldable pub next_node : Token → Parser Double → Reply Double
  unfolding take_type close_type node_token
  next_node token p =
      if p.state.type_annotation_start
      then take_type token p
      else if p.state.type_annotation_end
      then close_type token.type p
      else node_token token.type token p
