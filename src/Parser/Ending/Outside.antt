-- ===== src/Parser/Ending/Outside.antt =====
-- src/parser.c: each round of `kdl_parser_next_event` on a token outside of a node.
use ckdl.Prelude.{◌+◌, ◌≤◌, Bytes, List, ℕ, true, false, Option, none, some}
use ckdl.Number.{Floats}
use ckdl.Tokenizer.{
  Token, TokenType, start_type, word, string, multiline_string, raw_string_v1, raw_string_v2,
  raw_multiline_string, end_children, newline, semicolon, line_continuation,
}
use ckdl.Parser.{
  set_parse_error, Value, parser_in_node, start_node, set_version, version_2, node_cannot_end_here,
  Parser,
}
use ckdl.Parser.Words.{parse_value}
use ckdl.Parser.Versions.{parse_value-Versioned}
use ckdl.Parser.Node.{
  read_type, read_name, blank_line, on_state, is_value_token, take_type, take_name, node_token,
  next_node,
}
use ckdl.Parser.Ending.{From, Lowers, small}
use ckdl.Parser.Ending.Replies.{
  set_version-From, Versioned-From, if-Lowers, apply_slashdash-Lowers, silent-Lowers,
  open_type-Lowers, close_type-Lowers, end_child_block-Lowers,
}

module _ (F : Floats) (d : Bytes) (rs : List Bytes) (m : ℕ) (low : 8 ≤ m) where
  open F use {Double}

  read_type-Lowers :
      (v : Option (Value Double)) (p : Parser Double)
      → From d rs p
      → Lowers d rs m (read_type F (v, p))
  unfolding set_parse_error
  read_type-Lowers none p h = tt
  read_type-Lowers (some (Value.string s)) p h = (
    h.0,
    h.1,
    small m low p.next_token
        (record p.state { type_annotation_start = false; type_annotation_end = true }) h.2,
  )
  read_type-Lowers (some _) p h = tt

  pub take_type-Lowers :
      (token : Token) (p : Parser Double) → From d rs p → Lowers d rs m (take_type F token p)
  unfolding take_type set_parse_error
  take_type-Lowers token p h =
      if-Lowers d rs m (is_value_token token.type) _ _
        (λ e.
          read_type-Lowers (parse_value F token p).0 (parse_value F token p).1
            (Versioned-From d rs m (parse_value-Versioned F token p) h))
        (λ e. tt)

  read_name-Lowers :
      (v : Option (Value Double)) (p : Parser Double)
      → From d rs p
      → Lowers d rs m (read_name F (v, p))
  unfolding set_parse_error
  read_name-Lowers none p h = tt
  read_name-Lowers (some (Value.string s)) p h =
      apply_slashdash-Lowers d rs m
        (record p {
          state = record parser_in_node { whitespace_required = true };
          event = record p.event {
            kind = start_node;
            commented = false;
            name = some s;
            type_annotation = elim (p.waiting_type_annotation) [
              | none ↦ p.event.type_annotation
              | some t ↦ some t
            ];
          };
          waiting_type_annotation = none;
          depth = p.depth + 1;
        })
        (
          h.0,
          h.1,
          small m low p.next_token (record parser_in_node { whitespace_required = true }) h.2,
        )
  read_name-Lowers (some _) p h = tt

  take_name-Lowers :
      (token : Token) (p : Parser Double) → From d rs p → Lowers d rs m (take_name F token p)
  unfolding take_name
  take_name-Lowers token p h =
      read_name-Lowers (parse_value F token p).0 (parse_value F token p).1
        (Versioned-From d rs m (parse_value-Versioned F token p) h)

  blank_line-Lowers : (p : Parser Double) → From d rs p → Lowers d rs m (blank_line F p)
  unfolding blank_line set_parse_error
  blank_line-Lowers p h =
      if-Lowers d rs m (node_cannot_end_here p.state) _ _ (λ _. tt)
        (λ _.
          silent-Lowers d rs m low (on_state (λ s. record s { whitespace_required = false }) p) h)

  node_token-Lowers :
      (type : TokenType) (token : Token) (p : Parser Double)
      → From d rs p
      → Lowers d rs m (node_token F type token p)
  unfolding node_token set_parse_error
  node_token-Lowers newline token p h = blank_line-Lowers p h
  node_token-Lowers semicolon token p h = blank_line-Lowers p h
  node_token-Lowers start_type token p h = open_type-Lowers d rs m low p h
  node_token-Lowers word token p h = take_name-Lowers token p h
  node_token-Lowers string token p h = take_name-Lowers token p h
  node_token-Lowers multiline_string token p h = take_name-Lowers token p h
  node_token-Lowers raw_string_v1 token p h = take_name-Lowers token p h
  node_token-Lowers raw_string_v2 token p h = take_name-Lowers token p h
  node_token-Lowers raw_multiline_string token p h = take_name-Lowers token p h
  node_token-Lowers end_children token p h = end_child_block-Lowers d rs m low p h
  node_token-Lowers line_continuation token p h =
      if-Lowers d rs m p.opt.read_version_2 _ _
        (λ e.
          silent-Lowers d rs m low (set_version version_2 p)
            (set_version-From d rs m version_2 p h))
        (λ e. tt)
  node_token-Lowers _ token p h = tt

  pub next_node-Lowers :
      (token : Token) (p : Parser Double) → From d rs p → Lowers d rs m (next_node F token p)
  unfolding next_node
  next_node-Lowers token p h =
      if-Lowers d rs m p.state.type_annotation_start _ _ (λ e. take_type-Lowers token p h)
        λ e.
          if-Lowers d rs m p.state.type_annotation_end _ _
            (λ e. close_type-Lowers d rs m low token.type p h)
            λ e. node_token-Lowers token.type token p h
