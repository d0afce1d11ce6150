-- ===== src/Parser/Ending.antt =====
-- src/parser.c: what a round of `kdl_parser_next_event` that goes on, and an event, leave to be done.
pub mod Replies
pub mod Outside
pub mod Rounds
pub mod Newline
pub mod Calls
pub mod Documents
use ckdl.Prelude.{
  ◌∙◌, not, ◌&&◌, ◌||◌, ◌<◌, ◌≤◌, ◌==◌, inl, inr, Option-cases, Bool-cases, List, ℕ, ◌+◌, ◌-◌, ◌/◌,
  ◌%◌, ◌≡◌, refl, arith, Bool, true, false, Option, none, some, if◌then◌else◌, Bytes,
}
use ckdl.Number.{Floats}
use ckdl.Tokenizer.{Token, TokenType, newline, end_type}
use ckdl.Tokenizer.Input.{tokenizer_set_character_set}
use ckdl.Parser.{
  v1_only, parser_in_node, argument, parser_outside_node, whitespace_banned_v1,
  node_cannot_end_here, Version, version_1, version_2, State, Value, EventKind, eof, parse_error,
  start_node, end_node, property, comment, Parser, Reply, emitted, silent, set_version, reset_event,
  set_parse_error, set_comment_event,
}
use ckdl.Parser.Words.{parse_value}
use ckdl.Parser.Versions.{Versioned, same, fixed, parse_value-Versioned}
use ckdl.Parser.Node.{
  is_active, after_children, apply_slashdash, with_state, on_state, open_type, close_type,
  end_child_block, read_type, take_type, read_name, take_name, blank_line, node_token, next_node,
}
use ckdl.Parser.InNode.{
  pass_space, take_equals, emit_waiting, end_of_node_token, open_children, read_argument,
  take_argument, entry_token, in_node_token, node_event, next_event_in_node,
}
use ckdl.Parser.Next.{comment_event, start_slashdash}
use ckdl.Parser.InNode.{forget_block, waiting_argument}
use ckdl.Str.UnescapeV2.{borrow_str}

-- How many rounds the state can take without a token, and what a token that waits adds to that.
abbrev pub rank : State → ℕ
rank s =
    (if s.in_node then 2 else 0)
    + ((if s.maybe_in_property then 2 else 0) + (if s.line_cont then 1 else 0))

abbrev pub token_weight : TokenType → ℕ
token_weight newline = 1
token_weight _ = 8

abbrev pub waiting_weight : Option Token → ℕ
waiting_weight none = 0
waiting_weight (some token) = token_weight token.type

-- What holds behind an event, unless it is the end of the document or an error.
abbrev pub After : EventKind → Type 0 → Type 0
After eof X = Unit
After parse_error X = Unit
After _ X = X

module _ {D : Type 0} where
  abbrev pub weight : Parser D → ℕ
  weight p = waiting_weight p.next_token + rank p.state

  -- A parser with the unread input as given, and no token that waits.
  abbrev pub From : Bytes → List Bytes → Parser D → Type 0
  From d rs p = (p.tokenizer.document ≡ d) × (p.tokenizer.reads ≡ rs) × (p.next_token ≡ none)

  -- A parser with the input as given, and a weight below the bound.
  abbrev pub Low : Bytes → List Bytes → ℕ → Parser D → Type 0
  Low d rs m p = (p.tokenizer.document ≡ d) × (p.tokenizer.reads ≡ rs) × (weight p < m)

  -- A reply that goes on, or an event that more can follow, leaves the input, and a weight below the bound.
  abbrev pub Lowers : Bytes → List Bytes → ℕ → Reply D → Type 0
  Lowers d rs m (emitted p) = After p.event.kind (Low d rs m p)
  Lowers d rs m (silent p) = Low d rs m p

pub after : {X : Type 0} (k : EventKind) → X → After k X
after eof x = tt
after parse_error x = tt
after _ x = x

pub After-map : {X Y : Type 0} (k : EventKind) → (X → Y) → After k X → After k Y
After-map eof f x = tt
After-map parse_error f x = tt
After-map start_node f x = f x
After-map end_node f x = f x
After-map argument f x = f x
After-map property f x = f x
After-map comment f x = f x

pub rank_bound : (s : State) → rank s ≤ 5
rank_bound s = ground arith

pub token_weight_bound : (t : TokenType) → token_weight t ≤ 8
token_weight_bound newline = omega arith
token_weight_bound _ = omega arith

-- Without a token that waits the weight is small.
pub small :
    (m : ℕ)
    → 8 ≤ m
    → (next : Option Token) (s : State) → next ≡ none
    → waiting_weight next + rank s < m
small m low next s e = let b = rank_bound s in rw e (omega arith)
