-- ===== src/Parser.antt =====
-- src/parser.c, include/kdl/parser.h: the state of a parser, its events, and the small functions on it.
-- The state word of the source is a record with a field for each flag, and `kdl_parse_option` one with a
-- field for each bit. A `kdl_str` that may have no data is an `Option`; the owned strings `tmp_string_...`
-- only keep the bytes of the event alive and are left out.
pub mod Words
pub mod Node
pub mod InNode
pub mod Next
pub mod Versions
pub mod Balance
pub mod Ending
use ckdl.Prelude.{ℕ, Bool, true, false, not, ◌&&◌, ◌||◌, Option, none, List, if◌then◌else◌, Bytes}
use ckdl.Grammar.{CharacterSet, v1, v2}
pub use ckdl.Grammar.{Version, version_1, version_2}
use ckdl.Number.{Number}
use ckdl.Tokenizer.{Token, Tokenizer}
use ckdl.Tokenizer.Input.{
  create_string_tokenizer, create_stream_tokenizer, tokenizer_set_character_set,
}

-- The bits of `kdl_parse_option`: KDL_EMIT_COMMENTS, the bit 0x10000 of KDL_DETECT_VERSION alone,
-- KDL_READ_VERSION_1 and KDL_READ_VERSION_2.
pub record ParseOption : Type 0 where
  pub emit_comments : Bool
  pub detect : Bool
  pub read_version_1 : Bool
  pub read_version_2 : Bool

-- `_v1_only`; `_v1_allowed` and `_v2_allowed` are fields.
abbrev pub v1_only : ParseOption → Bool
v1_only opt = opt.read_version_1 && not opt.read_version_2 && not opt.detect

abbrev pub v2_only : ParseOption → Bool
v2_only opt = opt.read_version_2 && not opt.read_version_1 && not opt.detect

-- `enum _kdl_parser_state`: the basic state and the flags.
pub record State : Type 0 where
  pub in_node : Bool
  pub line_cont : Bool
  pub type_annotation_start : Bool
  pub type_annotation_end : Bool
  pub type_annotation_ended : Bool
  pub in_property : Bool
  pub maybe_in_property : Bool
  pub bare_property_name : Bool
  pub newlines_are_whitespace : Bool
  pub end_of_node : Bool
  pub end_of_node_or_child_block : Bool
  pub whitespace_required : Bool
  pub contextually_illegal_whitespace : Bool

-- PARSER_OUTSIDE_NODE, and PARSER_IN_NODE with no flag.
abbrev pub parser_outside_node : State
parser_outside_node = record {
  in_node = false;
  line_cont = false;
  type_annotation_start = false;
  type_annotation_end = false;
  type_annotation_ended = false;
  in_property = false;
  maybe_in_property = false;
  bare_property_name = false;
  newlines_are_whitespace = false;
  end_of_node = false;
  end_of_node_or_child_block = false;
  whitespace_required = false;
  contextually_illegal_whitespace = false;
}

abbrev pub parser_in_node : State
parser_in_node = record parser_outside_node { in_node = true }

-- PARSER_MASK_WHITESPACE_BANNED_V1 and PARSER_MASK_NODE_CANNOT_END_HERE; the mask for contextually
-- banned whitespace is the flag `maybe_in_property`.
abbrev pub whitespace_banned_v1 : State → Bool
whitespace_banned_v1 s =
    s.type_annotation_start || s.type_annotation_end || s.type_annotation_ended || s.in_property

abbrev pub node_cannot_end_here : State → Bool
node_cannot_end_here s = whitespace_banned_v1 s || s.maybe_in_property

-- `self->state != PARSER_OUTSIDE_NODE`
abbrev pub is_not_plain : State → Bool
is_not_plain s =
    s.in_node || s.line_cont || s.type_annotation_start || s.type_annotation_end
    || s.type_annotation_ended || s.in_property || s.maybe_in_property || s.bare_property_name
    || s.newlines_are_whitespace || s.end_of_node || s.end_of_node_or_child_block
    || s.whitespace_required || s.contextually_illegal_whitespace

-- `kdl_value`, less its type annotation.
pub data Value (D : Type 0) : Type 0 where
  null : Value D
  boolean : Bool → Value D
  number : Number D → Value D
  string : Bytes → Value D

-- `kdl_event`; `comment` is KDL_EVENT_COMMENT on its own.
pub data EventKind : Type 0 where
  eof parse_error start_node end_node argument property comment : EventKind

-- `kdl_event_data`; `commented` is KDL_EVENT_COMMENT joined to another kind.
pub record Event (D : Type 0) : Type 0 where
  pub kind : EventKind
  pub commented : Bool
  pub name : Option Bytes
  pub type_annotation : Option Bytes
  pub value : Value D

-- `struct _kdl_parser`. A depth of -1 is `none`; `next_token` is there where `have_next_token` is.
pub record Parser (D : Type 0) : Type 0 where
  pub tokenizer : Tokenizer
  pub opt : ParseOption
  pub depth : ℕ
  pub slashdash_depth : Option ℕ
  pub child_block_at_depth : Option ℕ
  pub state : State
  pub event : Event D
  pub waiting_type_annotation : Option Bytes
  pub waiting_prop_name : Option Bytes
  pub next_token : Option Token

-- What the functions below `kdl_parser_next_event` return: the event, or NULL to go on.
pub data Reply (D : Type 0) : Type 0 where
  emitted silent : Parser D → Reply D

abbrev pub default_character_set : ParseOption → CharacterSet
default_character_set opt = if opt.read_version_2 then v2 else v1

abbrev pub reads_only : Version → ParseOption → ParseOption
reads_only version_1 opt = record opt {
  detect = false;
  read_version_1 = true;
  read_version_2 = false;
}
reads_only version_2 opt = record opt {
  detect = false;
  read_version_1 = false;
  read_version_2 = true;
}

-- "Fallback": with no version bit all of them are set.
abbrev pub with_fallback : ParseOption → ParseOption
with_fallback opt =
    if not opt.detect && not opt.read_version_1 && not opt.read_version_2
    then record opt { detect = true; read_version_1 = true; read_version_2 = true }
    else opt

module _ {D : Type 0} where
  -- `_set_version`
  unfoldable pub set_version : Version → Parser D → Parser D
  unfolding tokenizer_set_character_set
  set_version version p =
      let opt = reads_only version p.opt in
      record p {
        opt = opt;
        tokenizer = tokenizer_set_character_set p.tokenizer (default_character_set opt);
      }

  -- `_reset_event`; the kind stays until the next event sets it.
  unfoldable pub reset_event : Parser D → Parser D
  reset_event p = record p {
    event = record p.event { name = none; value = null; type_annotation = none };
  }

  -- `_set_parse_error` and the return of the event.
  unfoldable pub set_parse_error : Bytes → Parser D → Reply D
  set_parse_error message p = emitted (record p {
    event = record p.event { kind = parse_error; commented = false; value = string message };
  })

  -- `_set_comment_event` and the return of the event.
  unfoldable pub set_comment_event : Token → Parser D → Reply D
  set_comment_event token p = emitted (record p {
    event = record p.event { kind = comment; commented = false; value = string token.value };
  })

  abbrev pub no_event : Event D
  no_event = record {
    kind = eof;
    commented = false;
    name = none;
    type_annotation = none;
    value = null;
  }

  -- `_init_kdl_parser`, with the tokenizer that both creating functions add. The event is not set in the
  -- source; each call of `kdl_parser_next_event` resets it first.
  unfoldable pub init_parser : Tokenizer → ParseOption → Parser D
  unfolding tokenizer_set_character_set
  init_parser t option =
      let opt = with_fallback option in
      record {
        tokenizer = tokenizer_set_character_set t (default_character_set opt);
        opt = opt;
        depth = 0;
        slashdash_depth = none;
        child_block_at_depth = none;
        state = parser_outside_node;
        event = no_event;
        waiting_type_annotation = none;
        waiting_prop_name = none;
        next_token = none;
      }

  -- `kdl_create_string_parser` and `kdl_create_stream_parser`
  unfoldable pub create_string_parser : Bytes → ParseOption → Parser D
  unfolding init_parser
  create_string_parser doc opt = init_parser (create_string_tokenizer doc) opt

  unfoldable pub create_stream_parser : List Bytes → ParseOption → Parser D
  unfolding init_parser
  create_stream_parser reads opt = init_parser (create_stream_tokenizer reads) opt
