-- ===== src/Kdlpp.antt =====
-- src/bindings/cpp/src/kdlpp.cpp, src/bindings/cpp/include/kdlpp.h: documents in C++, reading them from a
-- parser, and writing them. A `std::vector` is a list, a `std::optional` an option, and a `std::map` the
-- list of its pairs in the order of `std::less`, which is that of the code units. Allocation succeeds.
pub mod Parse
pub mod Emission
pub mod Documents
pub mod Reading
pub mod Writing
pub mod Map
pub mod Sorted
pub mod Agrees
pub mod Returns
use Prim.Native.Nat.{compare, Ordering, lt, eq, gt}
use ckdl.Prelude.{
  ℕ, zero, suc, Bool, true, false, if◌then◌else◌, Option, none, some, List, [], ◌∷◌, ◌++◌, Bytes,
  codes, ℤ,
}
use ckdl.Grammar.{Version, version_1, version_2}
use ckdl.Number.{Number, Floats, integer, floating_point, string_encoded}
use ckdl.Str.Buffer.{WriteBuffer}
use ckdl.Str.UnescapeV2.{borrow_str}
use ckdl.Parser.{
  ParseOption, Value, null, boolean, number, string, EventKind, eof, parse_error, start_node,
  end_node, argument, property, comment, Event, Parser, create_string_parser,
}
use ckdl.Parser.Next.{next_event}
use ckdl.Emitter.{
  EmitterOptions, Emitter, WriteFunc, Emit, ◌and_then◌, buffer_write_func, default_emitter_options,
  create_buffering_emitter,
}
use ckdl.Emitter.Float.{PrintFloats}
use ckdl.Emitter.Nodes.{
  get_emitter_buffer, emit_node, emit_node_with_type, emit_arg, emit_property,
  start_emitting_children, finish_emitting_children,
}
use ckdl.Options.{detect_version, read_version}

-- `Number`: the alternatives of its `std::variant`.
pub data NumberVariant (D : Type 0) : Type 0 where
  long_long : ℤ → NumberVariant D
  double : D → NumberVariant D
  number_string : Bytes → NumberVariant D

-- The alternatives of the `std::variant` of `Value`.
pub data ValueVariant (D : Type 0) : Type 0 where
  monostate : ValueVariant D
  bool : Bool → ValueVariant D
  number_value : NumberVariant D → ValueVariant D
  string_value : Bytes → ValueVariant D

-- `Value`, with its `HasTypeAnnotation`.
pub record CppValue (D : Type 0) : Type 0 where
  pub type_annotation : Option Bytes
  pub value : ValueVariant D

-- `Node`, less its children.
pub record Head (D : Type 0) : Type 0 where
  pub type_annotation : Option Bytes
  pub name : Bytes
  pub args : List (CppValue D)
  pub properties : List (Bytes × CppValue D)

-- A vector of nodes: the first one with its children, and the others.
pub data NodeVector (D : Type 0) : Type 0 where
  no_node : NodeVector D
  with_node : Head D → NodeVector D → NodeVector D → NodeVector D

-- The order of two keys.
abbrev pub key_compare : Bytes → Bytes → Ordering
key_compare [] [] = eq
key_compare [] (b ∷ t) = lt
key_compare (a ∷ s) [] = gt
key_compare (a ∷ s) (b ∷ t) = elim (compare a b) [ eq ↦ key_compare s t | o ↦ o ]

module _ {D : Type 0} where
  -- `kdl_number_to_variant`
  abbrev pub number_to_variant : Number D → NumberVariant D
  number_to_variant (integer n) = long_long n
  number_to_variant (floating_point f) = double f
  number_to_variant (string_encoded s) = number_string s

  -- `Number::operator kdl_number`
  abbrev pub number_of_variant : NumberVariant D → Number D
  number_of_variant (long_long n) = integer n
  number_of_variant (double f) = floating_point f
  number_of_variant (number_string s) = string_encoded s

  -- `kdl_value_to_variant`
  abbrev pub value_to_variant : Value D → ValueVariant D
  value_to_variant null = monostate
  value_to_variant (boolean b) = bool b
  value_to_variant (number n) = number_value (number_to_variant n)
  value_to_variant (string s) = string_value s

  -- `Value::Value(kdl_value const&)`
  abbrev pub to_value : Option Bytes → Value D → CppValue D
  to_value t v = record { type_annotation = t; value = value_to_variant v }

  -- `Value::operator kdl_value`, less the type annotation.
  abbrev pub value_of_variant : ValueVariant D → Value D
  value_of_variant monostate = null
  value_of_variant (bool b) = boolean b
  value_of_variant (number_value n) = number (number_of_variant n)
  value_of_variant (string_value s) = string s

  -- `properties()[key] = value`
  unfoldable pub assign : Bytes → CppValue D → List (Bytes × CppValue D) → List (Bytes × CppValue D)
  assign key value [] = (key, value) ∷ []
  assign key value (p ∷ m) =
      let more = assign key value m in
      elim (key_compare key p.0) [
        | lt ↦ (key, value) ∷ (p ∷ m)
        | eq ↦ (p.0, value) ∷ m
        | gt ↦ p ∷ more
      ]

  -- `emplace_back` of a node that has its children.
  abbrev pub push_node : NodeVector D → Head D → NodeVector D → NodeVector D
  push_node no_node h children = with_node h children no_node
  push_node (with_node g inner rest) h children = with_node g inner (push_node rest h children)

-- A node on the stack of `read_from`, and the nodes in front of it in the vector that it is in.
pub record Frame (D : Type 0) : Type 0 where
  pub before : NodeVector D
  pub node : Head D

-- The variables of `Document::read_from`: the stack, the last node pushed first, and the vector that
-- `node_list` points to: the children of that node, or the nodes of the document where the stack is empty.
pub record ReadState (D : Type 0) : Type 0 where
  pub stack : List (Frame D)
  pub node_list : NodeVector D

-- How reading ends: with a document, with an exception, or with undefined behaviour: the end of a node or
-- an entry where no node is open.
pub data Result (D : Type 0) : Type 0 where
  document : NodeVector D → Result D
  throws_parse_error : Bytes → Result D
  throws_logic_error undefined_behaviour : Result D

module _ {D : Type 0} where
  -- The document, where nodes may still be open.
  abbrev pub whole_document : List (Frame D) → NodeVector D → NodeVector D
  whole_document [] nodes = nodes
  whole_document (f ∷ stack) nodes = whole_document stack (push_node f.before f.node nodes)

  abbrev pub error_text : Value D → Bytes
  error_text (string s) = s
  error_text _ = []

  -- `node_list->emplace_back(...)`, and the push on the stack.
  abbrev pub open_node : Event D → ReadState D → ReadState D
  open_node ev s = record {
    stack =
        record {
          before = s.node_list;
          node = record {
            type_annotation = ev.type_annotation;
            name = borrow_str ev.name;
            args = [];
            properties = [];
          };
        }
        ∷ s.stack;
    node_list = no_node;
  }

  -- `case KDL_EVENT_END_NODE`
  abbrev pub close_node : List (Frame D) → NodeVector D → Option (ReadState D)
  close_node [] nodes = none
  close_node (f ∷ stack) nodes =
      some record { stack = stack; node_list = push_node f.before f.node nodes }

  -- A change of `*current_node`.
  abbrev pub change_node : (Head D → Head D) → ReadState D → List (Frame D) → Option (ReadState D)
  change_node change s [] = none
  change_node change s (f ∷ stack) =
      some (record s { stack = record f { node = change f.node } ∷ stack })

  abbrev pub add_arg : Event D → Head D → Head D
  add_arg ev h = record h { args = h.args ++ (to_value ev.type_annotation ev.value ∷ []) }

  abbrev pub set_property : Event D → Head D → Head D
  set_property ev h = record h {
    properties = assign (borrow_str ev.name) (to_value ev.type_annotation ev.value) h.properties;
  }

  abbrev pub or_undefined :
      Option (ReadState D) → (ReadState D → Option (Result D)) → Option (Result D)
  or_undefined none again = some undefined_behaviour
  or_undefined (some s) again = again s

  -- The switch over the kind of the event; `again` is the next round.
  unfoldable pub read_event :
      EventKind → Event D → (ReadState D → Option (Result D)) → ReadState D → Option (Result D)
  unfolding assign
  read_event eof ev again s = some (document (whole_document s.stack s.node_list))
  read_event parse_error ev again s = some (throws_parse_error (error_text ev.value))
  read_event start_node ev again s = again (open_node ev s)
  read_event end_node ev again s = or_undefined (close_node s.stack s.node_list) again
  read_event argument ev again s = or_undefined (change_node (add_arg ev) s s.stack) again
  read_event property ev again s = or_undefined (change_node (set_property ev) s s.stack) again
  read_event comment ev again s = some throws_logic_error

  module _ {P : Type 0} (next : P → Option (Event D × P)) where
    -- The loop of `Document::read_from` over what `kdl_parser_next_event` answers; an event with
    -- KDL_EVENT_COMMENT in it is none of the cases.
    unfoldable pub read_loop : ℕ → P → ReadState D → Option (Result D)
    unfolding read_event
    read_loop zero p s = none
    read_loop (suc fuel) p s = elim (next p) [
      | none ↦ none
      | some r ↦ elim (r.0.commented) [
        | true ↦ some throws_logic_error
        | false ↦ read_event r.0.kind r.0 (read_loop fuel r.1) s
      ]
    ]

    -- `Document::read_from`
    unfoldable pub read_from : ℕ → P → Option (Result D)
    unfolding read_loop
    read_from fuel p = read_loop fuel p (record { stack = []; node_list = no_node })
