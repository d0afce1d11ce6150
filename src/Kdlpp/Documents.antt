-- ===== src/Kdlpp/Documents.antt =====
-- src/bindings/cpp: the document that `Document::read_from` makes of a tree, and a document in C++ as a tree.
use ckdl.Prelude.{Option, List, [], ◌∷◌, ◌++◌, Bytes}
use ckdl.Emitter.Document.{Entry, argument, property, Line, Nodes, no_more, leaf, block}
use ckdl.Cat.Document.{with_children}
use ckdl.Kdlpp.{CppValue, Head, NodeVector, no_node, with_node, to_value, value_of_variant, assign}

module _ {D : Type 0} where
  -- The entries that a node gets, one after the other.
  abbrev pub add_entry : Entry D → Head D → Head D
  add_entry (argument t v) h = record h { args = h.args ++ (to_value t v ∷ []) }
  add_entry (property name t v) h = record h {
    properties = assign name (to_value t v) h.properties;
  }

  abbrev pub add_entries : List (Entry D) → Head D → Head D
  add_entries [] h = h
  add_entries (x ∷ xs) h = add_entries xs (add_entry x h)

  abbrev pub empty_head : Option Bytes → Bytes → Head D
  empty_head t name = record { type_annotation = t; name = name; args = []; properties = [] }

  abbrev pub head_of : Line D → Head D
  head_of l = add_entries l.entries (empty_head l.type l.name)

  abbrev pub vector_of : Nodes D → NodeVector D
  vector_of no_more = no_node
  vector_of (leaf l ns) = with_node (head_of l) no_node (vector_of ns)
  vector_of (block l inner ns) = with_node (head_of l) (vector_of inner) (vector_of ns)

  -- A document in C++ as a tree.
  abbrev pub argument_entries : List (CppValue D) → List (Entry D)
  argument_entries [] = []
  argument_entries (v ∷ vs) =
      argument v.type_annotation (value_of_variant v.value) ∷ argument_entries vs

  abbrev pub map_entries : List (Bytes × CppValue D) → List (Entry D)
  map_entries [] = []
  map_entries (p ∷ m) =
      property p.0 p.1.type_annotation (value_of_variant p.1.value) ∷ map_entries m

  abbrev pub line_of : Head D → Line D
  line_of h = record {
    type = h.type_annotation;
    name = h.name;
    entries = argument_entries h.args ++ map_entries h.properties;
  }

  abbrev pub tree_of : NodeVector D → Nodes D
  tree_of no_node = no_more
  tree_of (with_node h children rest) = with_children (line_of h) (tree_of children) (tree_of rest)
