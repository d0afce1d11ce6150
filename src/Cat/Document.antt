-- ===== src/Cat/Document.antt =====
-- src/utils/ckdl-cat.c: the events of a document, and the document that the tool makes of it.
use ckdl.Prelude.{◌≡◌, refl, false, Option, none, some, List, [], ◌∷◌, ◌++◌, Bytes}
use ckdl.Parser.{Value, null, EventKind, eof, start_node, end_node, argument, property, Event}
use ckdl.Emitter.Document.{Entry, Line, Nodes, no_more, leaf, block}
use ckdl.Cat.{Property, sorted_properties}

module _ {D : Type 0} where
  -- The events of a document, as `kdl_parser_next_event` answers them.
  abbrev pub plain_event : EventKind → Option Bytes → Option Bytes → Value D → Event D
  plain_event kind name t v = record {
    kind = kind;
    commented = false;
    name = name;
    type_annotation = t;
    value = v;
  }

  abbrev pub entry_event : Entry D → Event D
  entry_event (Entry.argument t v) = plain_event argument none t v
  entry_event (Entry.property name t v) = plain_event property (some name) t v

  abbrev pub start_event : Line D → Event D
  start_event l = plain_event start_node (some l.name) l.type null

  abbrev pub end_event : Event D
  end_event = plain_event end_node none none null

  -- The events of nodes, in front of others.
  abbrev pub entry_events : List (Entry D) → List (Event D) → List (Event D)
  entry_events [] rest = rest
  entry_events (x ∷ xs) rest = entry_event x ∷ entry_events xs rest

  abbrev pub node_events : Nodes D → List (Event D) → List (Event D)
  node_events no_more rest = rest
  node_events (leaf l ns) rest =
      start_event l ∷ entry_events l.entries (end_event ∷ node_events ns rest)
  node_events (block l inner ns) rest =
      start_event l ∷ entry_events l.entries (node_events inner (end_event ∷ node_events ns rest))

  abbrev pub document_events : Nodes D → List (Event D)
  document_events ns = node_events ns (plain_event eof none none null ∷ [])

  -- The arguments of a node, and its properties.
  abbrev pub arguments : List (Entry D) → List (Entry D)
  arguments [] = []
  arguments (Entry.argument t v ∷ xs) = Entry.argument t v ∷ arguments xs
  arguments (Entry.property name t v ∷ xs) = arguments xs

  abbrev pub properties : List (Entry D) → List (Property D)
  properties [] = []
  properties (Entry.argument t v ∷ xs) = properties xs
  properties (Entry.property name t v ∷ xs) =
      record { name = name; type_annotation = t; value = v } ∷ properties xs

  abbrev pub property_entries : List (Property D) → List (Entry D)
  property_entries [] = []
  property_entries (p ∷ ps) = Entry.property p.name p.type_annotation p.value ∷ property_entries ps

  -- The document that is written: in each node the arguments, and then the properties, sorted; a child
  -- block only where there are children.
  abbrev pub sort_line : Line D → Line D
  sort_line l = record l {
    entries = arguments l.entries ++ property_entries (sorted_properties (properties l.entries));
  }

  abbrev pub with_children : Line D → Nodes D → Nodes D → Nodes D
  with_children l no_more rest = leaf l rest
  with_children l inner rest = block l inner rest

  -- A node with children keeps them.
  pub keeps_children :
      (l l' : Line D) (inner rest ns : Nodes D)
      → with_children l (with_children l' inner rest) ns ≡ block l (with_children l' inner rest) ns
  keeps_children l l' no_more rest ns = refl
  keeps_children l l' (leaf m more) rest ns = refl
  keeps_children l l' (block m inner more) rest ns = refl

  abbrev pub sort_document : Nodes D → Nodes D
  sort_document no_more = no_more
  sort_document (leaf l rest) = leaf (sort_line l) (sort_document rest)
  sort_document (block l inner rest) =
      with_children (sort_line l) (sort_document inner) (sort_document rest)

  -- The events that are left, as a source of events.
  abbrev pub next_of_list : List (Event D) → Option (Event D × List (Event D))
  next_of_list [] = none
  next_of_list (ev ∷ evs) = some (ev, evs)
