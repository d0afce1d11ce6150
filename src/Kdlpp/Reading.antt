-- ===== src/Kdlpp/Reading.antt =====
-- src/bindings/cpp/src/kdlpp.cpp: `Document::read_from` makes the tree whose events it is given.
use ckdl.Prelude.{◌≡◌, refl, sym, ap, ◌∙◌, Option, none, some, List, [], ◌∷◌, length}
use ckdl.Parser.{Event, null, eof}
use ckdl.Emitter.Document.{Entry, argument, property, Nodes, no_more, leaf, block}
use ckdl.Cat.Document.{
  plain_event, entry_events, node_events, end_event, document_events, next_of_list,
}
use ckdl.Kdlpp.{
  Head, NodeVector, no_node, with_node, Frame, ReadState, Result, document, push_node, read_event,
  read_loop, read_from,
}
use ckdl.Kdlpp.Documents.{add_entries, empty_head, head_of, vector_of}

module _ {D : Type 0} where
  abbrev followed_by : NodeVector D → NodeVector D → NodeVector D
  followed_by no_node ns = ns
  followed_by (with_node h inner rest) ns = with_node h inner (followed_by rest ns)

  followed_by_none : (ns : NodeVector D) → followed_by ns no_node ≡ ns
  followed_by_none no_node = refl
  followed_by_none (with_node h inner rest) = ap (with_node h inner) (followed_by_none rest)

  followed_by-push_node :
      (ns : NodeVector D) (h : Head D) (inner rest : NodeVector D)
      → followed_by (push_node ns h inner) rest ≡ followed_by ns (with_node h inner rest)
  followed_by-push_node no_node h inner rest = refl
  followed_by-push_node (with_node g more ns) h inner rest =
      ap (with_node g more) (followed_by-push_node ns h inner rest)

  -- The loop over events, of which each round takes one.
  abbrev run : List (Event D) → ReadState D → Option (Result D)
  run evs = read_loop next_of_list (length evs) evs

  abbrev reading : List (Frame D) → NodeVector D → ReadState D
  reading stack nodes = record { stack = stack; node_list = nodes }

  abbrev frame : NodeVector D → Head D → Frame D
  frame before h = record { before = before; node = h }

  entries-run :
      (xs : List (Entry D)) (rest : List (Event D)) (before : NodeVector D) (h : Head D)
      (stack : List (Frame D)) (nodes : NodeVector D)
      → run (entry_events xs rest) (reading (frame before h ∷ stack) nodes)
        ≡ run rest (reading (frame before (add_entries xs h) ∷ stack) nodes)
  unfolding read_loop read_event
  entries-run [] rest before h stack nodes = refl
  entries-run (argument t v ∷ xs) rest before h stack nodes =
      entries-run xs rest before _ stack nodes
  entries-run (property name t v ∷ xs) rest before h stack nodes =
      entries-run xs rest before _ stack nodes

  nodes-run :
      (ns : Nodes D) (rest : List (Event D)) (stack : List (Frame D)) (before : NodeVector D)
      → run (node_events ns rest) (reading stack before)
        ≡ run rest (reading stack (followed_by before (vector_of ns)))
  unfolding read_loop read_event
  nodes-run no_more rest stack before =
      ap (λ x. run rest (reading stack x)) (sym (followed_by_none before))
  nodes-run (leaf l ns) rest stack before =
      entries-run l.entries (end_event ∷ node_events ns rest) before (empty_head l.type l.name)
        stack no_node
      ∙ (nodes-run ns rest stack (push_node before (head_of l) no_node)
          ∙ ap (λ x. run rest (reading stack x))
              (followed_by-push_node before (head_of l) no_node (vector_of ns)))
  nodes-run (block l inner ns) rest stack before =
      entries-run l.entries (node_events inner (end_event ∷ node_events ns rest)) before
        (empty_head l.type l.name) stack no_node
      ∙ (nodes-run inner (end_event ∷ node_events ns rest) (frame before (head_of l) ∷ stack)
            no_node
          ∙ (nodes-run ns rest stack (push_node before (head_of l) (vector_of inner))
              ∙ ap (λ x. run rest (reading stack x))
                  (followed_by-push_node before (head_of l) (vector_of inner) (vector_of ns))))

  -- Over the events of a document, one round for each of them, `Document::read_from` returns the document:
  -- its nodes in order with their names, type annotations and children, the arguments of each in order, and
  -- its properties assigned to its map one after the other.
  pub read_from_lem :
      (ns : Nodes D)
      → read_from next_of_list (length (document_events ns)) (document_events ns)
        ≡ some (document (vector_of ns))
  unfolding read_from read_loop read_event
  read_from_lem ns = nodes-run ns (plain_event eof none none null ∷ []) [] no_node
