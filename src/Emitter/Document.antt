-- ===== src/Emitter/Document.antt =====
-- A document as a tree, its layout as text, and the calls of src/emitter.c that write it.
use ckdl.Prelude.{ℕ, ◌+◌, ◌*◌, true, Option, none, some, List, [], ◌∷◌, ◌++◌, Bytes, codes}
use ckdl.Parser.{Value}
use ckdl.Emitter.{EmitterOptions, WriteFunc, Emit, ◌and_then◌}
use ckdl.Emitter.Digits.{replicate}
use ckdl.Emitter.Texts.{name_text, type_text, value_text}
use ckdl.Emitter.Float.{PrintFloats}
use ckdl.Emitter.Nodes.{
  emit_node, emit_node_with_type, emit_arg, emit_property, start_emitting_children,
  finish_emitting_children, emit_end,
}

pub data Entry (D : Type 0) : Type 0 where
  argument : Option Bytes → Value D → Entry D
  property : Bytes → Option Bytes → Value D → Entry D

-- The type annotation, the name, and the entries of a node.
pub record Line (D : Type 0) : Type 0 where
  pub type : Option Bytes
  pub name : Bytes
  pub entries : List (Entry D)

-- Nodes in a row: `leaf` has no child block, `block` has one.
pub data Nodes (D : Type 0) : Type 0 where
  no_more : Nodes D
  leaf : Line D → Nodes D → Nodes D
  block : Line D → Nodes D → Nodes D → Nodes D

module _ {D : Type 0} (o : EmitterOptions) (float_text : D → Bytes) where
  abbrev pub spaces : ℕ → Bytes
  spaces d = replicate (d * o.indent) b' '

  abbrev pub head_text : Option Bytes → Bytes → Bytes
  head_text none name = name_text o name
  head_text (some t) name = type_text o t ++ name_text o name

  abbrev pub entry_text : Entry D → Bytes
  entry_text (argument t v) = codes " " ++ value_text o float_text t v
  entry_text (property name t v) =
      codes " " ++ (name_text o name ++ (codes "=" ++ value_text o float_text t v))

  abbrev pub entries_text : List (Entry D) → Bytes
  entries_text [] = []
  entries_text (x ∷ xs) = entry_text x ++ entries_text xs

  abbrev pub line_text : Line D → Bytes
  line_text l = head_text l.type l.name ++ entries_text l.entries

  -- The layout of nodes at a depth: a line for each, and `}` on a line below a child block.
  unfoldable pub layout : ℕ → Nodes D → Bytes
  layout d no_more = []
  layout d (leaf l rest) = spaces d ++ (line_text l ++ (codes "\n" ++ layout d rest))
  layout d (block l inner rest) =
      spaces d
      ++ (line_text l
          ++ (codes " {\n"
              ++ (layout (d + 1) inner ++ (spaces d ++ (codes "}\n" ++ layout d rest)))))

-- The calls that a writer of the document makes.
module _ {W : Type 0} (write_func : WriteFunc W) {D : Type 0} (F : PrintFloats D) (fuel : ℕ) where
  abbrev pub nothing : Emit W
  nothing e = (e, true)

  abbrev pub emit_entries : List (Entry D) → Emit W
  unfolding emit_arg emit_property
  emit_entries [] = nothing
  emit_entries (argument t v ∷ xs) = emit_arg write_func F fuel t v and_then emit_entries xs
  emit_entries (property name t v ∷ xs) =
      emit_property write_func F fuel name t v and_then emit_entries xs

  abbrev pub emit_head : Option Bytes → Bytes → Emit W
  unfolding emit_node emit_node_with_type
  emit_head none name = emit_node write_func name
  emit_head (some t) name = emit_node_with_type write_func t name

  abbrev pub emit_line : Line D → Emit W
  emit_line l = emit_head l.type l.name and_then emit_entries l.entries

  unfoldable pub emit_nodes : Nodes D → Emit W
  unfolding emit_node
  emit_nodes no_more = nothing
  emit_nodes (leaf l rest) = emit_line l and_then emit_nodes rest
  emit_nodes (block l inner rest) =
      emit_line l
      and_then (start_emitting_children write_func
          and_then (emit_nodes inner
              and_then (finish_emitting_children write_func and_then emit_nodes rest)))

  -- The document, and the end.
  unfoldable pub emit_document : Nodes D → Emit W
  unfolding emit_nodes emit_end
  emit_document ns = emit_nodes ns and_then emit_end write_func
