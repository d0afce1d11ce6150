-- ===== src/Cat/Calls.antt =====
-- src/utils/ckdl-cat.c: over the events of a document, `kdl_cat_impl` makes the calls that write it with the
-- properties of each node sorted.
use ckdl.Prelude.{
  ℕ, ◌≡◌, refl, sym, ap, ◌∙◌, Bool, true, false, none, some, List, [], ◌∷◌, Bytes, length,
}
use ckdl.Parser.{null, eof, Event}
use ckdl.Str.Buffer.{WriteBuffer}
use ckdl.Emitter.{
  Emitter, EmitterOptions, WriteFunc, ◌and_then◌, buffer_write_func, create_buffering_emitter,
}
use ckdl.Emitter.Float.{PrintFloats, float_to_string}
use ckdl.Emitter.Layout.{buffered_document_lem}
use ckdl.Emitter.Nodes.{
  start_emitting_children, finish_emitting_children, emit_end, get_emitter_buffer,
}
use ckdl.Emitter.Document.{
  Line, Nodes, layout, no_more, leaf, block, emit_entries, emit_head, emit_line, emit_nodes,
  emit_document,
}
use ckdl.Cat.{Property}
use ckdl.Cat.Loop.{proplist_emit, or_fail, start_of_node, cat_event, cat_loop, cat_impl}
use ckdl.Cat.Document.{
  plain_event, start_event, end_event, entry_events, node_events, document_events, arguments,
  properties, sort_line, keeps_children, sort_document, next_of_list,
}
use ckdl.Cat.Lines.{or_fail-then, or_fail-same, run, inside, outside, line-run, sort_line-run}

module _ {W : Type 0} (write_func : WriteFunc W) {D : Type 0} (F : PrintFloats D) (digits : ℕ) where
  -- The first child ends the line of its parent.
  abbrev Enters : Nodes D → Type 0
  Enters inner =
      (rest : List (Event D)) (ps : List (Property D)) (e : Emitter W)
      → run write_func F digits (node_events inner rest) (inside write_func F digits ps) e
        ≡ or_fail
            ((proplist_emit write_func F digits ps and_then start_emitting_children write_func) e)
            (run write_func F digits (node_events inner rest) (outside write_func F digits))

  -- The loop writes the nodes, and goes on.
  abbrev Writes : Nodes D → Type 0
  Writes ns =
      (rest : List (Event D)) (e : Emitter W)
      → run write_func F digits (node_events ns rest) (outside write_func F digits) e
        ≡ or_fail (emit_nodes write_func F digits (sort_document ns) e)
            (run write_func F digits rest (outside write_func F digits))

  node-Enters :
      (l : Line D) (evs : List (Event D)) (ps : List (Property D)) (e : Emitter W)
      → run write_func F digits (start_event l ∷ evs) (inside write_func F digits ps) e
        ≡ or_fail
            ((proplist_emit write_func F digits ps and_then start_emitting_children write_func) e)
            (run write_func F digits (start_event l ∷ evs) (outside write_func F digits))
  unfolding cat_loop cat_event
  node-Enters l evs ps e =
      or_fail-then
        (proplist_emit write_func F digits ps and_then start_emitting_children write_func)
        (start_of_node write_func F digits l.type l.name) e
        (run write_func F digits evs (inside write_func F digits []))

  leaf-Writes :
      (l : Line D) (ns : Nodes D)
      → Writes ns
      → (rest : List (Event D)) (e : Emitter W)
      → run write_func F digits (node_events (leaf l ns) rest) (outside write_func F digits) e
        ≡ or_fail
            (emit_nodes write_func F digits (leaf (sort_line l) (sort_document ns)) e)
            (run write_func F digits rest (outside write_func F digits))
  unfolding emit_nodes cat_loop cat_event
  leaf-Writes l ns h rest e =
      line-run write_func F digits l (end_event ∷ node_events ns rest) e
      ∙ (or_fail-same (emit_head write_func F digits l.type l.name e) (λ e'.
            or_fail-same (emit_entries write_func F digits (arguments l.entries) e') (λ e''.
              or_fail-same (proplist_emit write_func F digits (properties l.entries) e'') (h rest)))
          ∙ (sym (
                sort_line-run write_func F digits l e (λ e'.
                  or_fail (emit_nodes write_func F digits (sort_document ns) e')
                    (run write_func F digits rest (outside write_func F digits))))
              ∙ sym (
                  or_fail-then (emit_line write_func F digits (sort_line l))
                    (emit_nodes write_func F digits (sort_document ns)) e
                    (run write_func F digits rest (outside write_func F digits)))))

  -- After the entries of a node with children: the child block, and what follows it.
  block-Writes :
      (l : Line D) (inner ns : Nodes D)
      → Enters inner
      → Writes inner
      → Writes ns
      → (rest : List (Event D)) (e : Emitter W)
      → run write_func F digits
          (node_events (block l inner ns) rest)
          (outside write_func F digits)
          e
        ≡ or_fail
            (emit_nodes write_func F digits
              (block (sort_line l) (sort_document inner) (sort_document ns))
              e)
            (run write_func F digits rest (outside write_func F digits))
  unfolding emit_nodes cat_loop cat_event
  block-Writes l inner ns enter h k rest e =
      let behind = end_event ∷ node_events ns rest in
      let children = emit_nodes write_func F digits (sort_document inner) in
      let more = emit_nodes write_func F digits (sort_document ns) in
      let start = start_emitting_children write_func in
      let finish = finish_emitting_children write_func in
      let last = run write_func F digits rest (outside write_func F digits) in
      line-run write_func F digits l (node_events inner behind) e
      ∙ (or_fail-same (emit_head write_func F digits l.type l.name e) (λ e'.
            or_fail-same (emit_entries write_func F digits (arguments l.entries) e') (λ e''.
              enter behind (properties l.entries) e''
              ∙ (or_fail-then (proplist_emit write_func F digits (properties l.entries)) start e'' (
                    run write_func F digits (node_events inner behind)
                      (outside write_func F digits))
                  ∙ or_fail-same (proplist_emit write_func F digits (properties l.entries) e'')
                      (λ x.
                        or_fail-same (start x) (λ y.
                          h behind y
                          ∙ (or_fail-same (children y) (λ z.
                                or_fail-same (finish z) (k rest)
                                ∙ sym (or_fail-then finish more z last))
                              ∙ sym (or_fail-then children (finish and_then more) y last)))
                        ∙ sym (
                            or_fail-then start (children and_then (finish and_then more)) x
                              last)))))
          ∙ (sym (
                sort_line-run write_func F digits l e (λ e'.
                  or_fail ((start and_then (children and_then (finish and_then more))) e') last))
              ∙ sym (
                  or_fail-then (emit_line write_func F digits (sort_line l))
                    (start and_then (children and_then (finish and_then more))) e last)))

  nodes-Writes : (ns : Nodes D) → Writes ns
  unfolding emit_nodes
  nodes-Writes no_more rest e = refl
  nodes-Writes (leaf l ns) rest e = leaf-Writes l ns (nodes-Writes ns) rest e
  nodes-Writes (block l no_more ns) rest e = leaf-Writes l ns (nodes-Writes ns) rest e
  nodes-Writes (block l (leaf l' more) ns) rest e =
      block-Writes l (leaf l' more) ns
        (λ evs. node-Enters l' (entry_events l'.entries (end_event ∷ node_events more evs)))
        (nodes-Writes (leaf l' more)) (nodes-Writes ns) rest e
  nodes-Writes (block l (block l' inner more) ns) rest e =
      block-Writes l (block l' inner more) ns
        (λ evs.
          node-Enters l'
            (entry_events l'.entries (node_events inner (end_event ∷ node_events more evs))))
        (nodes-Writes (block l' inner more)) (nodes-Writes ns) rest e
      ∙ ap
          (λ x.
            or_fail (emit_nodes write_func F digits x e)
              (run write_func F digits rest (outside write_func F digits)))
          (sym (
            keeps_children (sort_line l) (sort_line l') (sort_document inner) (sort_document more)
              (sort_document ns)))

  ending :
      (r : Emitter W × Bool)
      → or_fail r (λ e. some (emit_end write_func e))
        ≡ some (elim (r.1) [ true ↦ emit_end write_func r.0 | false ↦ (r.0, false) ])
  ending (e, true) = refl
  ending (e, false) = refl

  -- Over the events of a document, one round for each of them, `kdl_cat_impl` makes the calls that write
  -- the document with the entries of each node sorted, the arguments in order and then the properties,
  -- without the child blocks that are empty, and the call of `kdl_emit_end`; it stops at the first call
  -- that fails. So it does on every sink, whatever it answers.
  pub cat_impl_lem :
      (ns : Nodes D) (e : Emitter W)
      → cat_impl write_func F digits next_of_list
          (length (document_events ns))
          (document_events ns)
          e
        ≡ some (emit_document write_func F digits (sort_document ns) e)
  unfolding cat_impl cat_loop cat_event emit_document
  cat_impl_lem ns e =
      nodes-Writes ns (plain_event eof none none null ∷ []) e
      ∙ ending (emit_nodes write_func F digits (sort_document ns) e)

-- Over the events of a document, with an emitter as `kdl_create_buffering_emitter` makes it, `kdl_cat_impl`
-- succeeds, and the buffer then holds the layout of the document with the entries of each node sorted. The
-- fuel is enough to print every double.
pub cat_layout_lem :
    (o : EmitterOptions) {D : Type 0} (F : PrintFloats D) (fuel : ℕ) (float_text : D → Bytes)
    → ((f : D) → float_to_string F fuel o.float_mode f ≡ some (float_text f))
    → (ns : Nodes D)
    → (r : Emitter WriteBuffer) × (cat_impl buffer_write_func F fuel next_of_list
          (length (document_events ns))
          (document_events ns)
          (create_buffering_emitter o)
        ≡ some (r, true))
      × (get_emitter_buffer r ≡ layout o float_text 0 (sort_document ns))
cat_layout_lem o F fuel float_text prints ns =
    let b = buffered_document_lem o F fuel float_text prints (sort_document ns) in
    (b.0, cat_impl_lem buffer_write_func F fuel ns (create_buffering_emitter o) ∙ ap some b.1, b.2)
