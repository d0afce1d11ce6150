-- ===== src/Kdlpp/Agrees.antt =====
-- src/bindings/cpp/src/kdlpp.cpp and src/utils/ckdl-cat.c: both write a document in the same way.
use ckdl.Prelude.{ℕ, ◌≡◌, sym, ap, ◌∙◌, some, true, false, length}
use ckdl.Emitter.{Emitter, WriteFunc, ◌and_then◌}
use ckdl.Emitter.Float.{PrintFloats}
use ckdl.Emitter.Nodes.{emit_end}
use ckdl.Emitter.Document.{Nodes, emit_nodes, emit_document}
use ckdl.Cat.Loop.{cat_impl}
use ckdl.Cat.Document.{next_of_list, document_events}
use ckdl.Cat.Calls.{cat_impl_lem}
use ckdl.Kdlpp.Emission.{emit_node_vector}
use ckdl.Kdlpp.Documents.{vector_of}
use ckdl.Kdlpp.Writing.{emit_node_vector_lem}
use ckdl.Kdlpp.Sorted.{ShortDocument, tree_of-vector_of}

-- Over the events of a document whose property names are below 2^31 bytes, ckdl-cat makes, on every sink, the
-- calls of the C++ `emit_nodes` on the document that `Document::read_from` makes of the same events, and then
-- ends the emitter, if they went well.
pub cat_impl-emit_node_vector :
    {W : Type 0} (write_func : WriteFunc W) {D : Type 0} (F : PrintFloats D) (digits : ℕ)
    (ns : Nodes D) (e : Emitter W)
    → ShortDocument ns
    → cat_impl write_func F digits next_of_list (length (document_events ns)) (document_events ns) e
      ≡ some ((emit_node_vector write_func F digits (vector_of ns) and_then emit_end write_func) e)
unfolding emit_document
cat_impl-emit_node_vector write_func F digits ns e h =
    let same =
      emit_node_vector_lem write_func F digits (vector_of ns) e
      ∙ ap (λ x. emit_nodes write_func F digits x e) (tree_of-vector_of ns h) in
    cat_impl_lem write_func F digits ns e
    ∙ ap (λ r. some (elim (r.1) [ true ↦ emit_end write_func r.0 | false ↦ (r.0, false) ]))
        (sym same)
