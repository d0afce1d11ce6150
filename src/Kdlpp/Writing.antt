-- ===== src/Kdlpp/Writing.antt =====
-- src/bindings/cpp/src/kdlpp.cpp: `emit_nodes` makes the calls that write the document, and
-- `Document::to_string` returns what they leave in the buffer.
use ckdl.Prelude.{
  ℕ, ◌≡◌, ◌⊎◌, inl, inr, refl, sym, ap, ◌∙◌, arith, Bool, true, false, if◌then◌else◌, Option, none,
  some, List, [], ◌∷◌, ◌++◌, append-nil, Bytes, codes,
}
use ckdl.Str.Buffer.{new_write_buffer}
use ckdl.Emitter.{
  Emitter, Emit, WriteFunc, ◌and_then◌, buffer_write_func, create_buffering_emitter, answered,
  create_stream_emitter,
}
use ckdl.Emitter.Float.{PrintFloats, float_to_string}
use ckdl.Emitter.Sequence.{then-same, then_assoc}
use ckdl.Emitter.Sink.{buffer_collects}
use ckdl.Emitter.Lines.{line_end}
use ckdl.Emitter.Layout.{nodes-Lays}
use ckdl.Emitter.Nodes.{
  get_emitter_buffer, emit_node, emit_node_with_type, emit_arg, emit_property,
  start_emitting_children, finish_emitting_children,
}
use ckdl.Emitter.Document.{layout, emit_entries, emit_head, emit_line, emit_nodes}
use ckdl.Cat.Document.{keeps_children}
use ckdl.Kdlpp.{CppValue, Head, NodeVector, no_node, with_node, value_of_variant}
use ckdl.Kdlpp.Emission.{
  string_options, emit_args, emit_map, emit_name, emit_node_vector, to_string,
}
use ckdl.Kdlpp.Parse.{KdlVersion}
use ckdl.Kdlpp.Documents.{argument_entries, map_entries, line_of, tree_of}

module _ {W : Type 0} (write_func : WriteFunc W) {D : Type 0} (F : PrintFloats D) (digits : ℕ) where
  map-same :
      (m : List (Bytes × CppValue D)) (e : Emitter W)
      → emit_map write_func F digits m e ≡ emit_entries write_func F digits (map_entries m) e
  unfolding emit_map emit_arg emit_property
  map-same [] e = refl
  map-same (p ∷ m) e =
      then-same
        (emit_property write_func F digits p.0 p.1.type_annotation (value_of_variant p.1.value))
        (emit_map write_func F digits m) (emit_entries write_func F digits (map_entries m)) e
        (map-same m)

  entries-same :
      (vs : List (CppValue D)) (m : List (Bytes × CppValue D)) (e : Emitter W)
      → (emit_args write_func F digits vs and_then emit_map write_func F digits m) e
        ≡ emit_entries write_func F digits (argument_entries vs ++ map_entries m) e
  unfolding emit_args emit_arg emit_property
  entries-same [] m e = map-same m e
  entries-same (v ∷ vs) m e =
      let first = emit_arg write_func F digits v.type_annotation (value_of_variant v.value) in
      then_assoc first (emit_args write_func F digits vs) (emit_map write_func F digits m) e
      ∙ then-same first (emit_args write_func F digits vs and_then emit_map write_func F digits m)
          (emit_entries write_func F digits (argument_entries vs ++ map_entries m)) e
          (entries-same vs m)

  head-same :
      (t : Option Bytes) (name : Bytes)
      → emit_name write_func F digits t name ≡ emit_head write_func F digits t name
  unfolding emit_node emit_node_with_type
  head-same none name = refl
  head-same (some t) name = refl

  swap_first :
      (a b c k : Emit W) (e : Emitter W)
      → (a and_then b) e ≡ c e
      → ((a and_then b) and_then k) e ≡ (c and_then k) e
  swap_first a b c k e h = ap (λ r. elim (r.1) [ true ↦ k r.0 | false ↦ (r.0, false) ]) h

  -- A node, its entries, and what follows.
  line-same :
      (h : Head D) (k k' : Emit W) (e : Emitter W)
      → ((e' : Emitter W) → k e' ≡ k' e')
      → (emit_name write_func F digits h.type_annotation h.name
            and_then (emit_args write_func F digits h.args
                and_then (emit_map write_func F digits h.properties and_then k)))
          e
        ≡ (emit_line write_func F digits (line_of h) and_then k') e
  line-same h k k' e same =
      let name = emit_name write_func F digits h.type_annotation h.name in
      let head = emit_head write_func F digits h.type_annotation h.name in
      let args = emit_args write_func F digits h.args in
      let props = emit_map write_func F digits h.properties in
      let entries = emit_entries write_func F digits (line_of h).entries in
      ap (λ a. (a and_then (args and_then (props and_then k))) e)
        (head-same h.type_annotation h.name)
      ∙ (then-same head (args and_then (props and_then k)) (entries and_then k') e (λ e'.
            sym (then_assoc args props k e')
            ∙ (then-same (args and_then props) k k' e' same
                ∙ swap_first args props entries k' e' (entries-same h.args h.properties e')))
          ∙ sym (then_assoc head entries k' e))

  -- `emit_nodes` makes the calls of the document as a tree, on every sink, and fails where one of them does.
  pub emit_node_vector_lem :
      (v : NodeVector D) (e : Emitter W)
      → emit_node_vector write_func F digits v e ≡ emit_nodes write_func F digits (tree_of v) e
  unfolding emit_node_vector emit_nodes
  emit_node_vector_lem no_node e = refl
  emit_node_vector_lem (with_node h no_node rest) e =
      line-same h _ (emit_nodes write_func F digits (tree_of rest)) e (emit_node_vector_lem rest)
  emit_node_vector_lem (with_node h (with_node g inner more) rest) e =
      let children = with_node g inner more in
      let start = start_emitting_children write_func in
      let finish = finish_emitting_children write_func in
      let inside = emit_node_vector write_func F digits children in
      let inside' = emit_nodes write_func F digits (tree_of children) in
      let after = emit_node_vector write_func F digits rest in
      let after' = emit_nodes write_func F digits (tree_of rest) in
      line-same h ((start and_then (inside and_then finish)) and_then after)
        (start and_then (inside' and_then (finish and_then after'))) e
        (λ x.
          then_assoc start (inside and_then finish) after x
          ∙ then-same start ((inside and_then finish) and_then after)
              (inside' and_then (finish and_then after')) x
              (λ y.
                then_assoc inside finish after y
                ∙ (then-same inside (finish and_then after) (finish and_then after') y
                      (λ z. then-same finish after after' z (emit_node_vector_lem rest))
                    ∙ ap
                        (λ r. elim (r.1) [
                          | true ↦ (finish and_then after') r.0
                          | false ↦ (r.0, false)
                        ])
                        (emit_node_vector_lem (with_node g inner more) y))))
      ∙ ap (λ n. emit_nodes write_func F digits n e)
          (sym
            (keeps_children (line_of h) (line_of g) (tree_of inner) (tree_of more) (tree_of rest)))

-- What the line end that is still to come leaves.
ended : {s t : Bytes} (b : Bool) → s ++ line_end b ≡ t → (s ≡ t) ⊎ (s ++ codes "\n" ≡ t)
ended true e = inl (sym (append-nil _) ∙ e)
ended false e = inr e

-- `Document::to_string` succeeds and returns the layout of the document, or the layout without the newline at
-- its end. The fuel is enough to print every double.
pub to_string_lem :
    (version : KdlVersion) {D : Type 0} (F : PrintFloats D) (fuel : ℕ) (float_text : D → Bytes)
    → ((f : D) → float_to_string F fuel (string_options version).float_mode f ≡ some (float_text f))
    → (v : NodeVector D)
    → (s : Bytes) × (to_string F fuel version v ≡ some (some s))
      × ((s ≡ layout (string_options version) float_text 0 (tree_of v))
          ⊎ (s ++ codes "\n" ≡ layout (string_options version) float_text 0 (tree_of v)))
unfolding to_string create_buffering_emitter create_stream_emitter get_emitter_buffer
    buffer_collects new_write_buffer
to_string_lem version F fuel float_text prints v =
    let o = string_options version in
    let laid = nodes-Lays buffer_collects o F fuel float_text prints (tree_of v) 0 true in
    let done = laid.2.goes (new_write_buffer 4096) (omega arith) in
    let written =
      emit_node_vector_lem buffer_write_func F fuel v (create_buffering_emitter o) ∙ done.1 in
    (
      done.0.text,
      ap (λ r. answered r.0 (if r.1 then some (get_emitter_buffer r.0) else none)) written,
      ended laid.0 (ap (λ x. x ++ line_end laid.0) done.2 ∙ laid.3),
    )
