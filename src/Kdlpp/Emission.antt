-- ===== src/Kdlpp/Emission.antt =====
-- src/bindings/cpp/src/kdlpp.cpp: `emit_nodes` and `Document::to_string`.
use ckdl.Prelude.{ℕ, true, if◌then◌else◌, Option, none, some, List, [], ◌∷◌, Bytes}
use ckdl.Grammar.{version_1, version_2}
use ckdl.Emitter.{
  EmitterOptions, WriteFunc, Emit, ◌and_then◌, buffer_write_func, default_emitter_options,
  create_buffering_emitter, answered,
}
use ckdl.Emitter.Float.{PrintFloats}
use ckdl.Emitter.Nodes.{
  get_emitter_buffer, emit_node, emit_node_with_type, emit_arg, emit_property,
  start_emitting_children, finish_emitting_children,
}
use ckdl.Kdlpp.{CppValue, NodeVector, no_node, with_node, value_of_variant}
use ckdl.Kdlpp.Parse.{KdlVersion, kdl_1, kdl_2, any}

module _ {W : Type 0} (write_func : WriteFunc W) {D : Type 0} (F : PrintFloats D) (digits : ℕ) where
  -- The calls of `emit_nodes`; where one fails, EmitterError is thrown.
  unfoldable pub emit_args : List (CppValue D) → Emit W
  unfolding emit_arg
  emit_args [] e = (e, true)
  emit_args (v ∷ vs) e =
      (emit_arg write_func F digits v.type_annotation (value_of_variant v.value)
          and_then emit_args vs)
        e

  unfoldable pub emit_map : List (Bytes × CppValue D) → Emit W
  unfolding emit_property
  emit_map [] e = (e, true)
  emit_map (p ∷ m) e =
      (emit_property write_func F digits p.0 p.1.type_annotation (value_of_variant p.1.value)
          and_then emit_map m)
        e

  abbrev pub emit_name : Option Bytes → Bytes → Emit W
  emit_name none name = emit_node write_func name
  emit_name (some t) name = emit_node_with_type write_func t name

  -- `if (!node.children().empty())`; `inner` writes the children.
  abbrev pub emit_children : NodeVector D → Emit W → Emit W
  emit_children no_node inner e = (e, true)
  emit_children (with_node h children rest) inner e =
      (start_emitting_children write_func
          and_then (inner and_then finish_emitting_children write_func))
        e

  -- `emit_nodes`
  unfoldable pub emit_node_vector : NodeVector D → Emit W
  unfolding emit_args emit_map emit_node emit_node_with_type start_emitting_children
      finish_emitting_children
  emit_node_vector no_node e = (e, true)
  emit_node_vector (with_node h children rest) e =
      (emit_name h.type_annotation h.name
          and_then (emit_args h.args
              and_then (emit_map h.properties
                  and_then (emit_children children (emit_node_vector children)
                      and_then emit_node_vector rest))))
        e

-- `opts` of `Document::to_string`.
abbrev pub string_options : KdlVersion → EmitterOptions
string_options kdl_1 = record default_emitter_options { version = version_1 }
string_options kdl_2 = record default_emitter_options { version = version_2 }
string_options any = default_emitter_options

-- `Document::to_string`: the buffer is read before the emitter is ended. The inner `none` is EmitterError.
unfoldable pub to_string :
    {D : Type 0} → PrintFloats D → ℕ → KdlVersion → NodeVector D → Option (Option Bytes)
unfolding emit_node_vector create_buffering_emitter get_emitter_buffer
to_string F digits version nodes =
    let r =
      emit_node_vector buffer_write_func F digits nodes
        (create_buffering_emitter (string_options version)) in
    answered r.0 (if r.1 then some (get_emitter_buffer r.0) else none)
