-- ===== src/Cat/Loop.antt =====
-- src/utils/ckdl-cat.c: `proplist_emit`, `kdl_cat_impl`, and the functions that run it.
use ckdl.Prelude.{
  ℕ, zero, suc, Bool, true, false, Option, none, some, List, [], ◌∷◌, if◌then◌else◌, Bytes,
}
use ckdl.Number.{Floats}
use ckdl.Str.UnescapeV2.{borrow_str}
use ckdl.Parser.{
  ParseOption, EventKind, eof, parse_error, start_node, end_node, argument, property, comment,
  Event, Parser, create_stream_parser,
}
use ckdl.Parser.Next.{next_event}
use ckdl.Emitter.{
  EmitterOptions, Emitter, WriteFunc, Emit, ◌and_then◌, buffer_write_func, create_stream_emitter,
  answered, create_buffering_emitter,
}
use ckdl.Emitter.Float.{PrintFloats}
use ckdl.Emitter.Nodes.{
  get_emitter_buffer, emit_node, emit_node_with_type, emit_arg, emit_property,
  start_emitting_children, finish_emitting_children, emit_end,
}
use ckdl.Cat.{Property, sorted_properties, proplist_append}

-- The variables of `kdl_cat_impl`.
pub record CatState (D : Type 0) : Type 0 where
  pub in_node_list : Bool
  pub props : List (Property D)

module _ {W : Type 0} where
  -- `if (!...) return false;`, and what follows it.
  abbrev pub or_fail :
      Emitter W × Bool → (Emitter W → Option (Emitter W × Bool)) → Option (Emitter W × Bool)
  or_fail r again = elim (r.1) [ true ↦ again r.0 | false ↦ some (r.0, false) ]

module _ {W : Type 0} (write_func : WriteFunc W) {D : Type 0} (F : PrintFloats D) (digits : ℕ) where
  unfoldable pub emit_properties : List (Property D) → Emit W
  unfolding emit_property
  emit_properties [] e = (e, true)
  emit_properties (p ∷ ps) e =
      (emit_property write_func F digits p.name p.type_annotation p.value
          and_then emit_properties ps)
        e

  -- `proplist_emit`
  unfoldable pub proplist_emit : List (Property D) → Emit W
  unfolding emit_properties sorted_properties
  proplist_emit ps = emit_properties (sorted_properties ps)

  -- `case KDL_EVENT_START_NODE`: the end of the line of the parent, and the node.
  abbrev pub enter_block : CatState D → Emit W
  enter_block s e =
      if s.in_node_list
      then (e, true)
      else (proplist_emit s.props and_then start_emitting_children write_func) e

  abbrev pub start_of_node : Option Bytes → Bytes → Emit W
  start_of_node none name = emit_node write_func name
  start_of_node (some t) name = emit_node_with_type write_func t name

  -- `case KDL_EVENT_END_NODE`
  abbrev pub end_of_node : CatState D → Emit W
  end_of_node s e =
      if s.in_node_list then finish_emitting_children write_func e else proplist_emit s.props e

  -- The properties that are left where the list is cleared if a node was open.
  abbrev pub cleared : CatState D → List (Property D)
  cleared s = if s.in_node_list then s.props else []

  -- The switch over the kind of the event; `again` is the next round.
  unfoldable pub cat_event :
      EventKind
      → Event D
      → (CatState D → Emitter W → Option (Emitter W × Bool))
      → CatState D
      → Emitter W
      → Option (Emitter W × Bool)
  unfolding proplist_emit emit_node emit_node_with_type start_emitting_children
      finish_emitting_children emit_arg emit_end
  cat_event eof ev again s e = some (emit_end write_func e)
  cat_event parse_error ev again s e = some (e, false)
  cat_event start_node ev again s e =
      or_fail ((enter_block s and_then start_of_node ev.type_annotation (borrow_str ev.name)) e)
        (again record { in_node_list = false; props = cleared s })
  cat_event end_node ev again s e =
      or_fail (end_of_node s e) (again record { in_node_list = true; props = cleared s })
  cat_event argument ev again s e =
      or_fail (emit_arg write_func F digits ev.type_annotation ev.value e) (again s)
  cat_event property ev again s e = again (record s { props = proplist_append s.props ev }) e
  cat_event comment ev again s e = some (e, false)

  module _ {P : Type 0} (next_event : P → Option (Event D × P)) where
    -- The loop of `kdl_cat_impl` over what `kdl_parser_next_event` answers; an event with
    -- KDL_EVENT_COMMENT in it is none of the cases. `none` is no answer, as of `next_event`.
    unfoldable pub cat_loop : ℕ → P → CatState D → Emitter W → Option (Emitter W × Bool)
    unfolding cat_event
    cat_loop zero p s e = none
    cat_loop (suc fuel) p s e = elim (next_event p) [
      | none ↦ none
      | some r ↦ elim (r.0.commented) [
        | true ↦ some (e, false)
        | false ↦ cat_event r.0.kind r.0 (cat_loop fuel r.1) s e
      ]
    ]

    -- `kdl_cat_impl`
    unfoldable pub cat_impl : ℕ → P → Emitter W → Option (Emitter W × Bool)
    unfolding cat_loop
    cat_impl fuel p e = cat_loop fuel p (record { in_node_list = true; props = [] }) e

module _ (F : Floats) (fuel : ℕ) where
  open F use {Double}

  -- `parse_opt &= ~KDL_EMIT_COMMENTS`, and the parser.
  abbrev pub cat_parser : List Bytes → ParseOption → Parser Double
  unfolding create_stream_parser
  cat_parser reads parse_opt =
      create_stream_parser reads (record parse_opt { emit_comments = false })

  -- `kdl_cat_file_to_file_ex`: the sink that is left, and the result.
  unfoldable pub cat_file_to_file_ex :
      {W : Type 0}
      → WriteFunc W
      → PrintFloats Double
      → ℕ
      → List Bytes
      → W
      → ParseOption
      → EmitterOptions
      → Option (W × Bool)
  unfolding next_event cat_impl create_stream_emitter emit_end
  cat_file_to_file_ex write_func P digits reads sink parse_opt emit_opt =
      elim (cat_impl write_func P digits (next_event F fuel) fuel (cat_parser reads parse_opt)
        (create_stream_emitter sink emit_opt)) [
          | none ↦ none
          | some r ↦ let ended = (emit_end write_func r.0).0 in answered ended (ended.sink, r.1)
        ]

  -- `kdl_cat_file_to_string_ex`: the inner `none` is the string with no data.
  unfoldable pub cat_file_to_string_ex :
      PrintFloats Double → ℕ → List Bytes → ParseOption → EmitterOptions → Option (Option Bytes)
  unfolding next_event cat_impl create_buffering_emitter get_emitter_buffer
  cat_file_to_string_ex P digits reads parse_opt emit_opt =
      elim (cat_impl buffer_write_func P digits (next_event F fuel) fuel
        (cat_parser reads parse_opt) (create_buffering_emitter emit_opt)) [
          | none ↦ none
          | some r ↦ answered r.0 (if r.1 then some (get_emitter_buffer r.0) else none)
        ]
