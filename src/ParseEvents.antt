-- ===== src/ParseEvents.antt =====
-- src/utils/ckdl-parse-events.c: the tool that lists the events of a document as nodes. Its streams are the
-- reads of the parser and the sink of the emitter.
use ckdl.Prelude.{ℕ, zero, suc, Bool, true, false, Option, none, some, List, Bytes, codes}
use ckdl.Grammar.{version_2}
use ckdl.Number.{Floats}
use ckdl.Parser.{
  ParseOption, Value, EventKind, eof, parse_error, start_node, end_node, argument, property,
  comment, Event, Parser, create_stream_parser,
}
use ckdl.Parser.Next.{next_event}
use ckdl.Emitter.{
  Emitter, WriteFunc, Emit, default_emitter_options, create_stream_emitter, answered,
}
use ckdl.Emitter.Float.{PrintFloats}
use ckdl.Emitter.Nodes.{emit_node, emit_node_with_type, emit_property, emit_end}

-- The switch over the kind of the event.
unfoldable pub event_name : EventKind → Bytes
event_name comment = codes "KDL_EVENT_COMMENT"
event_name eof = codes "KDL_EVENT_EOF"
event_name start_node = codes "KDL_EVENT_START_NODE"
event_name end_node = codes "KDL_EVENT_END_NODE"
event_name argument = codes "KDL_EVENT_ARGUMENT"
event_name property = codes "KDL_EVENT_PROPERTY"
event_name parse_error = codes "KDL_EVENT_PARSE_ERROR"

-- `slashdash`: KDL_EVENT_COMMENT joined to another kind.
abbrev pub is_slashdash : EventKind → Bool → Bool
is_slashdash comment commented = false
is_slashdash _ commented = commented

module _ {W : Type 0} (write_func : WriteFunc W) {D : Type 0} (F : PrintFloats D) (digits : ℕ) where
  -- `if (event->name.data != NULL)`
  unfoldable pub print_name : Option Bytes → Emitter W → Emitter W
  unfolding emit_property
  print_name none e = e
  print_name (some name) e =
      (emit_property write_func F digits (codes "name") none (Value.string name) e).0

  unfoldable pub print_kind : Bool → Bytes → Emit W
  unfolding emit_node emit_node_with_type
  print_kind true name = emit_node_with_type write_func (codes "commented-out") name
  print_kind false name = emit_node write_func name

  -- The node of an event. What the calls answer is not looked at.
  unfoldable pub print_event : Event D → Emitter W → Emitter W
  unfolding event_name print_kind print_name emit_property
  print_event ev e =
      (emit_property write_func F digits (codes "value") ev.type_annotation ev.value (
        print_name ev.name
          (print_kind (is_slashdash ev.kind ev.commented) (event_name ev.kind) e).0)).0

module _ {W : Type 0} (write_func : WriteFunc W) (F : Floats) where
  open F use {Double}

  module _ (P : PrintFloats Double) (digits fuel : ℕ) where
    -- `if (have_error || eof) break;`, and the next round.
    abbrev pub after_event :
        EventKind → Emitter W → Option (Bool × Emitter W) → Option (Bool × Emitter W)
    after_event eof e again = some (false, e)
    after_event parse_error e again = some (true, e)
    after_event _ e again = again

    -- The loop of `main`, with `have_error` as its result; `none` is no answer of the source.
    unfoldable pub events_loop : ℕ → Parser Double → Emitter W → Option (Bool × Emitter W)
    unfolding next_event print_event
    events_loop zero p e = none
    events_loop (suc n) p e = elim (next_event F fuel p) [
      | none ↦ none
      | some r ↦
          let e' = print_event write_func P digits r.0 e in
          after_event r.0.kind e' (events_loop n r.1 e')
    ]

    -- `main`, less the arguments and files: the sink that is left, and whether the result is 1.
    unfoldable pub parse_events : List Bytes → ParseOption → W → Option (Bool × W)
    unfolding events_loop create_stream_parser create_stream_emitter emit_end
    parse_events reads parse_opts sink =
        elim (events_loop fuel (create_stream_parser reads parse_opts)
          (create_stream_emitter sink (record default_emitter_options { version = version_2 }))) [
            | none ↦ none
            | some r ↦ let ended = (emit_end write_func r.1).0 in answered ended (r.0, ended.sink)
          ]
