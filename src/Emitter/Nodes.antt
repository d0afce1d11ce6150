-- ===== src/Emitter/Nodes.antt =====
-- src/emitter.c: nodes, their arguments and properties, and child blocks.
use ckdl.Prelude.{
  ℕ, zero, suc, ◌-◌, ◌+◌, Bool, true, false, Option, ◌==◌, if◌then◌else◌, Bytes, codes,
}
use ckdl.Str.Buffer.{WriteBuffer}
use ckdl.Parser.{Value}
use ckdl.Emitter.{Emitter, WriteFunc, Emit, write, ◌and_then◌}
use ckdl.Emitter.Float.{PrintFloats}
use ckdl.Emitter.Values.{emit_bare_string, emit_type, emit_value}

-- `self->start_of_line = b`
abbrev pub at_line_start : {W : Type 0} → Bool → Emit W
at_line_start b e = (record e { start_of_line = b }, true)

-- The sum of the loop over the depth.
unfoldable pub indentation : ℕ → ℕ → ℕ
indentation zero indent = 0
indentation (suc d) indent = indentation d indent + indent

module _ {W : Type 0} (write_func : WriteFunc W) where
  -- `if (!self->start_of_line)` a line end is written.
  unfoldable pub end_line : Emit W
  unfolding write
  end_line e = if e.start_of_line then (e, true) else write write_func (codes "\n") e

  unfoldable pub write_spaces : ℕ → Emit W
  unfolding write
  write_spaces zero e = (e, true)
  write_spaces (suc n) e = (write write_func (codes " ") and_then write_spaces n) e

  -- `_emit_node_preamble`
  unfoldable pub emit_node_preamble : Emit W
  unfolding indentation end_line write_spaces
  emit_node_preamble e =
      (end_line
          and_then (write_spaces (indentation e.depth e.opt.indent) and_then at_line_start false))
        e

  -- `kdl_emit_node` and `kdl_emit_node_with_type`
  unfoldable pub emit_node : Bytes → Emit W
  unfolding emit_node_preamble emit_bare_string
  emit_node name = emit_node_preamble and_then emit_bare_string write_func name

  unfoldable pub emit_node_with_type : Bytes → Bytes → Emit W
  unfolding emit_node_preamble emit_bare_string emit_type
  emit_node_with_type type name =
      emit_node_preamble
      and_then (emit_type write_func type and_then emit_bare_string write_func name)

  -- `kdl_start_emitting_children`
  unfoldable pub start_emitting_children : Emit W
  unfolding write
  start_emitting_children e =
      write write_func (codes " {\n") (record e { start_of_line = true; depth = e.depth + 1 })

  -- `kdl_finish_emitting_children`
  unfoldable pub finish_emitting_children : Emit W
  unfolding emit_node_preamble
  finish_emitting_children e =
      if e.depth == 0
      then (e, false)
      else (emit_node_preamble
            and_then (at_line_start true and_then write write_func (codes "}\n")))
          (record e { depth = e.depth - 1 })

  -- The loop of `kdl_emit_end`: each round lowers the depth by one.
  unfoldable pub finish_all : ℕ → Emit W
  unfolding finish_emitting_children
  finish_all zero e = (e, true)
  finish_all (suc n) e = (finish_emitting_children and_then finish_all n) e

  -- `kdl_emit_end`
  unfoldable pub emit_end : Emit W
  unfolding finish_all end_line
  emit_end e = (finish_all e.depth and_then (end_line and_then at_line_start true)) e

  module _ {D : Type 0} (F : PrintFloats D) (fuel : ℕ) where
    -- `kdl_emit_arg`
    unfoldable pub emit_arg : Option Bytes → Value D → Emit W
    unfolding write emit_value
    emit_arg t v = write write_func (codes " ") and_then emit_value write_func F fuel t v

    -- `kdl_emit_property`
    unfoldable pub emit_property : Bytes → Option Bytes → Value D → Emit W
    unfolding write emit_bare_string emit_value
    emit_property name t v =
        write write_func (codes " ")
        and_then (emit_bare_string write_func name
            and_then (write write_func (codes "=") and_then emit_value write_func F fuel t v))

-- `kdl_get_emitter_buffer`
unfoldable pub get_emitter_buffer : Emitter WriteBuffer → Bytes
get_emitter_buffer e = e.sink.text
