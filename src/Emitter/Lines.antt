-- ===== src/Emitter/Lines.antt =====
-- src/emitter.c: line ends, indentation, the start and the end of child blocks, and the end of a document.
use ckdl.Prelude.{
  ℕ, zero, suc, ◌*◌, ◌+◌, ◌-◌, ◌==◌, Bool, true, false, [], ◌++◌, Bytes, codes, ◌≡◌, refl, subst,
  ap, ◌∙◌, append_assoc, append-nil, arith, if◌then◌else◌,
}
use ckdl.Emitter.{EmitterOptions, WriteFunc, Emit, write, ◌and_then◌}
use ckdl.Emitter.Digits.{replicate}
use ckdl.Emitter.Float.{PrintFloats}
use ckdl.Emitter.Sink.{
  Collects, emitter_at, Goes, Prints, then-Goes, stays-Goes, text-Goes, same-Goes, write-Prints,
}
use ckdl.Emitter.Nodes.{
  at_line_start, indentation, end_line, write_spaces, emit_node_preamble, start_emitting_children,
  finish_emitting_children, finish_all, emit_end,
}
use ckdl.Emitter.Document.{nothing}

indentation_lem : (d n : ℕ) → indentation d n ≡ d * n
unfolding indentation
indentation_lem zero n = ground arith
indentation_lem (suc d) n = let ih = indentation_lem d n in grind arith

-- What `start_of_line` leaves to be written before the next node.
abbrev pub line_end : Bool → Bytes
line_end b = if b then [] else codes "\n"

-- The end of a document with blocks still open at the depth `d`.
abbrev pub end_text : EmitterOptions → ℕ → Bool → Bytes
end_text o zero b = line_end b
end_text o (suc d) b =
    line_end b ++ (replicate (d * o.indent) b' ' ++ (codes "}\n" ++ end_text o d true))

module _ {W : Type 0} {write_func : WriteFunc W} (collects : Collects write_func)
    (o : EmitterOptions) where
  pub nothing-Goes :
      {D : Type 0} (F : PrintFloats D) (fuel d : ℕ) (b : Bool)
      → Goes collects o d b (nothing write_func F fuel) d b []
  nothing-Goes F fuel d b = stays-Goes collects o (nothing write_func F fuel) (λ w. refl)

  write_spaces-Prints : (n : ℕ) → Prints collects o (write_spaces write_func n) (replicate n b' ')
  unfolding write_spaces
  write_spaces-Prints zero d b = stays-Goes collects o (write_spaces write_func zero) (λ w. refl)
  write_spaces-Prints (suc n) d b =
      same-Goes collects o (write_spaces write_func (suc n)) (λ w. refl)
        (then-Goes collects o (write-Prints collects o (codes " ") d b) (write_spaces-Prints n d b))

  end_line-Prints : (d : ℕ) (b : Bool) → Goes collects o d b (end_line write_func) d b (line_end b)
  unfolding end_line
  end_line-Prints d true = stays-Goes collects o (end_line write_func) (λ w. refl)
  end_line-Prints d false =
      same-Goes collects o (end_line write_func) (λ w. refl)
        (write-Prints collects o (codes "\n") d false)

  pub preamble-Goes :
      (d : ℕ) (b : Bool)
      → Goes collects o d b
          (emit_node_preamble write_func)
          d
          false
          (line_end b ++ replicate (d * o.indent) b' ')
  unfolding emit_node_preamble
  preamble-Goes d b =
      same-Goes collects o (emit_node_preamble write_func) (λ w. refl)
        (then-Goes collects o (end_line-Prints d b) (
          text-Goes collects o
            (append-nil _ ∙ ap (λ n. replicate n b' ') (indentation_lem d o.indent))
            (then-Goes collects o (write_spaces-Prints (indentation d o.indent) d b)
              (stays-Goes collects o (at_line_start false) (λ w. refl)))))

  pub start-Goes :
      (d : ℕ) (b : Bool)
      → Goes collects o d b (start_emitting_children write_func) (d + 1) true (codes " {\n")
  unfolding start_emitting_children
  start-Goes d b = record { goes = (write-Prints collects o (codes " {\n") (d + 1) true).goes }

  -- What `kdl_finish_emitting_children` does below the test of the depth.
  abbrev close_block : Emit W
  unfolding emit_node_preamble
  close_block =
      emit_node_preamble write_func
      and_then (at_line_start true and_then write write_func (codes "}\n"))

  finish-below :
      (d : ℕ) (b : Bool) (w : W)
      → finish_emitting_children write_func (emitter_at o (d + 1) b w)
        ≡ close_block (emitter_at o d b w)
  unfolding finish_emitting_children
  finish-below d b w =
      let above : (d + 1 == 0) ≡ false = ground arith in
      let back : d + 1 - 1 ≡ d = omega arith in
      ap
        (λ t.
          if t
          then (emitter_at o (d + 1) b w, false)
          else close_block (emitter_at o (d + 1 - 1) b w))
        above
      ∙ ap (λ n. close_block (emitter_at o n b w)) back

  pub finish-Goes :
      (d : ℕ) (b : Bool)
      → Goes collects o
          (d + 1)
          b
          (finish_emitting_children write_func)
          d
          true
          (line_end b ++ (replicate (d * o.indent) b' ' ++ codes "}\n"))
  unfolding close_block
  finish-Goes d b =
      let closed = then-Goes collects o (preamble-Goes d b) (
        then-Goes collects o (stays-Goes collects o (at_line_start true) (λ w. refl))
          (write-Prints collects o (codes "}\n") d true)) in
      text-Goes collects o (append_assoc (line_end b) (replicate (d * o.indent) b' ') (codes "}\n"))
        record {
          goes = λ w good. let r = closed.goes w good in (r.0, finish-below d b w ∙ r.1, r.2, r.3);
        }

  finish_all-Goes :
      (d : ℕ) (b : Bool)
      → (b' : Bool) × (s : Bytes) × Goes collects o d b (finish_all write_func d) 0 b' s
        × (s ++ line_end b' ≡ end_text o d b)
  unfolding finish_all
  finish_all-Goes zero b =
      (b, [], stays-Goes collects o (finish_all write_func zero) (λ w. refl), refl)
  finish_all-Goes (suc d) b =
      let more = finish_all-Goes d true in
      let raised : d + 1 ≡ suc d = omega arith in
      let closed =
        subst
          (λ n.
            Goes collects o n b (finish_emitting_children write_func) d true
              (line_end b ++ (replicate (d * o.indent) b' ' ++ codes "}\n")))
          raised (finish-Goes d b) in
      (
        more.0,
        _,
        same-Goes collects o (finish_all write_func (suc d)) (λ w. refl)
            (then-Goes collects o closed more.2),
        simp append_assoc
            (ap (λ x. line_end b ++ (replicate (d * o.indent) b' ' ++ (codes "}\n" ++ x))) more.3),
      )

  -- On a sink that takes all bytes `kdl_emit_end` goes well at any depth, writes the end of the line and a
  -- closing brace for each open block, indented by its depth, and leaves the depth 0 at the start of a
  -- line.
  pub emit_end-Goes :
      (d : ℕ) (b : Bool) → Goes collects o d b (emit_end write_func) 0 true (end_text o d b)
  unfolding emit_end
  emit_end-Goes d b =
      let closed = finish_all-Goes d b in
      same-Goes collects o (emit_end write_func) (λ w. refl)
        (text-Goes collects o (ap (λ x. closed.1 ++ x) (append-nil (line_end closed.0)) ∙ closed.3)
          (then-Goes collects o closed.2 (
            then-Goes collects o (end_line-Prints 0 closed.0)
              (stays-Goes collects o (at_line_start true) (λ w. refl)))))
