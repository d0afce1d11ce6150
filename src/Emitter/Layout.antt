-- ===== src/Emitter/Layout.antt =====
-- src/emitter.c: the calls that write a document produce its layout.
use ckdl.Prelude.{
  ℕ, ◌*◌, ◌+◌, Bool, true, false, Option, none, some, List, [], ◌∷◌, ◌++◌, Bytes, codes, ◌≡◌, refl,
  sym, ap, ◌∙◌, append_assoc, append-nil, arith,
}
use ckdl.Str.Buffer.{WriteBuffer, new_write_buffer, IsWithin}
use ckdl.Emitter.{
  buffer_write_func, create_stream_emitter, create_buffering_emitter, EmitterOptions, Emitter,
  WriteFunc, Emit,
}
use ckdl.Emitter.Digits.{replicate}
use ckdl.Emitter.Float.{PrintFloats, float_to_string}
use ckdl.Emitter.Sink.{
  buffer_collects, Collects, emitter_at, Goes, Prints, then-Goes, then-Prints, text-Goes,
  write-Prints, bare_string-Prints, type-Prints, value-Prints,
}
use ckdl.Emitter.Lines.{
  line_end, nothing-Goes, preamble-Goes, start-Goes, finish-Goes, emit_end-Goes,
}
use ckdl.Emitter.Nodes.{get_emitter_buffer, emit_node, emit_node_with_type, emit_arg, emit_property}
use ckdl.Emitter.Document.{
  Entry, argument, property, Line, Nodes, no_more, leaf, block, head_text, entries_text, line_text,
  layout, emit_entries, emit_head, emit_line, emit_nodes, emit_document,
}

leaf-text :
    (a r l s e : Bytes) {t : Bytes} → s ++ e ≡ t → (a ++ (r ++ l) ++ s) ++ e ≡ a ++ (r ++ (l ++ t))
leaf-text a r l s e h = simp append_assoc (ap (λ x. a ++ (r ++ (l ++ x))) h)

block-text :
    (a r l o i e' c s e : Bytes) {inner t : Bytes}
    → i ++ e' ≡ inner
    → s ++ e ≡ t
    → ((a ++ (r ++ l)) ++ (o ++ (i ++ ((e' ++ (r ++ c)) ++ s)))) ++ e
      ≡ a ++ (r ++ (l ++ (o ++ (inner ++ (r ++ (c ++ t))))))
block-text a r l o i e' c s e {inner = inner} {t = t} h k =
    let inside : i ++ (e' ++ (r ++ (c ++ (s ++ e)))) ≡ inner ++ (r ++ (c ++ t)) =
      sym (append_assoc i e' (r ++ (c ++ (s ++ e))))
      ∙ (ap (λ x. x ++ (r ++ (c ++ (s ++ e)))) h ∙ ap (λ x. inner ++ (r ++ (c ++ x))) k) in
    simp append_assoc (ap (λ x. a ++ (r ++ (l ++ (o ++ x)))) inside)

module _ {W : Type 0} {write_func : WriteFunc W} (collects : Collects write_func)
    (o : EmitterOptions) where
  module _ {D : Type 0} (F : PrintFloats D) (fuel : ℕ) (float_text : D → Bytes)
      (prints : (f : D) → float_to_string F fuel o.float_mode f ≡ some (float_text f)) where
    entries-Prints :
        (xs : List (Entry D))
        → Prints collects o (emit_entries write_func F fuel xs) (entries_text o float_text xs)
    unfolding emit_arg emit_property
    entries-Prints [] d b = nothing-Goes collects o F fuel d b
    entries-Prints (argument t v ∷ xs) d b =
        then-Prints collects o
          (then-Prints collects o (write-Prints collects o (codes " "))
            (value-Prints collects o F fuel float_text prints t v))
          (entries-Prints xs) d b
    entries-Prints (property name t v ∷ xs) d b =
        then-Prints collects o
          (then-Prints collects o (write-Prints collects o (codes " ")) (
            then-Prints collects o (bare_string-Prints collects o name) (
              then-Prints collects o (write-Prints collects o (codes "="))
                (value-Prints collects o F fuel float_text prints t v))))
          (entries-Prints xs) d b

    head-Goes :
        (t : Option Bytes) (name : Bytes) (d : ℕ) (b : Bool)
        → Goes collects o d b
            (emit_head write_func F fuel t name)
            d
            false
            ((line_end b ++ replicate (d * o.indent) b' ') ++ head_text o float_text t name)
    unfolding emit_node emit_node_with_type
    head-Goes none name d b =
        then-Goes collects o (preamble-Goes collects o d b)
          (bare_string-Prints collects o name d false)
    head-Goes (some t) name d b = then-Goes collects o (preamble-Goes collects o d b) (
        then-Goes collects o (type-Prints collects o t d false)
          (bare_string-Prints collects o name d false))

    line-Goes :
        (l : Line D) (d : ℕ) (b : Bool)
        → Goes collects o d b
            (emit_line write_func F fuel l)
            d
            false
            (line_end b ++ (replicate (d * o.indent) b' ' ++ line_text o float_text l))
    line-Goes l d b =
        text-Goes collects o (simp append_assoc refl)
          (then-Goes collects o (head-Goes l.type l.name d b) (entries-Prints l.entries d false))

    -- What writing nodes leaves, and what is written but for a line end that is still to come.
    abbrev pub Lays : ℕ → Bool → Emit W → Bytes → Type 0
    Lays d b a t =
        (b' : Bool) × (s : Bytes) × Goes collects o d b a d b' s
        × (s ++ line_end b' ≡ line_end b ++ t)

    pub nodes-Lays :
        (ns : Nodes D) (d : ℕ) (b : Bool)
        → Lays d b (emit_nodes write_func F fuel ns) (layout o float_text d ns)
    unfolding emit_nodes layout
    nodes-Lays no_more d b =
        (b, [], nothing-Goes collects o F fuel d b, sym (append-nil (line_end b)))
    nodes-Lays (leaf l rest) d b =
        let more = nodes-Lays rest d false in
        (
          more.0,
          _,
          then-Goes collects o (line-Goes l d b) more.2,
          leaf-text (line_end b) _ (line_text o float_text l) more.1 (line_end more.0) more.3,
        )
    nodes-Lays (block l inner rest) d b =
        let within = nodes-Lays inner (d + 1) true in
        let more = nodes-Lays rest d true in
        (
          more.0,
          _,
          then-Goes collects o (line-Goes l d b) (
              then-Goes collects o (start-Goes collects o d false) (
                then-Goes collects o within.2
                  (then-Goes collects o (finish-Goes collects o d within.0) more.2))),
          block-text (line_end b) _ (line_text o float_text l) (codes " {\n") within.1
              (line_end within.0) (codes "}\n") more.1 (line_end more.0) within.3 more.3,
        )

    -- Writing a document and ending it goes well, on an emitter as `kdl_create_stream_emitter` leaves it.
    pub document-Goes :
        (ns : Nodes D)
        → Goes collects o 0 true
            (emit_document write_func F fuel ns)
            0
            true
            (layout o float_text 0 ns)
    unfolding emit_document
    document-Goes ns =
        let laid = nodes-Lays ns 0 true in
        text-Goes collects o laid.3
          (then-Goes collects o laid.2 (emit_end-Goes collects o 0 laid.0))

-- A buffering emitter that is given the calls of a document, and the end, answers that each went well, and
-- its buffer then holds the layout of the document, inside the allocation; the depth is 0 again. The fuel
-- is enough to print every double.
pub buffered_document_lem :
    (o : EmitterOptions) {D : Type 0} (F : PrintFloats D) (fuel : ℕ) (float_text : D → Bytes)
    → ((f : D) → float_to_string F fuel o.float_mode f ≡ some (float_text f))
    → (ns : Nodes D)
    → (r : Emitter WriteBuffer) × (emit_document buffer_write_func F fuel ns
          (create_buffering_emitter o)
        ≡ (r, true))
      × (get_emitter_buffer r ≡ layout o float_text 0 ns)
      × IsWithin r.sink
      × (r.depth ≡ 0)
unfolding create_buffering_emitter get_emitter_buffer buffer_collects new_write_buffer
    create_stream_emitter
buffered_document_lem o F fuel float_text prints ns =
    let done =
      (document-Goes buffer_collects o F fuel float_text prints ns).goes (new_write_buffer 4096)
        (omega arith) in
    (emitter_at o 0 true done.0, done.1, done.2, done.3, refl)
