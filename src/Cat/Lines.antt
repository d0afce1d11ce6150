-- ===== src/Cat/Lines.antt =====
-- src/utils/ckdl-cat.c: the rounds of `kdl_cat_impl` from the start of a node to the end of its entries.
use ckdl.Prelude.{
  ℕ, ◌≡◌, refl, sym, ap, ◌∙◌, Bool, true, false, Option, none, some, List, [], ◌∷◌, ◌++◌,
  append_assoc, append-nil, Bytes, length,
}
use ckdl.Parser.{Event}
use ckdl.Emitter.{Emitter, WriteFunc, Emit, ◌and_then◌}
use ckdl.Emitter.Sequence.{then-same}
use ckdl.Emitter.Float.{PrintFloats}
use ckdl.Emitter.Nodes.{emit_node, emit_node_with_type, emit_arg, emit_property}
use ckdl.Emitter.Document.{Entry, Line, emit_entries, emit_head, emit_line}
use ckdl.Cat.{Property, sorted_properties}
use ckdl.Cat.Loop.{
  CatState, emit_properties, proplist_emit, or_fail, start_of_node, cat_event, cat_loop,
}
use ckdl.Cat.Document.{
  start_event, entry_events, arguments, properties, property_entries, sort_line, next_of_list,
}

module _ {W : Type 0} where
  after :
      (r : Emitter W × Bool) (b : Emit W) (again : Emitter W → Option (Emitter W × Bool))
      → or_fail (elim (r.1) [ true ↦ b r.0 | false ↦ (r.0, false) ]) again
        ≡ or_fail r (λ e'. or_fail (b e') again)
  after (e, true) b again = refl
  after (e, false) b again = refl

  pub or_fail-then :
      (a b : Emit W) (e : Emitter W) (again : Emitter W → Option (Emitter W × Bool))
      → or_fail ((a and_then b) e) again ≡ or_fail (a e) (λ e'. or_fail (b e') again)
  or_fail-then a b e again = after (a e) b again

  pub or_fail-same :
      (r : Emitter W × Bool) {again again' : Emitter W → Option (Emitter W × Bool)}
      → ((e : Emitter W) → again e ≡ again' e)
      → or_fail r again ≡ or_fail r again'
  or_fail-same (e, true) h = h e
  or_fail-same (e, false) h = refl

module _ {W : Type 0} (write_func : WriteFunc W) {D : Type 0} (F : PrintFloats D) (digits : ℕ) where
  abbrev pub Again : Type 0
  Again = Emitter W → Option (Emitter W × Bool)

  -- The loop over events, of which each round takes one.
  abbrev pub run : List (Event D) → CatState D → Again
  unfolding cat_loop
  run evs = cat_loop write_func F digits next_of_list (length evs) evs

  abbrev pub inside : List (Property D) → CatState D
  inside ps = record { in_node_list = false; props = ps }

  abbrev pub outside : CatState D
  outside = record { in_node_list = true; props = [] }

  entries-run :
      (xs : List (Entry D)) (rest : List (Event D)) (ps : List (Property D)) (e : Emitter W)
      → run (entry_events xs rest) (inside ps) e
        ≡ or_fail
            (emit_entries write_func F digits (arguments xs) e)
            (run rest (inside (ps ++ properties xs)))
  unfolding cat_loop cat_event emit_arg emit_property
  entries-run [] rest ps e = ap (λ qs. run rest (inside qs) e) (sym (append-nil ps))
  entries-run (Entry.argument t v ∷ xs) rest ps e =
      or_fail-same (emit_arg write_func F digits t v e) (entries-run xs rest ps)
      ∙ sym (
          or_fail-then (emit_arg write_func F digits t v)
            (emit_entries write_func F digits (arguments xs)) e
            (run rest (inside (ps ++ properties xs))))
  entries-run (Entry.property name t v ∷ xs) rest ps e =
      let p : Property D = record { name = name; type_annotation = t; value = v } in
      entries-run xs rest (ps ++ (p ∷ [])) e
      ∙ ap
          (λ qs. or_fail (emit_entries write_func F digits (arguments xs) e) (run rest (inside qs)))
          (append_assoc ps (p ∷ []) (properties xs))

  head-run :
      (t : Option Bytes) (name : Bytes) (e : Emitter W)
      → start_of_node write_func F digits t name e ≡ emit_head write_func F digits t name e
  unfolding emit_node emit_node_with_type
  head-run none name e = refl
  head-run (some t) name e = refl

  -- The start of a node, and its entries.
  pub line-run :
      (l : Line D) (rest : List (Event D)) (e : Emitter W)
      → run (start_event l ∷ entry_events l.entries rest) outside e
        ≡ or_fail (emit_head write_func F digits l.type l.name e) (λ e'.
          or_fail
            (emit_entries write_func F digits (arguments l.entries) e')
            (run rest (inside (properties l.entries))))
  unfolding cat_loop cat_event emit_node emit_node_with_type
  line-run l rest e =
      ap (λ r. or_fail r (run (entry_events l.entries rest) (inside []))) (head-run l.type l.name e)
      ∙ or_fail-same (emit_head write_func F digits l.type l.name e) (entries-run l.entries rest [])

  property_entries-run :
      (ps : List (Property D)) (e : Emitter W)
      → emit_entries write_func F digits (property_entries ps) e
        ≡ emit_properties write_func F digits ps e
  unfolding emit_properties emit_arg emit_property
  property_entries-run [] e = refl
  property_entries-run (p ∷ ps) e =
      then-same (emit_property write_func F digits p.name p.type_annotation p.value)
        (emit_entries write_func F digits (property_entries ps))
        (emit_properties write_func F digits ps) e (property_entries-run ps)

  both-run :
      (xs : List (Entry D)) (ps : List (Property D)) (e : Emitter W) (again : Again)
      → or_fail (emit_entries write_func F digits (xs ++ property_entries ps) e) again
        ≡ or_fail
            (emit_entries write_func F digits xs e)
            (λ e'. or_fail (emit_properties write_func F digits ps e') again)
  unfolding emit_arg emit_property
  both-run [] ps e again = ap (λ r. or_fail r again) (property_entries-run ps e)
  both-run (Entry.argument t v ∷ xs) ps e again =
      or_fail-then (emit_arg write_func F digits t v)
        (emit_entries write_func F digits (xs ++ property_entries ps)) e again
      ∙ (or_fail-same (emit_arg write_func F digits t v e) (λ e'. both-run xs ps e' again)
          ∙ sym (
              or_fail-then (emit_arg write_func F digits t v) (emit_entries write_func F digits xs)
                e (λ e'. or_fail (emit_properties write_func F digits ps e') again)))
  both-run (Entry.property name t v ∷ xs) ps e again =
      or_fail-then (emit_property write_func F digits name t v)
        (emit_entries write_func F digits (xs ++ property_entries ps)) e again
      ∙ (or_fail-same (emit_property write_func F digits name t v e) (λ e'. both-run xs ps e' again)
          ∙ sym (
              or_fail-then (emit_property write_func F digits name t v)
                (emit_entries write_func F digits xs) e
                (λ e'. or_fail (emit_properties write_func F digits ps e') again)))

  -- The line that is written.
  pub sort_line-run :
      (l : Line D) (e : Emitter W) (again : Again)
      → or_fail (emit_line write_func F digits (sort_line l) e) again
        ≡ or_fail (emit_head write_func F digits l.type l.name e) (λ e'.
          or_fail
            (emit_entries write_func F digits (arguments l.entries) e')
            (λ e''. or_fail (proplist_emit write_func F digits (properties l.entries) e'') again))
  unfolding proplist_emit
  sort_line-run l e again =
      or_fail-then (emit_head write_func F digits l.type l.name)
        (emit_entries write_func F digits (sort_line l).entries) e again
      ∙ or_fail-same (emit_head write_func F digits l.type l.name e)
          (λ e'. both-run (arguments l.entries) (sorted_properties (properties l.entries)) e' again)
