-- ===== src/Kdlpp/Sorted.antt =====
-- src/bindings/cpp: the document that is read is, as a tree, the one that ckdl-cat writes.
use ckdl.Prelude.{
  ◌≡◌, refl, sym, ap, ◌∙◌, Option, List, [], ◌∷◌, ◌++◌, append_assoc, append-nil, Bytes,
}
use ckdl.Parser.{Value}
use ckdl.Emitter.Document.{Entry, argument, property, Line, Nodes, no_more, leaf, block}
use ckdl.Cat.{Property, sorted_properties}
use ckdl.Cat.Merge.{or_else, or_else_assoc, or_else-none}
use ckdl.Cat.Properties.{Increasing, last_property, ShortNames, sorted_properties_lem}
use ckdl.Cat.Unique.{unique}
use ckdl.Cat.Document.{
  arguments, properties, property_entries, sort_line, with_children, sort_document,
}
use ckdl.Kdlpp.{CppValue, Head, to_value, value_of_variant}
use ckdl.Kdlpp.Documents.{
  add_entry, add_entries, empty_head, head_of, vector_of, argument_entries, map_entries, line_of,
  tree_of,
}
use ckdl.Kdlpp.Map.{as_properties, under, value-kept, assign-Assigned}

module _ {D : Type 0} where
  -- The entries of a node, one after the other.
  add_entries-Increasing :
      (xs : List (Entry D)) (h : Head D)
      → Increasing (as_properties h.properties)
      → Increasing (as_properties (add_entries xs h).properties)
        × ((k : Bytes)
            → last_property k (as_properties (add_entries xs h).properties)
              ≡ or_else
                  (last_property k (properties xs))
                  (last_property k (as_properties h.properties)))
  add_entries-Increasing [] h i = (i, λ k. refl)
  add_entries-Increasing (argument t v ∷ xs) h i =
      add_entries-Increasing xs (add_entry (argument t v) h) i
  add_entries-Increasing (property name t v ∷ xs) h i =
      let a = assign-Assigned name (to_value t v) h.properties i in
      let more = add_entries-Increasing xs (add_entry (property name t v) h) a.0 in
      let p : Property D = record { name = name; type_annotation = t; value = v } in
      (
        more.0,
        λ k.
            more.1 k
            ∙ (ap (or_else (last_property k (properties xs))) (a.1 k)
                ∙ (ap
                      (λ x. or_else (last_property k (properties xs)) (
                        or_else (under k (record { name = name; type_annotation = t; value = x }))
                          (last_property k (as_properties h.properties))))
                      (value-kept v)
                    ∙ sym (
                        or_else_assoc (last_property k (properties xs)) (under k p)
                          (last_property k (as_properties h.properties))))),
      )

  argument_entries-append :
      (vs : List (CppValue D)) (t : Option Bytes) (v : Value D)
      → argument_entries (vs ++ (to_value t v ∷ [])) ≡ argument_entries vs ++ (argument t v ∷ [])
  argument_entries-append [] t v = ap (λ x. argument t x ∷ []) (value-kept v)
  argument_entries-append (w ∷ vs) t v =
      ap (λ xs. argument w.type_annotation (value_of_variant w.value) ∷ xs)
        (argument_entries-append vs t v)

  add_entries-args :
      (xs : List (Entry D)) (h : Head D)
      → argument_entries (add_entries xs h).args ≡ argument_entries h.args ++ arguments xs
  add_entries-args [] h = sym (append-nil (argument_entries h.args))
  add_entries-args (argument t v ∷ xs) h =
      add_entries-args xs (add_entry (argument t v) h)
      ∙ (ap (λ ys. ys ++ arguments xs) (argument_entries-append h.args t v)
          ∙ append_assoc (argument_entries h.args) (argument t v ∷ []) (arguments xs))
  add_entries-args (property name t v ∷ xs) h =
      add_entries-args xs (add_entry (property name t v) h)

  add_entries-head :
      (xs : List (Entry D)) (h : Head D)
      → ((add_entries xs h).type_annotation ≡ h.type_annotation)
        × ((add_entries xs h).name ≡ h.name)
  add_entries-head [] h = (refl, refl)
  add_entries-head (argument t v ∷ xs) h = add_entries-head xs (add_entry (argument t v) h)
  add_entries-head (property name t v ∷ xs) h =
      add_entries-head xs (add_entry (property name t v) h)

  map_entries-properties :
      (m : List (Bytes × CppValue D)) → map_entries m ≡ property_entries (as_properties m)
  map_entries-properties [] = refl
  map_entries-properties (p ∷ m) =
      ap (λ xs. property p.0 p.1.type_annotation (value_of_variant p.1.value) ∷ xs)
        (map_entries-properties m)

  append-same : {a b a' b' : List (Entry D)} → a ≡ a' → b ≡ b' → a ++ b ≡ a' ++ b'
  append-same e h = cc

  line-same :
      {t t' : Option Bytes} {n n' : Bytes} {es es' : List (Entry D)}
      → t ≡ t'
      → n ≡ n'
      → es ≡ es'
      → Path
          (Line D)
          (record { type = t; name = n; entries = es })
          (record { type = t'; name = n'; entries = es' })
  line-same e h k = cc

  nodes-same :
      {l l' : Line D} {a a' b b' : Nodes D}
      → l ≡ l'
      → a ≡ a'
      → b ≡ b'
      → with_children l a b ≡ with_children l' a' b'
  nodes-same e h k = cc

  -- The line of a node that was read has the entries that ckdl-cat writes.
  line_of-head_of :
      (l : Line D) → ShortNames (properties l.entries) → line_of (head_of l) ≡ sort_line l
  line_of-head_of l short =
      let h : Head D = empty_head l.type l.name in
      let same = add_entries-head l.entries h in
      let kept = add_entries-Increasing l.entries h tt in
      let sorted = sorted_properties_lem (properties l.entries) short in
      let props : as_properties (head_of l).properties ≡ sorted_properties (properties l.entries) =
        unique _ _ kept.0 sorted.0 (λ k.
          kept.1 k ∙ (or_else-none (last_property k (properties l.entries)) ∙ sym (sorted.1 k))) in
      line-same same.0 same.1 (
        append-same (add_entries-args l.entries h)
          (map_entries-properties (head_of l).properties ∙ ap property_entries props))

  -- Names below 2^31 bytes in the whole document.
  abbrev pub ShortDocument : Nodes D → Type 0
  ShortDocument no_more = Unit
  ShortDocument (leaf l ns) = ShortNames (properties l.entries) × ShortDocument ns
  ShortDocument (block l inner ns) =
      ShortNames (properties l.entries) × ShortDocument inner × ShortDocument ns

  -- Where the names of properties are below 2^31 bytes, the document that `Document::read_from` makes of the
  -- events of a document is, as a tree, the one that ckdl-cat writes: the arguments of each node in order,
  -- its properties by name, the last one of each, and no empty child blocks.
  pub tree_of-vector_of :
      (ns : Nodes D) → ShortDocument ns → tree_of (vector_of ns) ≡ sort_document ns
  tree_of-vector_of no_more h = refl
  tree_of-vector_of (leaf l ns) h =
      nodes-same {a = no_more} (line_of-head_of l h.0) refl (tree_of-vector_of ns h.1)
  tree_of-vector_of (block l inner ns) h =
      nodes-same (line_of-head_of l h.0) (tree_of-vector_of inner h.1) (tree_of-vector_of ns h.2)
