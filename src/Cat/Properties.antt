-- ===== src/Cat/Properties.antt =====
-- src/utils/ckdl-cat.c: what `proplist_emit` keeps of the properties of a node.
use ckdl.Prelude.{
  ◌≡◌, refl, sym, ap, ◌∙◌, arith, Option, none, some, List, [], ◌∷◌, Bytes, bytes_eq, All, length,
  if◌then◌else◌,
}
use ckdl.Cat.{Property, merge_passes, slots, valid, sorted_properties}
use ckdl.Cat.Order.{Before, Short, ShortSlot, Precedes}
use ckdl.Cat.Merge.{or_else, or_else-none, Sorted, last_named}
use ckdl.Cat.Sort.{Runs-slots, merge_passes_lem}

module _ {D : Type 0} where
  -- Each name comes before all that follow it, in the lexicographic order of bytes.
  abbrev pub Increasing : List (Property D) → Type 0
  Increasing [] = Unit
  Increasing (p ∷ ps) = All (λ (q : Property D). Before p.name q.name) ps × Increasing ps

  -- The last property of a name.
  abbrev pub last_property : Bytes → List (Property D) → Option (Property D)
  last_property k [] = none
  last_property k (p ∷ ps) =
      or_else (last_property k ps) (if bytes_eq k p.name then some p else none)

  abbrev pub ShortNames : List (Property D) → Type 0
  ShortNames ps = All (λ (p : Property D). Short p.name) ps

  slots-Short : (ps : List (Property D)) → ShortNames ps → All ShortSlot (slots ps)
  slots-Short [] h = tt
  slots-Short (p ∷ ps) h = (h.0, slots-Short ps h.1)

  last_named-slots :
      (k : Bytes) (ps : List (Property D)) → last_named k (slots ps) ≡ last_property k ps
  last_named-slots k [] = refl
  last_named-slots k (p ∷ ps) =
      ap (λ o. or_else o (if bytes_eq k p.name then some p else none)) (last_named-slots k ps)

  last_named-valid :
      (k : Bytes) (xs : List (Option (Property D))) → last_named k xs ≡ last_property k (valid xs)
  last_named-valid k [] = refl
  last_named-valid k (none ∷ xs) = or_else-none (last_named k xs) ∙ last_named-valid k xs
  last_named-valid k (some p ∷ xs) =
      ap (λ o. or_else o (if bytes_eq k p.name then some p else none)) (last_named-valid k xs)

  valid-Before :
      (p : Property D) (xs : List (Option (Property D)))
      → All (Precedes (some p)) xs
      → All (λ (q : Property D). Before p.name q.name) (valid xs)
  valid-Before p [] h = tt
  valid-Before p (none ∷ xs) h = valid-Before p xs h.1
  valid-Before p (some q ∷ xs) h = (h.0, valid-Before p xs h.1)

  valid-Increasing : (xs : List (Option (Property D))) → Sorted xs → Increasing (valid xs)
  valid-Increasing [] h = tt
  valid-Increasing (none ∷ xs) h = valid-Increasing xs h.1
  valid-Increasing (some p ∷ xs) h = (valid-Before p xs h.0, valid-Increasing xs h.1)

  length-slots : (ps : List (Property D)) → length (slots ps) ≡ length ps
  length-slots [] = refl
  length-slots (p ∷ ps) = omega (arith, length-slots ps)

  -- Where the names are below 2^31 bytes, `proplist_emit` writes properties whose names increase in the
  -- lexicographic order of bytes, so that no name is there twice, and each name has the property that was
  -- appended last under it.
  pub sorted_properties_lem :
      (ps : List (Property D))
      → ShortNames ps
      → Increasing (sorted_properties ps)
        × ((k : Bytes) → last_property k (sorted_properties ps) ≡ last_property k ps)
  unfolding sorted_properties
  sorted_properties_lem ps h =
      let done =
        merge_passes_lem (length ps) 1 (slots ps) (omega arith) (omega (arith, length-slots ps))
          (slots-Short ps h) (λ n. Runs-slots n (slots ps)) in
      (
        valid-Increasing _ done.0,
        λ k.
            sym (last_named-valid k (merge_passes (length ps) 1 (slots ps)))
            ∙ (done.1 k ∙ last_named-slots k ps),
      )
