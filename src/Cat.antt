-- ===== src/Cat.antt =====
-- src/utils/ckdl-cat.c: the tool that copies a document, with the properties of each node sorted. Its
-- streams are the reads of the parser and the sink of the emitter; allocation succeeds.
pub mod Loop
pub mod Order
pub mod Merge
pub mod Windows
pub mod Sort
pub mod Properties
pub mod Unique
pub mod Document
pub mod Lines
pub mod Calls
pub mod Main
use ckdl.Prelude.{
  ℕ, zero, suc, ◌+◌, ◌-◌, ◌*◌, ◌%◌, ◌^◌, Bool, true, false, Option, none, some, List, [], ◌∷◌, ◌++◌,
  ◌==◌, if◌then◌else◌, ltb, Bytes, length, take, drop,
}
use Prim.Native.Nat.{compare, Ordering, lt, eq, gt}
use ckdl.Number.{Floats}
use ckdl.Str.Buffer.{WriteBuffer}
use ckdl.Str.UnescapeV2.{borrow_str}
use ckdl.Parser.{
  ParseOption, Value, EventKind, eof, parse_error, start_node, end_node, argument, property,
  comment, Event, Parser, create_stream_parser,
}
use ckdl.Parser.Next.{next_event}
use ckdl.Emitter.{
  EmitterOptions, Emitter, WriteFunc, Emit, ◌and_then◌, buffer_write_func, create_stream_emitter,
  create_buffering_emitter,
}
use ckdl.Emitter.Float.{PrintFloats}
use ckdl.Emitter.Nodes.{
  get_emitter_buffer, emit_node, emit_node_with_type, emit_arg, emit_property,
  start_emitting_children, finish_emitting_children, emit_end,
}

-- `struct prop`; the owned strings hold the bytes that the type annotation and the value point to.
pub record Property (D : Type 0) : Type 0 where
  pub name : Bytes
  pub type_annotation : Option Bytes
  pub value : Value D

-- The name of a `struct prop`, which is NULL where the entry is marked as invalid.
abbrev pub slot_name : {D : Type 0} → Option (Property D) → Option Bytes
slot_name none = none
slot_name (some p) = some p.name

-- The sign of `memcmp` on the first `n` bytes.
abbrev pub memcmp : ℕ → Bytes → Bytes → Ordering
memcmp (suc n) (a ∷ s) (b ∷ t) = elim (compare a b) [ eq ↦ memcmp n s t | o ↦ o ]
memcmp _ _ _ = eq

-- The sign of `(int)(a - b)` on values of `size_t`.
abbrev pub int_difference : ℕ → ℕ → Ordering
int_difference a b =
    let d = (2 ^ 64 + a - b) % 2 ^ 32 in if d == 0 then eq else if ltb d (2 ^ 31) then gt else lt

-- `kdl_str_cmp`
unfoldable pub str_cmp : Option Bytes → Option Bytes → Ordering
str_cmp none t = gt
str_cmp (some s) none = lt
str_cmp (some s) (some t) =
    let min_len = if ltb (length t) (length s) then length t else length s in
    elim (memcmp min_len s t) [ eq ↦ int_difference (length s) (length t) | o ↦ o ]

module _ {D : Type 0} where
  abbrev pub slot_cmp : Option (Property D) → Option (Property D) → Ordering
  slot_cmp x y = str_cmp (slot_name x) (slot_name y)

  -- "insert the item into the destination array", whose entries are here from the last to the first.
  unfoldable pub insert_item :
      Option (Property D) → List (Option (Property D)) → List (Option (Property D))
  unfolding str_cmp
  insert_item next_item [] = next_item ∷ []
  insert_item next_item (prev ∷ out) = elim (slot_cmp prev next_item) [
    | eq ↦ next_item ∷ out
    | _ ↦ next_item ∷ (prev ∷ out)
  ]

  -- `overwriting_merge`, with the entries before `out` from the last to the first.
  unfoldable pub overwriting_merge :
      List (Option (Property D))
      → List (Option (Property D))
      → List (Option (Property D))
      → List (Option (Property D))
  unfolding insert_item str_cmp
  overwriting_merge out [] [] = out
  overwriting_merge out [] (r ∷ rs) = overwriting_merge (insert_item r out) [] rs
  overwriting_merge out (l ∷ ls) [] = overwriting_merge (insert_item l out) ls []
  overwriting_merge out (l ∷ ls) (r ∷ rs) = elim (slot_cmp l r) [
    | lt ↦ overwriting_merge (insert_item l out) ls (r ∷ rs)
    | gt ↦ overwriting_merge (insert_item r out) (l ∷ ls) rs
    | eq ↦ overwriting_merge (insert_item r out) ls rs
  ]

  -- The entries from the first to the last.
  abbrev pub in_order :
      List (Option (Property D)) → List (Option (Property D)) → List (Option (Property D))
  in_order [] done = done
  in_order (x ∷ out) done = in_order out (x ∷ done)

  -- Entries that are marked as invalid fill up to `n`.
  abbrev pub pad : ℕ → List (Option (Property D)) → List (Option (Property D))
  pad zero xs = xs
  pad (suc n) [] = none ∷ pad n []
  pad (suc n) (x ∷ xs) = x ∷ pad n xs

  -- A round of the loop over the windows: the merge, and the entries marked as invalid behind it.
  unfoldable pub window :
      List (Option (Property D)) → List (Option (Property D)) → List (Option (Property D))
  unfolding overwriting_merge
  window left right =
      pad (length left + length right) (in_order (overwriting_merge [] left right) [])

  -- The loop over the windows of a pass; each round takes an entry at least, so that the fuel is enough
  -- where it is the number of entries.
  unfoldable pub merge_windows : ℕ → ℕ → List (Option (Property D)) → List (Option (Property D))
  unfolding window
  merge_windows zero wnd props = []
  merge_windows (suc fuel) wnd [] = []
  merge_windows (suc fuel) wnd (p ∷ props) =
      window (take wnd (p ∷ props)) (take wnd (drop wnd (p ∷ props)))
      ++ merge_windows fuel wnd (drop wnd (drop wnd (p ∷ props)))

  -- The loop over the width of the windows, which is never used up where the fuel is the number of
  -- entries.
  unfoldable pub merge_passes : ℕ → ℕ → List (Option (Property D)) → List (Option (Property D))
  unfolding merge_windows
  merge_passes zero wnd props = props
  merge_passes (suc fuel) wnd props = elim (ltb wnd (length props)) [
    | true ↦ merge_passes fuel (2 * wnd) (merge_windows (length props) wnd props)
    | false ↦ props
  ]

  abbrev pub slots : List (Property D) → List (Option (Property D))
  slots [] = []
  slots (p ∷ ps) = some p ∷ slots ps

  -- The entries that are not marked.
  abbrev pub valid : List (Option (Property D)) → List (Property D)
  valid [] = []
  valid (none ∷ xs) = valid xs
  valid (some p ∷ xs) = p ∷ valid xs

  -- "emit the properties without duplicates, in lexical order".
  unfoldable pub sorted_properties : List (Property D) → List (Property D)
  unfolding merge_passes
  sorted_properties ps = valid (merge_passes (length ps) 1 (slots ps))

  -- `proplist_append`: the name of the event is cloned, and a name with no data is then an empty one.
  abbrev pub proplist_append : List (Property D) → Event D → List (Property D)
  proplist_append ps ev =
      ps
      ++ (record {
        name = borrow_str ev.name;
        type_annotation = ev.type_annotation;
        value = ev.value;
      }
          ∷ [])
