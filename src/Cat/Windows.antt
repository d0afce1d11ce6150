-- ===== src/Cat/Windows.antt =====
-- src/utils/ckdl-cat.c: `overwriting_merge` on a window of two runs in order, and lists cut in windows.
use ckdl.Prelude.{
  ℕ, zero, suc, ◌+◌, ◌≤◌, ◌≡◌, ◌⊎◌, inl, inr, refl, ap, ◌∙◌, arith, Option, none, List, [], ◌∷◌,
  ◌++◌, Bytes, All, length, take, drop,
}
use Prim.Native.Nat.{Ordering, lt, eq, gt}
use ckdl.Cat.{Property, slot_cmp, insert_item, overwriting_merge, in_order, pad, window}
use ckdl.Cat.Order.{ShortSlot, Precedes, Precedes-differs, SlotSays, slot_cmp-Says}
use ckdl.Cat.Merge.{
  choose, or_else, or_else-none, Sorted, named, last_named, interleave, Precedes-All, same-All,
  interleave-All, interleave-Sorted, last_named-interleave,
}

module _ {ℓ} {A : Type ℓ} where
  pub take-drop : (n : ℕ) (xs : List A) → take n xs ++ drop n xs ≡ xs
  take-drop zero xs = refl
  take-drop (suc n) [] = refl
  take-drop (suc n) (x ∷ xs) = ap (λ ys. x ∷ ys) (take-drop n xs)

  full-suc : {n m : ℕ} {xs : List A} → (n ≡ m) ⊎ (xs ≡ []) → (suc n ≡ suc m) ⊎ (xs ≡ [])
  full-suc (inl e) = inl (omega (arith, e))
  full-suc (inr e) = inr e

  -- A window is full, or nothing is left behind it.
  pub length-take :
      (n : ℕ) (xs : List A)
      → (length (take n xs) + length (drop n xs) ≡ length xs)
        × (length (take n xs) ≤ n)
        × ((length (take n xs) ≡ n) ⊎ (drop n xs ≡ []))
  length-take zero xs = (omega arith, omega arith, inl refl)
  length-take (suc n) [] = (refl, omega arith, inr refl)
  length-take (suc n) (x ∷ xs) =
      let ih = length-take n xs in (omega (arith, ih.0), omega (arith, ih.1), full-suc ih.2)

  pub take-append :
      (n : ℕ) (xs ys : List A)
      → length xs ≤ n
      → (length xs ≡ n) ⊎ (ys ≡ [])
      → (take n (xs ++ ys) ≡ xs) × (drop n (xs ++ ys) ≡ ys)
  take-append zero [] ys h e = (refl, refl)
  take-append zero (x ∷ xs) ys h e = absurd (omega arith)
  take-append (suc n) [] ys h (inl e) = absurd (omega arith)
  take-append (suc n) [] ys h (inr e) = rw e (refl, refl)
  take-append (suc n) (x ∷ xs) ys h e =
      let ih = take-append n xs ys (omega arith) (ground arith) in (ap (λ zs. x ∷ zs) ih.0, ih.1)

  pub take-All {κ} :
      (P : A → Type κ) (n : ℕ) (xs : List A) → All P xs → All P (take n xs) × All P (drop n xs)
  take-All P zero xs h = (tt, h)
  take-All P (suc n) [] h = (tt, tt)
  take-All P (suc n) (x ∷ xs) h = let ih = take-All P n xs h.1 in ((h.0, ih.0), ih.1)

module _ {D : Type 0} where
  -- The entries that `out` ends with come before these.
  abbrev Follows : List (Option (Property D)) → List (Option (Property D)) → Type 0
  Follows [] xs = Unit
  Follows (z ∷ out) xs = ShortSlot z × All (Precedes z) xs

  kept :
      {z x : Option (Property D)} {out : List (Option (Property D))} (o : Ordering)
      → ¬ SlotSays eq z x
      → SlotSays o z x
      → elim o [ eq ↦ x ∷ out | _ ↦ x ∷ (z ∷ out) ] ≡ x ∷ (z ∷ out)
  kept lt d h = refl
  kept gt d h = refl
  kept eq d h = absurd (d h)

  interleave-nil : (xs : List (Option (Property D))) → interleave xs [] ≡ xs
  unfolding interleave
  interleave-nil [] = refl
  interleave-nil (x ∷ xs) = refl

  first :
      (out : List (Option (Property D))) (x : Option (Property D)) (xs : List (Option (Property D)))
      → Follows out (x ∷ xs)
      → Follows out (x ∷ [])
  first [] x xs h = tt
  first (z ∷ out) x xs h = (h.0, (h.1.0, tt))

  insert_item_lem :
      (x : Option (Property D)) (out : List (Option (Property D)))
      → ShortSlot x
      → Follows out (x ∷ [])
      → insert_item x out ≡ x ∷ out
  unfolding insert_item
  insert_item_lem x [] h k = refl
  insert_item_lem x (z ∷ out) h k =
      kept (slot_cmp z x) (λ e. Precedes-differs z x k.1.0 e) (slot_cmp-Says z x k.0 h)

  merge-cases :
      (o : Ordering) (x y : Option (Property D)) (out : List (Option (Property D)))
      (m m' m'' a b c : List (Option (Property D)))
      → SlotSays o x y
      → (Precedes x y → in_order m [] ≡ in_order out a)
      → (Precedes y x → in_order m' [] ≡ in_order out b)
      → (SlotSays eq x y → in_order m'' [] ≡ in_order out c)
      → in_order (choose o m m' m'') [] ≡ in_order out (choose o a b c)
  merge-cases lt x y out m m' m'' a b c h f g k = f h
  merge-cases gt x y out m m' m'' a b c h f g k = g h
  merge-cases eq x y out m m' m'' a b c h f g k = k h

  -- On runs in order no entry is overwritten, and the merge is `interleave`.
  overwriting_merge-interleave :
      (out xs ys : List (Option (Property D)))
      → All ShortSlot xs
      → All ShortSlot ys
      → Sorted xs
      → Sorted ys
      → Follows out xs
      → Follows out ys
      → in_order (overwriting_merge out xs ys) [] ≡ in_order out (interleave xs ys)
  unfolding overwriting_merge interleave
  overwriting_merge-interleave out [] [] s t h k f g = refl
  overwriting_merge-interleave out [] (y ∷ ys) s t h k f g =
      rw (insert_item_lem y out t.0 (first out y ys g))
        (overwriting_merge-interleave (y ∷ out) [] ys s t.1 h k.1 (t.0, tt) (t.0, k.0))
  overwriting_merge-interleave out (x ∷ xs) [] s t h k f g =
      rw (insert_item_lem x out s.0 (first out x xs f)) (
        overwriting_merge-interleave (x ∷ out) xs [] s.1 t h.1 k (s.0, h.0) (s.0, tt)
        ∙ ap (in_order (x ∷ out)) (interleave-nil xs))
  overwriting_merge-interleave out (x ∷ xs) (y ∷ ys) s t h k f g =
      merge-cases (slot_cmp x y) x y out _ _ _ _ _ _ (slot_cmp-Says x y s.0 t.0)
        (λ e. rw (insert_item_lem x out s.0 (first out x xs f)) (
          overwriting_merge-interleave (x ∷ out) xs (y ∷ ys) s.1 t h.1 k (s.0, h.0)
            (s.0, (e, Precedes-All x y ys e k.0))))
        (λ e. rw (insert_item_lem y out t.0 (first out y ys g)) (
          overwriting_merge-interleave (y ∷ out) (x ∷ xs) ys s t.1 h k.1
            (t.0, (e, Precedes-All y x xs e h.0)) (t.0, k.0)))
        (λ e. rw (insert_item_lem y out t.0 (first out y ys g)) (
          overwriting_merge-interleave (y ∷ out) xs ys s.1 t.1 h.1 k.1 (t.0, same-All x y xs e h.0)
            (t.0, k.0)))

  length-insert_item :
      (x : Option (Property D)) (out : List (Option (Property D)))
      → length (insert_item x out) ≤ suc (length out)
  unfolding insert_item
  length-insert_item x [] = omega arith
  length-insert_item x (z ∷ out) =
      elim (slot_cmp z x)
        as (λ o. length (elim o [ eq ↦ x ∷ out | _ ↦ x ∷ (z ∷ out) ]) ≤ suc (suc (length out))) [
          | lt ↦ omega arith
          | gt ↦ omega arith
          | eq ↦ omega arith
        ]

  -- No entry is made.
  length-overwriting_merge :
      (out xs ys : List (Option (Property D)))
      → length (overwriting_merge out xs ys) ≤ length out + (length xs + length ys)
  unfolding overwriting_merge
  length-overwriting_merge out [] [] = omega arith
  length-overwriting_merge out [] (y ∷ ys) =
      let i = length-insert_item y out in
      let ih = length-overwriting_merge (insert_item y out) [] ys in omega arith
  length-overwriting_merge out (x ∷ xs) [] =
      let i = length-insert_item x out in
      let ih = length-overwriting_merge (insert_item x out) xs [] in omega arith
  length-overwriting_merge out (x ∷ xs) (y ∷ ys) =
      let i = length-insert_item x out in
      let j = length-insert_item y out in
      let l = length-overwriting_merge (insert_item x out) xs (y ∷ ys) in
      let g = length-overwriting_merge (insert_item y out) (x ∷ xs) ys in
      let e = length-overwriting_merge (insert_item y out) xs ys in
      elim (slot_cmp x y)
        as (λ o.
          length (
            choose o (overwriting_merge (insert_item x out) xs (y ∷ ys))
              (overwriting_merge (insert_item y out) (x ∷ xs) ys)
              (overwriting_merge (insert_item y out) xs ys))
          ≤ length out + (suc (length xs) + suc (length ys))) [
            | lt ↦ omega arith
            | gt ↦ omega arith
            | eq ↦ omega arith
          ]

  length-in_order :
      (out xs : List (Option (Property D))) → length (in_order out xs) ≡ length out + length xs
  length-in_order [] xs = omega arith
  length-in_order (x ∷ out) xs = omega (arith, length-in_order out (x ∷ xs))

  length-pad : (n : ℕ) (xs : List (Option (Property D))) → length xs ≤ n → length (pad n xs) ≡ n
  length-pad zero [] h = refl
  length-pad zero (x ∷ xs) h = absurd (omega arith)
  length-pad (suc n) [] h = omega (arith, length-pad n [] (omega arith))
  length-pad (suc n) (x ∷ xs) h = omega (arith, length-pad n xs (omega arith))

  pad-All :
      (P : Option (Property D) → Type 0) (n : ℕ) (xs : List (Option (Property D)))
      → P none
      → All P xs
      → All P (pad n xs)
  pad-All P zero xs h k = k
  pad-All P (suc n) [] h k = (h, pad-All P n [] h tt)
  pad-All P (suc n) (x ∷ xs) h k = (k.0, pad-All P n xs h k.1)

  pad-Sorted : (n : ℕ) (xs : List (Option (Property D))) → Sorted xs → Sorted (pad n xs)
  pad-Sorted zero xs h = h
  pad-Sorted (suc n) [] h = (pad-All (Precedes none) n [] tt tt, pad-Sorted n [] tt)
  pad-Sorted (suc n) (x ∷ xs) h = (pad-All (Precedes x) n xs tt h.0, pad-Sorted n xs h.1)

  last_named-pad :
      (k : Bytes) (n : ℕ) (xs : List (Option (Property D)))
      → last_named k (pad n xs) ≡ last_named k xs
  last_named-pad k zero xs = refl
  last_named-pad k (suc n) [] = or_else-none (last_named k (pad n [])) ∙ last_named-pad k n []
  last_named-pad k (suc n) (x ∷ xs) = ap (λ o. or_else o (named k x)) (last_named-pad k n xs)

  pub length-window :
      (xs ys : List (Option (Property D))) → length (window xs ys) ≡ length xs + length ys
  unfolding window
  length-window xs ys =
      let bound = length-overwriting_merge [] xs ys in
      length-pad (length xs + length ys) (in_order (overwriting_merge [] xs ys) [])
        (omega (arith, length-in_order (overwriting_merge [] xs ys) [], bound))

  -- A window of two runs in order is in order, and its names have the properties of the right run, or else
  -- of the left one.
  pub window_lem :
      (xs ys : List (Option (Property D)))
      → All ShortSlot xs
      → All ShortSlot ys
      → Sorted xs
      → Sorted ys
      → All ShortSlot (window xs ys)
        × Sorted (window xs ys)
        × ((k : Bytes) → last_named k (window xs ys) ≡ or_else (last_named k ys) (last_named k xs))
  unfolding window
  window_lem xs ys s t h k =
      let n = length xs + length ys in
      rw (overwriting_merge-interleave [] xs ys s t h k tt tt) (
        pad-All ShortSlot n (interleave xs ys) tt (interleave-All ShortSlot xs ys s t s t),
        pad-Sorted n (interleave xs ys) (interleave-Sorted xs ys s t h k),
        λ name. last_named-pad name n (interleave xs ys) ∙ last_named-interleave name xs ys s t h k,
      )
