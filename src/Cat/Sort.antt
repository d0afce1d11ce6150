-- ===== src/Cat/Sort.antt =====
-- src/utils/ckdl-cat.c: the merge sort of `proplist_emit`.
use ckdl.Prelude.{
  ℕ, zero, suc, ◌+◌, ◌*◌, ◌<◌, ◌≤◌, ◌≡◌, ◌⊎◌, inl, inr, refl, sym, ap, ◌∙◌, subst, arith, Bool,
  true, false, Option, List, [], ◌∷◌, ◌++◌, Bytes, All, All-append, length, length-append, take,
  drop, ltb,
}
use ckdl.Cat.{Property, window, merge_windows, merge_passes}
use ckdl.Cat.Order.{ShortSlot}
use ckdl.Cat.Merge.{or_else, or_else_assoc, or_else-none, Sorted, named, last_named}
use ckdl.Cat.Windows.{take-drop, length-take, take-append, take-All, length-window, window_lem}

module _ {D : Type 0} where
  last_named-append :
      (k : Bytes) (xs ys : List (Option (Property D)))
      → last_named k (xs ++ ys) ≡ or_else (last_named k ys) (last_named k xs)
  last_named-append k [] ys = sym (or_else-none (last_named k ys))
  last_named-append k (x ∷ xs) ys =
      ap (λ o. or_else o (named k x)) (last_named-append k xs ys)
      ∙ or_else_assoc (last_named k ys) (last_named k xs) (named k x)

  last_named-take :
      (k : Bytes) (n : ℕ) (xs : List (Option (Property D)))
      → or_else (last_named k (drop n xs)) (last_named k (take n xs)) ≡ last_named k xs
  last_named-take k n xs =
      sym (last_named-append k (take n xs) (drop n xs)) ∙ ap (last_named k) (take-drop n xs)

  -- The first `n` windows of this width are in order.
  abbrev pub Runs : ℕ → ℕ → List (Option (Property D)) → Type 0
  Runs zero w xs = Unit
  Runs (suc n) w xs = Sorted (take w xs) × Runs n w (drop w xs)

  Runs-nil : (n w : ℕ) (xs : List (Option (Property D))) → xs ≡ [] → Runs n w xs
  Runs-nil zero w xs e = tt
  Runs-nil (suc n) zero [] e = (tt, Runs-nil n zero [] refl)
  Runs-nil (suc n) (suc w) [] e = (tt, Runs-nil n (suc w) [] refl)
  Runs-nil (suc n) w (x ∷ xs) e = ground arith

  pub Runs-slots : (n : ℕ) (xs : List (Option (Property D))) → Runs n 1 xs
  Runs-slots zero xs = tt
  Runs-slots (suc n) [] = (tt, Runs-slots n [])
  Runs-slots (suc n) (x ∷ xs) = ((tt, tt), Runs-slots n xs)

  -- A pass keeps the number of entries.
  length-merge_windows :
      (fuel w : ℕ) (xs : List (Option (Property D)))
      → 0 < w
      → length xs ≤ fuel
      → length (merge_windows fuel w xs) ≡ length xs
  unfolding merge_windows
  length-merge_windows zero w [] h k = refl
  length-merge_windows zero w (x ∷ xs) h k = absurd (omega arith)
  length-merge_windows (suc fuel) w [] h k = refl
  length-merge_windows (suc fuel) zero (x ∷ xs) h k = absurd (omega arith)
  length-merge_windows (suc fuel) (suc w) (x ∷ xs) h k =
      let a = length-take w xs in
      let b = length-take (suc w) (drop w xs) in
      let left = take (suc w) (x ∷ xs) in
      let right = take (suc w) (drop w xs) in
      let rest = drop (suc w) (drop w xs) in
      let more = length-merge_windows fuel (suc w) rest h (omega (arith, a.0, b.0, k)) in
      omega (
        arith,
        a.0,
        b.0,
        more,
        length-window left right,
        length-append (window left right) (merge_windows fuel (suc w) rest),
      )

  -- A pass leaves windows of twice the width in order, and the last property of each name.
  record Passed (w : ℕ) (xs out : List (Option (Property D))) : Type 0 where
    short : All ShortSlot out
    runs : (n : ℕ) → Runs n w out
    same : (k : Bytes) → last_named k out ≡ last_named k xs

  nothing_left :
      (fuel w : ℕ) (ys : List (Option (Property D))) → ys ≡ [] → merge_windows fuel w ys ≡ []
  unfolding merge_windows
  nothing_left zero w ys e = refl
  nothing_left (suc fuel) w [] e = refl
  nothing_left (suc fuel) w (y ∷ ys) e = ground arith

  window-Runs :
      (m : ℕ) (a b : List (Option (Property D)))
      → length a ≤ m
      → (length a ≡ m) ⊎ (b ≡ [])
      → Sorted a
      → ((n : ℕ) → Runs n m b)
      → (n : ℕ) → Runs n m (a ++ b)
  window-Runs m a b h e s r zero = tt
  window-Runs m a b h e s r (suc n) =
      let cut = take-append m a b h e in
      (subst Sorted (sym cut.0) s, subst (Runs n m) (sym cut.1) (r n))

  round :
      (b : Bool) (xs ys : List (Option (Property D)))
      → Sorted ys
      → ((k : Bytes) → last_named k ys ≡ last_named k xs)
      → (b ≡ false → Sorted xs)
      → Sorted (elim b [ true ↦ ys | false ↦ xs ])
        × ((k : Bytes) → last_named k (elim b [ true ↦ ys | false ↦ xs ]) ≡ last_named k xs)
  round true xs ys h e k = (h, e)
  round false xs ys h e k = (k refl, λ n. refl)

  size_or :
      {n m l : ℕ} (ys : List (Option (Property D)))
      → l ≡ n
      → (n ≡ m) ⊎ (ys ≡ [])
      → (l ≡ m) ⊎ (ys ≡ [])
  size_or ys e (inl h) = inl (e ∙ h)
  size_or ys e (inr h) = inr h

  cong2 : {a a' b b' : Option (Property D)} → a ≡ a' → b ≡ b' → or_else a b ≡ or_else a' b'
  cong2 e h = cc

  drop-nil : (n : ℕ) → drop {A = Option (Property D)} n [] ≡ []
  drop-nil zero = refl
  drop-nil (suc n) = refl

  take-all : (n : ℕ) (xs : List (Option (Property D))) → length xs ≤ n → take n xs ≡ xs
  take-all zero [] h = refl
  take-all zero (x ∷ xs) h = absurd (omega arith)
  take-all (suc n) [] h = refl
  take-all (suc n) (x ∷ xs) h = ap (λ ys. x ∷ ys) (take-all n xs (omega arith))

  full_windows :
      (fuel w : ℕ) (zs : List (Option (Property D))) (n m : ℕ)
      → n ≤ w
      → m ≤ w
      → (n ≡ w) ⊎ (drop w zs ≡ [])
      → (m ≡ w) ⊎ (drop w (drop w zs) ≡ [])
      → (n + m ≡ 2 * w) ⊎ (merge_windows fuel w (drop w (drop w zs)) ≡ [])
  full_windows fuel w zs n m h k (inl e) (inl e') = inl (omega arith)
  full_windows fuel w zs n m h k e (inr e') = inr (nothing_left fuel w _ e')
  full_windows fuel w zs n m h k (inr e) e' =
      inr (nothing_left fuel w _ (ap (drop w) e ∙ drop-nil w))

  merge_windows-Passed :
      (fuel w : ℕ) (xs : List (Option (Property D)))
      → 0 < w
      → length xs ≤ fuel
      → All ShortSlot xs
      → ((n : ℕ) → Runs n w xs)
      → Passed (2 * w) xs (merge_windows fuel w xs)
  unfolding merge_windows
  merge_windows-Passed zero w [] h k s r = record {
    short = tt;
    runs = λ n. Runs-nil n (2 * w) [] refl;
    same = λ k. refl;
  }
  merge_windows-Passed zero w (x ∷ xs) h k s r = absurd (omega arith)
  merge_windows-Passed (suc fuel) w [] h k s r = record {
    short = tt;
    runs = λ n. Runs-nil n (2 * w) [] refl;
    same = λ k. refl;
  }
  merge_windows-Passed (suc fuel) zero (x ∷ xs) h k s r = absurd (omega arith)
  merge_windows-Passed (suc fuel) (suc v) (x ∷ xs) h k s r =
      let w = suc v in
      let zs = x ∷ xs in
      let left = take w zs in
      let right = take w (drop w zs) in
      let rest = drop w (drop w zs) in
      let a = length-take w zs in
      let b = length-take w (drop w zs) in
      let a' = length-take v xs in
      let s' = take-All ShortSlot w zs s in
      let s'' = take-All ShortSlot w (drop w zs) s'.1 in
      let won = window_lem left right s'.0 s''.0 (r 1).0 (r 2).1.0 in
      let more =
        merge_windows-Passed fuel w rest h (omega (arith, a'.0, b.0, k)) s''.1
          (λ n. (r (suc (suc n))).1.1) in
      let size = length-window left right in
      record {
        short =
            All-append ShortSlot (window left right) (merge_windows fuel w rest) won.0 more.short;
        runs =
            window-Runs (2 * w) (window left right) (merge_windows fuel w rest)
              (omega (arith, size, a.1, b.1))
              (size_or _ size (full_windows fuel w zs (length left) (length right) a.1 b.1 a.2 b.2))
              won.1 more.runs;
        same = λ name.
            last_named-append name (window left right) (merge_windows fuel w rest)
            ∙ (cong2 (more.same name) (won.2 name)
                ∙ (sym (
                      or_else_assoc (last_named name rest) (last_named name right)
                        (last_named name left))
                    ∙ (ap (λ o. or_else o (last_named name left))
                          (last_named-take name w (drop w zs))
                        ∙ last_named-take name w zs)));
      }

  -- The passes end with one window, which is in order.
  pub merge_passes_lem :
      (fuel w : ℕ) (xs : List (Option (Property D)))
      → 0 < w
      → length xs ≤ fuel + w
      → All ShortSlot xs
      → ((n : ℕ) → Runs n w xs)
      → Sorted (merge_passes fuel w xs)
        × ((k : Bytes) → last_named k (merge_passes fuel w xs) ≡ last_named k xs)
  unfolding merge_passes
  merge_passes_lem zero w xs h k s r =
      (subst Sorted (take-all w xs (omega arith)) (r 1).0, λ n. refl)
  merge_passes_lem (suc fuel) w xs h k s r =
      let done = merge_windows-Passed (length xs) w xs h (omega arith) s r in
      let size = length-merge_windows (length xs) w xs h (omega arith) in
      let more =
        merge_passes_lem fuel (2 * w) (merge_windows (length xs) w xs) (omega arith)
          (omega (arith, size)) done.short done.runs in
      round (ltb w (length xs)) xs _ more.0 (λ n. more.1 n ∙ done.same n)
        (λ e. subst Sorted (take-all w xs (ground arith)) (r 1).0)
