-- ===== src/Cat/Merge.antt =====
-- src/utils/ckdl-cat.c: merging two runs in order leaves a run in order, in which the right run overwrites
-- the left one.
use ckdl.Prelude.{
  ◌≡◌, ◌⊎◌, inl, inr, refl, sym, ap, ◌∙◌, subst, Bool, true, false, Option, none, some, List, [],
  ◌∷◌, Bytes, bytes_eq, All, arith, if◌then◌else◌,
}
use Prim.Native.Nat.{Ordering, lt, eq, gt}
use ckdl.Cat.{Property, slot_cmp}
use ckdl.Cat.Order.{
  Before, Before-irrefl, ShortSlot, Precedes, Precedes-trans, SlotSays, slot_cmp-Says,
}

-- The first option, or else the second.
abbrev pub or_else : {A : Type 0} → Option A → Option A → Option A
or_else none b = b
or_else (some a) b = some a

pub or_else_assoc :
    {A : Type 0} (a b c : Option A) → or_else (or_else a b) c ≡ or_else a (or_else b c)
or_else_assoc none b c = refl
or_else_assoc (some a) b c = refl

pub or_else-none : {A : Type 0} (a : Option A) → or_else a none ≡ a
or_else-none none = refl
or_else-none (some a) = refl

or_else-swap :
    {A : Type 0} (a b c : Option A)
    → (b ≡ none) ⊎ (c ≡ none)
    → or_else (or_else a b) c ≡ or_else (or_else a c) b
or_else-swap (some a) b c h = refl
or_else-swap none none c h = sym (or_else-none c)
or_else-swap none (some b) none h = refl
or_else-swap none (some b) (some c) (inl h) = ground arith
or_else-swap none (some b) (some c) (inr h) = ground arith

-- A name that the second has, the third is not asked for.
or_else-covered :
    {A : Type 0} (a b c d : Option A)
    → (d ≡ none) ⊎ ((x : A) × (b ≡ some x))
    → or_else (or_else a b) c ≡ or_else (or_else a b) (or_else c d)
or_else-covered a b c none h = ap (or_else (or_else a b)) (sym (or_else-none c))
or_else-covered a b c (some d) (inl h) = ground arith
or_else-covered none b c (some d) (inr h) = rw h.1 refl
or_else-covered (some a) b c (some d) (inr h) = refl

pub bytes_eq-true : (s t : Bytes) → bytes_eq s t ≡ true → s ≡ t
bytes_eq-true [] [] h = refl
bytes_eq-true (a ∷ s) (b ∷ t) h = let e = bytes_eq-true s t in grind arith
bytes_eq-true [] (b ∷ t) h = ground arith
bytes_eq-true (a ∷ s) [] h = ground arith

-- The case of a sign.
abbrev pub choose : {A : Type 0} → Ordering → A → A → A → A
choose o a b c = elim o [ lt ↦ a | gt ↦ b | eq ↦ c ]

flip : {A B : Type 0} → A ⊎ B → B ⊎ A
flip (inl a) = inr a
flip (inr b) = inl b

module _ {D : Type 0} where
  -- Each entry comes before all that follow it.
  abbrev pub Sorted : List (Option (Property D)) → Type 0
  Sorted [] = Unit
  Sorted (x ∷ xs) = All (Precedes x) xs × Sorted xs

  -- The property of this name at an entry, and the last one in a list.
  abbrev pub named : Bytes → Option (Property D) → Option (Property D)
  named k none = none
  named k (some p) = if bytes_eq k p.name then some p else none

  abbrev pub last_named : Bytes → List (Option (Property D)) → Option (Property D)
  last_named k [] = none
  last_named k (x ∷ xs) = or_else (last_named k xs) (named k x)

  choose-lem :
      {A : Type 0} (P : A → Type 0) (o : Ordering) (x y : Option (Property D)) {a b c : A}
      → SlotSays o x y
      → (Precedes x y → P a)
      → (Precedes y x → P b)
      → (SlotSays eq x y → P c)
      → P (choose o a b c)
  choose-lem P lt x y h f g k = f h
  choose-lem P gt x y h f g k = g h
  choose-lem P eq x y h f g k = k h

  -- What `overwriting_merge` makes of two runs in order.
  unfoldable pub interleave :
      List (Option (Property D)) → List (Option (Property D)) → List (Option (Property D))
  interleave [] ys = ys
  interleave (x ∷ xs) [] = x ∷ xs
  interleave (x ∷ xs) (y ∷ ys) =
      choose (slot_cmp x y) (x ∷ interleave xs (y ∷ ys)) (y ∷ interleave (x ∷ xs) ys)
        (y ∷ interleave xs ys)

  pub Precedes-All :
      (x y : Option (Property D)) (ys : List (Option (Property D)))
      → Precedes x y
      → All (Precedes y) ys
      → All (Precedes x) ys
  Precedes-All x y [] h k = tt
  Precedes-All x y (z ∷ ys) h k = (Precedes-trans x y z h k.0, Precedes-All x y ys h k.1)

  -- Two entries of one name come before the same entries.
  same-Precedes : (x y z : Option (Property D)) → SlotSays eq x y → Precedes x z → Precedes y z
  same-Precedes x y none e h = tt
  same-Precedes none y (some r) e h = elim e [ ]
  same-Precedes (some p) none (some r) e h = elim e [ ]
  same-Precedes (some p) (some q) (some r) e h = subst (λ n. Before n r.name) e h

  pub same-All :
      (x y : Option (Property D)) (zs : List (Option (Property D)))
      → SlotSays eq x y
      → All (Precedes x) zs
      → All (Precedes y) zs
  same-All x y [] e h = tt
  same-All x y (z ∷ zs) e h = (same-Precedes x y z e h.0, same-All x y zs e h.1)

  pub interleave-All :
      (P : Option (Property D) → Type 0) (xs ys : List (Option (Property D)))
      → All ShortSlot xs
      → All ShortSlot ys
      → All P xs
      → All P ys
      → All P (interleave xs ys)
  unfolding interleave
  interleave-All P [] ys s t h k = k
  interleave-All P (x ∷ xs) [] s t h k = h
  interleave-All P (x ∷ xs) (y ∷ ys) s t h k =
      choose-lem (All P) (slot_cmp x y) x y (slot_cmp-Says x y s.0 t.0)
        (λ _. (h.0, interleave-All P xs (y ∷ ys) s.1 t h.1 k))
        (λ _. (k.0, interleave-All P (x ∷ xs) ys s t.1 h k.1))
        (λ _. (k.0, interleave-All P xs ys s.1 t.1 h.1 k.1))

  pub interleave-Sorted :
      (xs ys : List (Option (Property D)))
      → All ShortSlot xs
      → All ShortSlot ys
      → Sorted xs
      → Sorted ys
      → Sorted (interleave xs ys)
  unfolding interleave
  interleave-Sorted [] ys s t h k = k
  interleave-Sorted (x ∷ xs) [] s t h k = h
  interleave-Sorted (x ∷ xs) (y ∷ ys) s t h k =
      choose-lem Sorted (slot_cmp x y) x y (slot_cmp-Says x y s.0 t.0)
        (λ e. (
          interleave-All (Precedes x) xs (y ∷ ys) s.1 t h.0 (e, Precedes-All x y ys e k.0),
          interleave-Sorted xs (y ∷ ys) s.1 t h.1 k,
        ))
        (λ e. (
          interleave-All (Precedes y) (x ∷ xs) ys s t.1 (e, Precedes-All y x xs e h.0) k.0,
          interleave-Sorted (x ∷ xs) ys s t.1 h k.1,
        ))
        (λ e. (
          interleave-All (Precedes y) xs ys s.1 t.1 (same-All x y xs e h.0) k.0,
          interleave-Sorted xs ys s.1 t.1 h.1 k.1,
        ))

  names-apart :
      (b c : Bool) (p q : Property D) {k : Bytes}
      → (b ≡ true → k ≡ p.name)
      → (c ≡ true → k ≡ q.name)
      → Before p.name q.name
      → ((if b then some p else none) ≡ none) ⊎ ((if c then some q else none) ≡ none)
  names-apart false c p q f g h = inl refl
  names-apart true false p q f g h = inr refl
  names-apart true true p q f g h =
      absurd (Before-irrefl p.name (subst (Before p.name) (sym (g refl) ∙ f refl) h))

  both-apart :
      {a b c : Option (Property D)}
      → (a ≡ none) ⊎ (b ≡ none)
      → (a ≡ none) ⊎ (c ≡ none)
      → (a ≡ none) ⊎ (or_else b c ≡ none)
  both-apart (inl h) k = inl h
  both-apart (inr h) (inl k) = inl k
  both-apart (inr h) (inr k) = inr (rw h k)

  if-same :
      (b c : Bool)
      → b ≡ c
      → (p q : Property D)
      → ((if b then some p else none) ≡ none)
        ⊎ ((r : Property D) × ((if c then some q else none) ≡ some r))
  if-same false c e p q = inl refl
  if-same true true e p q = inr (q, refl)
  if-same true false e p q = ground arith

  -- An entry that comes before another, or before all of a list, does not have its name.
  named-apart :
      (k : Bytes) (x y : Option (Property D))
      → Precedes x y
      → (named k x ≡ none) ⊎ (named k y ≡ none)
  named-apart k none y h = inl refl
  named-apart k (some p) none h = inr refl
  named-apart k (some p) (some q) h =
      names-apart (bytes_eq k p.name) (bytes_eq k q.name) p q (bytes_eq-true k p.name)
        (bytes_eq-true k q.name) h

  last_named-apart :
      (k : Bytes) (x : Option (Property D)) (ys : List (Option (Property D)))
      → All (Precedes x) ys
      → (named k x ≡ none) ⊎ (last_named k ys ≡ none)
  last_named-apart k x [] h = inr refl
  last_named-apart k x (y ∷ ys) h = both-apart (last_named-apart k x ys h.1) (named-apart k x y h.0)

  named-same :
      (k : Bytes) (x y : Option (Property D))
      → SlotSays eq x y
      → (named k x ≡ none) ⊎ ((q : Property D) × (named k y ≡ some q))
  named-same k none y h = inl refl
  named-same k (some p) none h = elim h [ ]
  named-same k (some p) (some q) h =
      if-same (bytes_eq k p.name) (bytes_eq k q.name) (ap (bytes_eq k) h) p q

  pub last_named-interleave :
      (k : Bytes) (xs ys : List (Option (Property D)))
      → All ShortSlot xs
      → All ShortSlot ys
      → Sorted xs
      → Sorted ys
      → last_named k (interleave xs ys) ≡ or_else (last_named k ys) (last_named k xs)
  unfolding interleave
  last_named-interleave k [] ys s t h h' = sym (or_else-none (last_named k ys))
  last_named-interleave k (x ∷ xs) [] s t h h' = refl
  last_named-interleave k (x ∷ xs) (y ∷ ys) s t h h' =
      choose-lem (λ zs. last_named k zs ≡ or_else (last_named k (y ∷ ys)) (last_named k (x ∷ xs)))
        (slot_cmp x y) x y (slot_cmp-Says x y s.0 t.0)
        (λ e.
          ap (λ o. or_else o (named k x)) (last_named-interleave k xs (y ∷ ys) s.1 t h.1 h')
          ∙ or_else_assoc (last_named k (y ∷ ys)) (last_named k xs) (named k x))
        (λ e.
          ap (λ o. or_else o (named k y)) (last_named-interleave k (x ∷ xs) ys s t.1 h h'.1)
          ∙ or_else-swap (last_named k ys) (last_named k (x ∷ xs)) (named k y)
              (flip (last_named-apart k y (x ∷ xs) (e, Precedes-All y x xs e h.0))))
        (λ e.
          ap (λ o. or_else o (named k y)) (last_named-interleave k xs ys s.1 t.1 h.1 h'.1)
          ∙ (or_else-swap (last_named k ys) (last_named k xs) (named k y)
                (flip (last_named-apart k y xs (same-All x y xs e h.0)))
              ∙ or_else-covered (last_named k ys) (named k y) (last_named k xs) (named k x)
                  (named-same k x y e)))
