-- ===== src/Cat/Unique.antt =====
-- src/utils/ckdl-cat.c: properties whose names increase are determined by what each name has.
use ckdl.Prelude.{
  ◌≡◌, ◌⊎◌, inl, inr, refl, sym, ap, ◌∙◌, subst, arith, true, none, some, List, [], ◌∷◌, Bytes,
  bytes_eq, All, if◌then◌else◌, Bool-cases, ℕ, ◌<◌,
}
use ckdl.Cat.{Property}
use ckdl.Cat.Order.{Before, Before-trans, Before-irrefl}
use ckdl.Cat.Merge.{or_else, or_else-none, bytes_eq-true}
use ckdl.Cat.Properties.{Increasing, last_property}

pub bytes_eq-same : (s : Bytes) → bytes_eq s s ≡ true
bytes_eq-same [] = refl
bytes_eq-same (b ∷ s) = let e = bytes_eq-same s in ground arith

number-cases : (a b : ℕ) → (a < b) ⊎ ((a ≡ b) ⊎ (b < a))
number-cases a b = ground arith

cons-cases :
    (a b : ℕ) (s t : Bytes)
    → (a < b) ⊎ ((a ≡ b) ⊎ (b < a))
    → Before s t ⊎ ((s ≡ t) ⊎ Before t s)
    → Before (a ∷ s) (b ∷ t) ⊎ ((a ∷ s ≡ b ∷ t) ⊎ Before (b ∷ t) (a ∷ s))
cons-cases a b s t (inl h) k = inl (inl h)
cons-cases a b s t (inr (inr h)) k = inr (inr (inl h))
cons-cases a b s t (inr (inl h)) (inl k) = inl (inr (h, k))
cons-cases a b s t (inr (inl h)) (inr (inl k)) = inr (inl cc)
cons-cases a b s t (inr (inl h)) (inr (inr k)) = inr (inr (inr (sym h, k)))

some-none : {A : Type 0} {a : A} → ¬ (some a ≡ none)
some-none e = ground arith

some_same : {A : Type 0} {a b : A} → some a ≡ some b → a ≡ b
some_same e = grind arith

compare-cases : (s t : Bytes) → Before s t ⊎ ((s ≡ t) ⊎ Before t s)
compare-cases [] [] = inr (inl refl)
compare-cases [] (b ∷ t) = inl tt
compare-cases (a ∷ s) [] = inr (inr tt)
compare-cases (a ∷ s) (b ∷ t) = cons-cases a b s t (number-cases a b) (compare-cases s t)

module _ {D : Type 0} where
  -- A name that comes before all of them has no property.
  pub absent :
      (k : Bytes) (ps : List (Property D))
      → All (λ (q : Property D). Before k q.name) ps
      → last_property k ps ≡ none
  absent k [] h = refl
  absent k (q ∷ ps) h = elim (Bool-cases (bytes_eq k q.name)) [
    | inl e ↦ absurd (Before-irrefl k (subst (Before k) (sym (bytes_eq-true k q.name e)) h.0))
    | inr e ↦ rw (absent k ps h.1, e) refl
  ]

  first_property :
      (p : Property D) (ps : List (Property D))
      → Increasing (p ∷ ps)
      → last_property p.name (p ∷ ps) ≡ some p
  first_property p ps h = rw (absent p.name ps h.0, bytes_eq-same p.name) refl

  pub Before-All :
      (k : Bytes) (q : Property D) (qs : List (Property D))
      → Before k q.name
      → All (λ (r : Property D). Before q.name r.name) qs
      → All (λ (r : Property D). Before k r.name) qs
  Before-All k q [] h a = tt
  Before-All k q (r ∷ qs) h a = (Before-trans k q.name r.name h a.0, Before-All k q qs h a.1)

  -- A first name that is not in the other list.
  not-Before :
      (p q : Property D) (ps qs : List (Property D))
      → Increasing (p ∷ ps)
      → Increasing (q ∷ qs)
      → last_property p.name (p ∷ ps) ≡ last_property p.name (q ∷ qs)
      → ¬ Before p.name q.name
  not-Before p q ps qs h k e b =
      some-none (
        sym (first_property p ps h)
        ∙ (e ∙ absent p.name (q ∷ qs) (b, Before-All p.name q qs b k.0)))

  rest_same :
      (p : Property D) (ps qs : List (Property D))
      → Increasing (p ∷ ps)
      → Increasing (p ∷ qs)
      → ((k : Bytes) → last_property k (p ∷ ps) ≡ last_property k (p ∷ qs))
      → (k : Bytes) → last_property k ps ≡ last_property k qs
  rest_same p ps qs h h' same k = elim (Bool-cases (bytes_eq k p.name)) [
    | inl e ↦
        let named = bytes_eq-true k p.name e in
        rw named (absent p.name ps h.0 ∙ sym (absent p.name qs h'.0))
    | inr e ↦
        sym (or_else-none (last_property k ps))
        ∙ (subst
              (λ b.
                or_else (last_property k ps) (if b then some p else none)
                ≡ or_else (last_property k qs) (if b then some p else none))
              e (same k)
            ∙ or_else-none (last_property k qs))
  ]

  -- Two lists whose names increase, and in which each name has the same property, are the same.
  pub unique :
      (ps qs : List (Property D))
      → Increasing ps
      → Increasing qs
      → ((k : Bytes) → last_property k ps ≡ last_property k qs)
      → ps ≡ qs
  unique [] [] h h' same = refl
  unique [] (q ∷ qs) h h' same =
      absurd (some-none (sym (first_property q qs h') ∙ sym (same q.name)))
  unique (p ∷ ps) [] h h' same = absurd (some-none (sym (first_property p ps h) ∙ same p.name))
  unique (p ∷ ps) (q ∷ qs) h h' same = elim (compare-cases p.name q.name) [
    | inl b ↦ absurd (not-Before p q ps qs h h' (same p.name) b)
    | inr (inr b) ↦ absurd (not-Before q p qs ps h' h (sym (same q.name)) b)
    | inr (inl e) ↦
        let first : p ≡ q = some_same (
          sym (first_property p ps h)
          ∙ (same p.name ∙ (ap (λ k. last_property k (q ∷ qs)) e ∙ first_property q qs h'))) in
        let h'' : Increasing (p ∷ qs) = subst (λ x. Increasing (x ∷ qs)) (sym first) h' in
        let same' : (k : Bytes) → last_property k (p ∷ ps) ≡ last_property k (p ∷ qs) =
          subst (λ x. (k : Bytes) → last_property k (p ∷ ps) ≡ last_property k (x ∷ qs)) (sym first)
            same in
        ap (λ x. x ∷ ps) first
        ∙ ap (λ xs. q ∷ xs) (unique ps qs h.1 h'.1 (rest_same p ps qs h h'' same'))
  ]
