-- ===== src/Kdlpp/Map.antt =====
-- src/bindings/cpp: assigning to the map of properties of a node.
use ckdl.Prelude.{
  ◌≡◌, refl, sym, ap, ◌∙◌, subst, arith, false, Bool-cases, inl, inr, Option, none, some, List, [],
  ◌∷◌, Bytes, bytes_eq, All, ℕ, ◌<◌, if◌then◌else◌,
}
use Prim.Native.Nat.{compare, Ordering, lt, eq, gt}
use ckdl.Number.{Number, integer, floating_point, string_encoded}
use ckdl.Parser.{Value, null, boolean, number, string}
use ckdl.Cat.{Property}
use ckdl.Cat.Order.{Before, Says}
use ckdl.Cat.Merge.{or_else, or_else_assoc, or_else-none, bytes_eq-true}
use ckdl.Cat.Properties.{Increasing, last_property}
use ckdl.Cat.Unique.{absent, Before-All}
use ckdl.Kdlpp.{
  CppValue, key_compare, assign, value_to_variant, value_of_variant, number_to_variant,
  number_of_variant,
}

tail-Says : (o : Ordering) (a b : ℕ) (s t : Bytes) → a ≡ b → Says o s t → Says o (a ∷ s) (b ∷ t)
tail-Says lt a b s t h k = inr (h, k)
tail-Says gt a b s t h k = inr (sym h, k)
tail-Says eq a b s t h k = cc

byte-Says :
    (o : Ordering) (a b : ℕ) (s t : Bytes)
    → (o ≡ lt → a < b)
    → (o ≡ gt → b < a)
    → (o ≡ eq → a ≡ b)
    → Says (key_compare s t) s t
    → Says (elim o [ eq ↦ key_compare s t | r ↦ r ]) (a ∷ s) (b ∷ t)
byte-Says lt a b s t f g h k = inl (f refl)
byte-Says gt a b s t f g h k = inl (g refl)
byte-Says eq a b s t f g h k = tail-Says (key_compare s t) a b s t (h refl) k

-- The order of keys is the lexicographic order.
key_compare-Says : (s t : Bytes) → Says (key_compare s t) s t
key_compare-Says [] [] = refl
key_compare-Says [] (b ∷ t) = tt
key_compare-Says (a ∷ s) [] = tt
key_compare-Says (a ∷ s) (b ∷ t) =
    byte-Says (compare a b) a b s t (λ e. ground arith) (λ e. ground arith) (λ e. ground arith)
      (key_compare-Says s t)

module _ {D : Type 0} where
  number-kept : (n : Number D) → number_of_variant (number_to_variant n) ≡ n
  number-kept (integer n) = refl
  number-kept (floating_point f) = refl
  number-kept (string_encoded s) = refl

  -- A value is the same after the conversion to C++ and back.
  pub value-kept : (v : Value D) → value_of_variant (value_to_variant v) ≡ v
  value-kept null = refl
  value-kept (boolean b) = refl
  value-kept (number n) = ap number (number-kept n)
  value-kept (string s) = refl

  abbrev pub as_property : Bytes × CppValue D → Property D
  as_property p = record {
    name = p.0;
    type_annotation = p.1.type_annotation;
    value = value_of_variant p.1.value;
  }

  abbrev pub as_properties : List (Bytes × CppValue D) → List (Property D)
  as_properties [] = []
  as_properties (p ∷ m) = as_property p ∷ as_properties m

  abbrev pub under : Bytes → Property D → Option (Property D)
  under k p = if bytes_eq k p.name then some p else none

  under_swap :
      (k : Bytes) (p : Property D) (ps : List (Property D))
      → All (λ (q : Property D). Before p.name q.name) ps
      → or_else (last_property k ps) (under k p) ≡ or_else (under k p) (last_property k ps)
  under_swap k p ps h = elim (Bool-cases (bytes_eq k p.name)) [
    | inl e ↦
        (let n : last_property k ps ≡ none = absent k ps (
            subst (λ x. All (λ (q : Property D). Before x q.name) ps)
              (sym (bytes_eq-true k p.name e)) h) in
          rw (e, n) refl)
    | inr e ↦ rw e (or_else-none (last_property k ps))
  ]

  under_same :
      (k : Bytes) (p q : Property D) (o : Option (Property D))
      → p.name ≡ q.name
      → or_else (under k p) o ≡ or_else (under k p) (or_else o (under k q))
  under_same k p q o e = elim (Bool-cases (bytes_eq k p.name)) [
    | inl h ↦ rw h refl
    | inr h ↦
        (let h' : bytes_eq k q.name ≡ false = ap (bytes_eq k) (sym e) ∙ h in
          rw (h, h') (sym (or_else-none o)))
  ]

  -- `assign` keeps what comes behind a name behind it.
  assign-All :
      (k x : Bytes) (v : CppValue D) (m : List (Bytes × CppValue D))
      → Before x k
      → All (λ (q : Property D). Before x q.name) (as_properties m)
      → All (λ (q : Property D). Before x q.name) (as_properties (assign k v m))
  unfolding assign
  assign-All k x v [] h a = (h, tt)
  assign-All k x v (p ∷ m) h a =
      let ih = assign-All k x v m h a.1 in
      elim (key_compare k p.0)
        as (λ o.
          All (λ (q : Property D). Before x q.name)
            (as_properties
              (elim o [ lt ↦ (k, v) ∷ (p ∷ m) | eq ↦ (p.0, v) ∷ m | gt ↦ p ∷ assign k v m ]))) [
                | lt ↦ (h, a)
                | eq ↦ (a.0, a.1)
                | gt ↦ (a.0, ih)
              ]

  -- The map is in order, and has this property before those that it had.
  abbrev Assigned : Property D → List (Bytes × CppValue D) → List (Bytes × CppValue D) → Type 0
  Assigned new m m' =
      Increasing (as_properties m')
      × ((x : Bytes)
          → last_property x (as_properties m')
            ≡ or_else (under x new) (last_property x (as_properties m)))

  Assigned-at :
      (o : Ordering) (k : Bytes) (v : CppValue D) (p : Bytes × CppValue D)
      (m m' : List (Bytes × CppValue D))
      → Says o k p.0
      → Increasing (as_properties (p ∷ m))
      → Assigned (as_property (k, v)) m m'
      → (Before p.0 k → All (λ (q : Property D). Before p.0 q.name) (as_properties m'))
      → Assigned
          (as_property (k, v))
          (p ∷ m)
          (elim o [ lt ↦ (k, v) ∷ (p ∷ m) | eq ↦ (p.0, v) ∷ m | gt ↦ p ∷ m' ])
  Assigned-at lt k v p m m' s h a b =
      let behind : All (λ (q : Property D). Before k q.name) (as_properties (p ∷ m)) =
        (s, Before-All k (as_property p) (as_properties m) s h.0) in
      ((behind, h), λ x. under_swap x (as_property (k, v)) (as_properties (p ∷ m)) behind)
  Assigned-at eq k v p m m' s h a b = (
    (h.0, h.1),
    λ x.
        under_swap x (as_property (p.0, v)) (as_properties m) h.0
        ∙ (ap (λ n. or_else (under x (as_property (n, v))) (last_property x (as_properties m)))
              (sym s)
            ∙ under_same x (as_property (k, v)) (as_property p) (last_property x (as_properties m))
                s),
  )
  Assigned-at gt k v p m m' s h a b = (
    (b s, a.0),
    λ x.
        ap (λ o. or_else o (under x (as_property p))) (a.1 x)
        ∙ or_else_assoc (under x (as_property (k, v))) (last_property x (as_properties m))
            (under x (as_property p)),
  )

  -- `properties()[key] = value` keeps the map in order, and changes nothing but what the key has.
  pub assign-Assigned :
      (k : Bytes) (v : CppValue D) (m : List (Bytes × CppValue D))
      → Increasing (as_properties m)
      → Assigned (as_property (k, v)) m (assign k v m)
  unfolding assign
  assign-Assigned k v [] h = ((tt, tt), λ x. sym (or_else-none (under x (as_property (k, v)))))
  assign-Assigned k v (p ∷ m) h =
      Assigned-at (key_compare k p.0) k v p m (assign k v m) (key_compare-Says k p.0) h
        (assign-Assigned k v m h.1) (λ b. assign-All k p.0 v m b h.0)
