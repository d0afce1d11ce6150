-- ===== src/Cat/Order.antt =====
-- src/utils/ckdl-cat.c: `kdl_str_cmp` is the lexicographic order of bytes on names below 2^31 bytes.
use ckdl.Prelude.{
  subst, ℕ, zero, suc, ◌^◌, ◌<◌, ◌≤◌, ◌≡◌, ◌⊎◌, inl, inr, refl, sym, arith, Option, none, some, [],
  ◌∷◌, Bytes, length, ltb, if◌then◌else◌,
}
use Prim.Native.Nat.{compare, Ordering, lt, eq, gt}
use ckdl.Cat.{Property, memcmp, int_difference, str_cmp, slot_cmp}

-- The lexicographic order, a proper prefix first.
abbrev pub Before : Bytes → Bytes → Type 0
Before s [] = ⊥
Before [] (b ∷ t) = Unit
Before (a ∷ s) (b ∷ t) = (a < b) ⊎ ((a ≡ b) × Before s t)

pub Before-trans : (s t u : Bytes) → Before s t → Before t u → Before s u
Before-trans s t [] h k = k
Before-trans s [] (c ∷ u) h k = elim h [ ]
Before-trans [] (b ∷ t) (c ∷ u) h k = tt
Before-trans (a ∷ s) (b ∷ t) (c ∷ u) (inl h) (inl k) = inl (omega arith)
Before-trans (a ∷ s) (b ∷ t) (c ∷ u) (inl h) (inr k) = let e = k.0 in inl (omega arith)
Before-trans (a ∷ s) (b ∷ t) (c ∷ u) (inr h) (inl k) = let e = h.0 in inl (omega arith)
Before-trans (a ∷ s) (b ∷ t) (c ∷ u) (inr h) (inr k) =
    let e = h.0 in let e' = k.0 in inr (omega arith, Before-trans s t u h.1 k.1)

pub Before-irrefl : (s : Bytes) → ¬ Before s s
Before-irrefl [] h = h
Before-irrefl (a ∷ s) (inl h) = absurd (omega arith)
Before-irrefl (a ∷ s) (inr h) = Before-irrefl s h.1

-- What a sign says of two strings, and of two lengths.
abbrev pub Says : Ordering → Bytes → Bytes → Type 0
Says lt s t = Before s t
Says gt s t = Before t s
Says eq s t = s ≡ t

abbrev LengthSays : Ordering → ℕ → ℕ → Type 0
LengthSays lt a b = a < b
LengthSays gt a b = b < a
LengthSays eq a b = a ≡ b

int_difference-LengthSays :
    (a b : ℕ) → a < 2 ^ 31 → b < 2 ^ 31 → LengthSays (int_difference a b) a b
int_difference-LengthSays a b h k = ground arith

compare-LengthSays : (a b : ℕ) → LengthSays (compare a b) a b
compare-LengthSays a b = ground arith

after-Says :
    (c o : Ordering) (a b : ℕ) (s t : Bytes)
    → LengthSays c a b
    → Says o s t
    → Says (elim c [ eq ↦ o | r ↦ r ]) (a ∷ s) (b ∷ t)
after-Says lt o a b s t h k = inl h
after-Says gt o a b s t h k = inl h
after-Says eq lt a b s t h k = inr (h, k)
after-Says eq gt a b s t h k = inr (sym h, k)
after-Says eq eq a b s t h k = cc

-- The bytes behind the first, and then the lengths.
abbrev and_lengths : Ordering → Ordering → Ordering
and_lengths m l = elim m [ eq ↦ l | o ↦ o ]

and_lengths_assoc :
    (c m l : Ordering)
    → and_lengths (elim c [ eq ↦ m | o ↦ o ]) l ≡ elim c [ eq ↦ and_lengths m l | o ↦ o ]
and_lengths_assoc lt m l = refl
and_lengths_assoc gt m l = refl
and_lengths_assoc eq m l = refl

LengthSays-suc : (l : Ordering) (a b : ℕ) → LengthSays l (suc a) (suc b) → LengthSays l a b
LengthSays-suc lt a b h = omega arith
LengthSays-suc gt a b h = omega arith
LengthSays-suc eq a b h = omega arith

lengths-Says :
    (l : Ordering) (n : ℕ) (s t : Bytes)
    → n ≤ length s
    → n ≤ length t
    → (n ≡ length s) ⊎ (n ≡ length t)
    → LengthSays l (length s) (length t)
    → Says (and_lengths (memcmp n s t) l) s t
lengths-Says lt zero s [] a b c h = absurd (omega arith)
lengths-Says lt zero [] (y ∷ t) a b c h = tt
lengths-Says lt zero (x ∷ s) (y ∷ t) a b c h = absurd (omega arith)
lengths-Says gt zero [] t a b c h = absurd (omega arith)
lengths-Says gt zero (x ∷ s) [] a b c h = tt
lengths-Says gt zero (x ∷ s) (y ∷ t) a b c h = absurd (omega arith)
lengths-Says eq zero [] [] a b c h = refl
lengths-Says eq zero [] (y ∷ t) a b c h = absurd (omega arith)
lengths-Says eq zero (x ∷ s) t a b c h = absurd (omega arith)
lengths-Says l (suc n) [] t a b c h = absurd (omega arith)
lengths-Says l (suc n) (x ∷ s) [] a b c h = absurd (omega arith)
lengths-Says l (suc n) (x ∷ s) (y ∷ t) a b c h =
    let ih =
      lengths-Says l n s t (omega arith) (omega arith) (ground arith) (LengthSays-suc l _ _ h) in
    rw (and_lengths_assoc (compare x y) (memcmp n s t) l)
      (after-Says (compare x y) _ x y s t (compare-LengthSays x y) ih)

-- A name that the difference of lengths as an `int` is right for.
abbrev pub Short : Bytes → Type 0
Short s = length s < 2 ^ 31

abbrev pub ShortSlot : {D : Type 0} → Option (Property D) → Type 0
ShortSlot none = Unit
ShortSlot (some p) = Short p.name

-- `kdl_str_cmp` on two names below 2^31 bytes is the lexicographic order: its sign is negative where the
-- first comes before, positive where it comes after, and 0 where the two are the same.
pub str_cmp-Says : (s t : Bytes) → Short s → Short t → Says (str_cmp (some s) (some t)) s t
unfolding str_cmp
str_cmp-Says s t h k =
    lengths-Says (int_difference (length s) (length t))
      (if ltb (length t) (length s) then length t else length s) s t (ground arith) (ground arith)
      (ground arith) (int_difference-LengthSays (length s) (length t) h k)

module _ {D : Type 0} where
  -- The order of entries: by name, and those that are marked as invalid behind all others.
  abbrev pub Precedes : Option (Property D) → Option (Property D) → Type 0
  Precedes x none = Unit
  Precedes none (some q) = ⊥
  Precedes (some p) (some q) = Before p.name q.name

  -- What a sign says of two entries; two that are the same have a name.
  abbrev pub SlotSays : Ordering → Option (Property D) → Option (Property D) → Type 0
  SlotSays lt x y = Precedes x y
  SlotSays gt x y = Precedes y x
  SlotSays eq none y = ⊥
  SlotSays eq (some p) none = ⊥
  SlotSays eq (some p) (some q) = p.name ≡ q.name

  names-SlotSays :
      (o : Ordering) (p q : Property D) → Says o p.name q.name → SlotSays o (some p) (some q)
  names-SlotSays lt p q h = h
  names-SlotSays gt p q h = h
  names-SlotSays eq p q h = h

  pub slot_cmp-Says :
      (x y : Option (Property D)) → ShortSlot x → ShortSlot y → SlotSays (slot_cmp x y) x y
  unfolding str_cmp
  slot_cmp-Says none y h k = tt
  slot_cmp-Says (some p) none h k = tt
  slot_cmp-Says (some p) (some q) h k = names-SlotSays _ p q (str_cmp-Says p.name q.name h k)

  pub Precedes-trans : (x y z : Option (Property D)) → Precedes x y → Precedes y z → Precedes x z
  Precedes-trans x y none h k = tt
  Precedes-trans none none (some r) h k = elim k [ ]
  Precedes-trans none (some q) (some r) h k = elim h [ ]
  Precedes-trans (some p) none (some r) h k = elim k [ ]
  Precedes-trans (some p) (some q) (some r) h k = Before-trans p.name q.name r.name h k

  -- What comes before another is not the same.
  pub Precedes-differs : (x y : Option (Property D)) → Precedes x y → ¬ SlotSays eq x y
  Precedes-differs none y h k = k
  Precedes-differs (some p) none h k = k
  Precedes-differs (some p) (some q) h k = Before-irrefl p.name (subst (Before p.name) (sym k) h)
