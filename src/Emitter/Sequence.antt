-- ===== src/Emitter/Sequence.antt =====
-- src/emitter.c: calls in a row, of which each is made if those before it went well.
use ckdl.Prelude.{Bool, true, false, ◌≡◌, refl}
use ckdl.Emitter.{Emitter, Emit, ◌and_then◌}

module _ {W : Type 0} where
  after-same :
      (r : Emitter W × Bool) (b b' : Emit W)
      → ((e : Emitter W) → b e ≡ b' e)
      → elim (r.1) as (λ _. Emitter W × Bool) [ true ↦ b r.0 | false ↦ (r.0, false) ]
        ≡ elim (r.1) [ true ↦ b' r.0 | false ↦ (r.0, false) ]
  after-same (e, true) b b' h = h e
  after-same (e, false) b b' h = refl

  pub then-same :
      (a b b' : Emit W) (e : Emitter W)
      → ((e' : Emitter W) → b e' ≡ b' e')
      → (a and_then b) e ≡ (a and_then b') e
  then-same a b b' e h = after-same (a e) b b' h

  after_assoc :
      (r : Emitter W × Bool) (b c : Emit W)
      → elim ((elim (r.1) as (λ _. Emitter W × Bool) [ true ↦ b r.0 | false ↦ (r.0, false) ]).1)
          as (λ _. Emitter W × Bool) [
            | true ↦
                c (elim (r.1) as (λ _. Emitter W × Bool) [ true ↦ b r.0 | false ↦ (r.0, false) ]).0
            | false ↦ (
              (elim (r.1) as (λ _. Emitter W × Bool) [ true ↦ b r.0 | false ↦ (r.0, false) ]).0,
              false,
            )
          ]
        ≡ elim (r.1) [ true ↦ (b and_then c) r.0 | false ↦ (r.0, false) ]
  after_assoc (e, true) b c = refl
  after_assoc (e, false) b c = refl

  pub then_assoc :
      (a b c : Emit W) (e : Emitter W)
      → ((a and_then b) and_then c) e ≡ (a and_then (b and_then c)) e
  then_assoc a b c e = after_assoc (a e) b c
