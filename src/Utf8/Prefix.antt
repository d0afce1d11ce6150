-- ===== src/Utf8/Prefix.antt =====
-- src/utf8.c: `_kdl_pop_codepoint` on part of a string, as the tokenizer calls it between reads.
use ckdl.Prelude.{
  drop, length-append, ◌-◌, ℕ, ◌+◌, ◌≤◌, ◌<◌, ◌≡◌, refl, arith, [], ◌∷◌, ◌++◌, Bytes, length,
}
use ckdl.Bits.{and_80}
use ckdl.Utf8.{Popped, ok, eof, incomplete, decode_error, pop_codepoint}

-- The answer with more bytes behind the input. A verdict stays; `eof` and `incomplete` are open.
abbrev pub Extends : Bytes → Bytes → Popped → Type 0
Extends s more (ok c r) = pop_codepoint (s ++ more) ≡ ok c (r ++ more)
Extends s more decode_error = pop_codepoint (s ++ more) ≡ decode_error
Extends s more eof = s ≡ []
Extends s more incomplete = length s < 4

pub pop_Extends : (s more : Bytes) → Extends s more (pop_codepoint s)
unfolding pop_codepoint
pop_Extends [] more = refl
pop_Extends (a ∷ []) more = ground arith
pop_Extends (a ∷ b ∷ []) more = ground arith
pop_Extends (a ∷ b ∷ c ∷ []) more = ground arith
pop_Extends (a ∷ b ∷ c ∷ d ∷ s) more = ground arith

-- A code point takes 1 to 4 bytes off the front.
pub pop_takes :
    (s : Bytes) {c : ℕ} {r : Bytes}
    → pop_codepoint s ≡ ok c r
    → (length r < length s) × (length s ≤ length r + 4)
unfolding pop_codepoint
pop_takes [] h = ground arith
pop_takes (a ∷ []) h = ground arith
pop_takes (a ∷ b ∷ []) h = ground arith
pop_takes (a ∷ b ∷ c ∷ []) h = ground arith
pop_takes (a ∷ b ∷ c ∷ d ∷ s) h = ground arith

behind-append : (p s : Bytes) → drop (length (p ++ s) - length s) (p ++ s) ≡ s
behind-append p s =
    let taken : length (p ++ s) - length s ≡ length p = omega (arith, length-append p s) in
    rw taken (drop_front p s)
  where
    drop_front : (p s : Bytes) → drop (length p) (p ++ s) ≡ s
    drop_front [] s = refl
    drop_front (b ∷ p) s = drop_front p s

-- What is behind a code point is what follows the bytes that it took.
pub pop_rest :
    (s : Bytes) {c : ℕ} {r : Bytes} → pop_codepoint s ≡ ok c r → drop (length s - length r) s ≡ r
unfolding pop_codepoint
pop_rest [] h = ground arith
pop_rest (a ∷ []) h = ground (arith, behind-append (a ∷ []) [])
pop_rest (a ∷ b ∷ []) h =
    ground (arith, behind-append (a ∷ []) (b ∷ []), behind-append (a ∷ b ∷ []) [])
pop_rest (a ∷ b ∷ c ∷ []) h = ground (
  arith,
  behind-append (a ∷ []) (b ∷ c ∷ []),
  behind-append (a ∷ b ∷ []) (c ∷ []),
  behind-append (a ∷ b ∷ c ∷ []) [],
)
pop_rest (a ∷ b ∷ c ∷ d ∷ s) h = ground (
  arith,
  behind-append (a ∷ []) (b ∷ c ∷ d ∷ s),
  behind-append (a ∷ b ∷ []) (c ∷ d ∷ s),
  behind-append (a ∷ b ∷ c ∷ []) (d ∷ s),
  behind-append (a ∷ b ∷ c ∷ d ∷ []) s,
)

-- Bytes below 0x80 stand for themselves.
pub pop_ascii : (a : ℕ) (rest : Bytes) → a < 128 → pop_codepoint (a ∷ rest) ≡ ok a rest
unfolding pop_codepoint
pop_ascii a rest h = ground (arith, and_80 a)
