-- ===== src/Prelude/Int.antt =====
-- Signed integers over the native numbers, as far as the number parser needs them.
use Prim.Native.Nat.{ℕ, zero, suc}
use mathlib.Core.Bool.{Bool, true, false}

-- `negsuc n` is -(n + 1).
pub data ℤ : Type 0 where
  pos : ℕ → ℤ
  negsuc : ℕ → ℤ

abbrev pub neg : ℕ → ℤ
neg zero = pos 0
neg (suc n) = negsuc n

-- A number under a sign; the flag is set for a minus.
abbrev pub signed : Bool → ℕ → ℤ
signed true n = neg n
signed false n = pos n
