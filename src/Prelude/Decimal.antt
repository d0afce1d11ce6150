-- ===== src/Prelude/Decimal.antt =====
-- Decimal text, as `snprintf` writes it for "%d" and "%lld".
use Prim.Native.Nat.{ℕ, zero, suc, ◌+◌, ◌/◌, ◌%◌}
use mathlib.Core.List.{[], ◌∷◌, ◌++◌}
use ckdl.Prelude.Tests.{ltb, if◌then◌else◌}
use ckdl.Prelude.Lists.{Bytes}
use ckdl.Prelude.Int.{ℤ, pos, negsuc}

-- A number has fewer digits than its value plus one, so that `n` as fuel is enough.
unfoldable pub print_digits : ℕ → ℕ → Bytes
print_digits zero n = (b'0' + n % 10) ∷ []
print_digits (suc fuel) n =
    let more = print_digits fuel (n / 10) ++ ((b'0' + n % 10) ∷ []) in
    if ltb n 10 then (b'0' + n) ∷ [] else more

abbrev pub print_nat : ℕ → Bytes
print_nat n = print_digits n n

abbrev pub print_int : ℤ → Bytes
print_int (pos n) = print_nat n
print_int (negsuc n) = b'-' ∷ print_nat (suc n)
