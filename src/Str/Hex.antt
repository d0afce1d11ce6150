-- ===== src/Str/Hex.antt =====
-- The `%x` of `snprintf`, as src/str.c uses it on a uint32_t.
use ckdl.Prelude.{ℕ, zero, suc, ◌+◌, ◌-◌, ◌/◌, ◌%◌, [], ◌∷◌, ltb, ◌==◌, if◌then◌else◌, Bytes}

abbrev pub hex_char : ℕ → ℕ
hex_char d = if ltb d 10 then b'0' + d else b'a' + (d - 10)

-- The hexadecimal digits of `n`, lower case and with no leading zero, in front of `rest`. A uint32_t has
-- eight at most.
unfoldable pub hex_within : ℕ → ℕ → Bytes → Bytes
hex_within zero n rest = rest
hex_within (suc more) n rest =
    let higher = hex_within more (n / 16) (hex_char (n % 16) ∷ rest) in
    if n / 16 == 0 then hex_char (n % 16) ∷ rest else higher

unfoldable pub hex_onto : ℕ → Bytes → Bytes
hex_onto = hex_within 8

-- `snprintf(u_esc_buf, 11, "\\u{%x}", c)`: ten characters at most for a value that
-- UTF-8 can hold, so that nothing is cut off.
unfoldable pub u_escape : ℕ → Bytes
u_escape c = b'\\' ∷ b'u' ∷ b'{' ∷ hex_onto c (b'}' ∷ [])
