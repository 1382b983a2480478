-- ===== src/Prelude/Int64.antt =====
-- Rust's `i64`: an integer together with the wrapping operations of the standard library, through
-- the 64-bit pattern.
use Prim.Native.Nat.{ℕ, ◌-◌, ◌*◌, ◌/◌, ◌%◌, ◌^◌, bit_and, bit_or, bit_xor}
use mathlib.Core.Bool.{xor}
use aspect.Prelude.Tests.{ltb, if◌then◌else◌}
use aspect.Prelude.Int.{ℤ, pos, negsuc, ◌+ℤ◌, ◌-ℤ◌, ◌*ℤ◌, signed, is_negative, magnitude}

-- The two's-complement pattern of an integer, below 2 ^ 64, and the integer of a pattern.
abbrev pub to_bits : ℤ → ℕ
to_bits (pos n) = n % 2 ^ 64
to_bits (negsuc n) = 2 ^ 64 - 1 - n % 2 ^ 64

abbrev pub of_bits : ℕ → ℤ
of_bits r = if ltb r (2 ^ 63) then pos r else negsuc (2 ^ 64 - 1 - r)

unfoldable pub wrap : ℤ → ℤ
wrap z = of_bits (to_bits z)

unfoldable pub wrapping_add : ℤ → ℤ → ℤ
wrapping_add a b = wrap (a +ℤ b)

unfoldable pub wrapping_sub : ℤ → ℤ → ℤ
wrapping_sub a b = wrap (a -ℤ b)

unfoldable pub wrapping_mul : ℤ → ℤ → ℤ
wrapping_mul a b = wrap (a *ℤ b)

unfoldable pub wrapping_neg : ℤ → ℤ
wrapping_neg a = wrap (pos 0 -ℤ a)

-- Division truncates towards zero; the remainder has the dividend's sign. The divisor is not 0.
unfoldable pub wrapping_div : ℤ → ℤ → ℤ
wrapping_div a b = wrap (signed (xor (is_negative a) (is_negative b)) (magnitude a / magnitude b))

unfoldable pub wrapping_rem : ℤ → ℤ → ℤ
wrapping_rem a b = wrap (signed (is_negative a) (magnitude a % magnitude b))

-- `|`, `^` and `&` act on the patterns.
unfoldable pub or64 : ℤ → ℤ → ℤ
or64 a b = wrap (pos (bit_or (to_bits a) (to_bits b)))

unfoldable pub xor64 : ℤ → ℤ → ℤ
xor64 a b = wrap (pos (bit_xor (to_bits a) (to_bits b)))

unfoldable pub and64 : ℤ → ℤ → ℤ
and64 a b = wrap (pos (bit_and (to_bits a) (to_bits b)))

-- Shifts by a count below 64; the right shift keeps the sign.
unfoldable pub wrapping_shl : ℤ → ℕ → ℤ
wrapping_shl a n = wrap (pos (to_bits a * 2 ^ n))

unfoldable pub wrapping_shr : ℤ → ℕ → ℤ
wrapping_shr (pos n) k = wrap (pos (n / 2 ^ k))
wrapping_shr (negsuc n) k = wrap (negsuc (n / 2 ^ k))
