-- ===== src/Prelude/Int.antt =====
-- Signed integers over the native numbers, under the library's names.
use Prim.Native.Nat.{ℕ, ◌+◌, ◌-◌, ◌*◌, ◌/◌}
use osdpmaster.Prelude.Tests.{ltb, leb, if◌then◌else◌}
use mathlib.Core.Bool.{Bool}

-- `negsuc n` is -(n + 1).
pub data ℤ : Type 0 where
  pos : ℕ → ℤ
  negsuc : ℕ → ℤ

-- a - b, as an integer.
abbrev pub sub_ℕ : ℕ → ℕ → ℤ
sub_ℕ a b = if leb b a then pos (a - b) else negsuc (b - a - 1)

-- a + n, and a - n.
abbrev pub add_nat : ℤ → ℕ → ℤ
add_nat (pos m) n = pos (m + n)
add_nat (negsuc m) n = sub_ℕ n (m + 1)

abbrev pub sub_nat : ℤ → ℕ → ℤ
sub_nat (pos m) n = sub_ℕ m n
sub_nat (negsuc m) n = negsuc (m + n)

infixl 65 ◌+ℤ◌
abbrev pub ◌+ℤ◌ : ℤ → ℤ → ℤ
◌+ℤ◌ a (pos n) = add_nat a n
◌+ℤ◌ a (negsuc n) = sub_nat a (n + 1)

abbrev pub mul_nat : ℤ → ℕ → ℤ
mul_nat (pos m) n = pos (m * n)
mul_nat (negsuc m) n = sub_ℕ 0 ((m + 1) * n)

-- C's division by a positive constant: towards zero.
abbrev pub div_nat : ℤ → ℕ → ℤ
div_nat (pos m) n = pos (m / n)
div_nat (negsuc m) n = sub_ℕ 0 ((m + 1) / n)

abbrev pub is_negative : ℤ → Bool
is_negative (pos n) = ltb n 0
is_negative (negsuc n) = leb 0 n
