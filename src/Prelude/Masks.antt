-- ===== src/Prelude/Masks.antt =====
-- The low byte of a number by a mask, and two bytes joined again.
use Prim.Native.Nat.{
  ℕ, zero, suc, ◌+◌, ◌*◌, ◌/◌, ◌%◌, ◌≤◌, ◌<◌, min, bit_and, bit_or, bit_and-bitwise,
}
use mathlib.Core.Path.{◌≡◌, refl, ◌∙◌, ap₂}
use native.Mathlib.Omega.{arith}
use osdpmaster.Prelude.Bits.{bitwise-halves, bit_or_fields}

bit_and_step : (a b : ℕ) → bit_and a b ≡ bit_and (a / 2) (b / 2) * 2 + min (a % 2) (b % 2)
bit_and_step (suc x) b = simp bit_and-bitwise (bitwise-halves (λ y. 0) min x b)
bit_and_step zero b = simp bit_and-bitwise (omega arith)

-- No bits are left by an empty mask.
no_bits : (bound a : ℕ) → a ≤ bound → bit_and a 0 ≡ 0
no_bits bound zero inside = refl
no_bits (suc bound) a inside = omega (arith, bit_and_step a 0, no_bits bound (a / 2) (omega arith))
no_bits zero (suc a) inside = absurd (omega arith)

mask_three : (a : ℕ) → bit_and a 7 ≡ a % 8
mask_three a = omega (
  arith,
  bit_and_step a 7,
  bit_and_step (a / 2) 3,
  bit_and_step (a / 2 / 2) 1,
  no_bits (a / 2 / 2 / 2) (a / 2 / 2 / 2) (omega arith),
)

mask_six : (a : ℕ) → bit_and a 63 ≡ a % 64
mask_six a = omega (
  arith,
  bit_and_step a 63,
  bit_and_step (a / 2) 31,
  bit_and_step (a / 2 / 2) 15,
  mask_three (a / 2 / 2 / 2),
)

pub bit_and_low_byte : (a : ℕ) → bit_and a 0xff ≡ a % 256
bit_and_low_byte a =
    omega (arith, bit_and_step a 255, bit_and_step (a / 2) 127, mask_six (a / 2 / 2))

pub bit_and_seven_bits : (a : ℕ) → bit_and a 0x7f ≡ a % 128
bit_and_seven_bits a = omega (arith, bit_and_step a 127, mask_six (a / 2))

-- Low and high byte of a 16-bit number give it back.
pub two_bytes : (c : ℕ) → c < 65536 → bit_or (bit_and c 0xff) (bit_and (c / 256) 0xff * 256) ≡ c
two_bytes c h =
    ap₂ bit_or (bit_and_low_byte c) (omega (arith, bit_and_low_byte (c / 256)))
    ∙ bit_or_fields 8 (c / 256) (c % 256) (omega arith)
    ∙ omega arith

-- The low two bits.
pub bit_and_3 : (a : ℕ) → bit_and a 3 < 4
bit_and_3 a = omega (
  arith,
  bit_and_step a 3,
  bit_and_step (a / 2) 1,
  bit_and_step (a / 2 / 2) 0,
  no_bits (a / 2 / 2) (a / 2 / 2) (omega arith),
)
