-- ===== src/Prelude/Bits.antt =====
-- Laws of the bit operations at variables, from their definition on binary digits.
use Prim.Native.Nat.{
  ℕ, zero, suc, ◌+◌, ◌*◌, ◌/◌, ◌%◌, ◌^◌, ◌≤◌, ◌<◌, max, digits, differ, bit_or, bit_xor, bitwise,
  bit_xor-bitwise, bit_or-bitwise,
}
use mathlib.Core.Path.{◌≡◌, refl, sym, ap, ap₂, ◌∙◌}
use native.Mathlib.Nat.{
  pow-suc, one-le-pow, div-add-mod', mod-lt, mod-eq_of_lt, div-eq_of_lt, mul-add-mod_self_right,
  mul-add-div_right,
}
use native.Mathlib.Omega.{arith}
use mathlib.Core.Logic.{inl, inr}
use osdpmaster.Prelude.Tests.{◌==◌, Bool-cases}

-- The fuel of the definition: more of it than the first number changes nothing.
module _ (at_end : ℕ → ℕ) (on_bits : ℕ → ℕ → ℕ) where
  abbrev run : ℕ → ℕ → ℕ → ℕ
  run fuel x y = digits at_end on_bits fuel x y

  run-suc : (fuel x y : ℕ) → x ≤ fuel → run (suc fuel) x y ≡ run fuel x y
  run-suc zero zero y enough = refl
  run-suc (suc fuel) zero y enough = refl
  run-suc zero (suc x) y enough = absurd (omega arith)
  run-suc (suc fuel) (suc x) y enough = rw (run-suc fuel (suc x / 2) (y / 2) (omega arith))

  run-more : (total fuel x y : ℕ) → fuel ≤ total → x ≤ fuel → run total x y ≡ run fuel x y
  run-more zero fuel x y more enough = let e : fuel ≡ 0 = omega arith in rw e
  run-more (suc total) fuel x y more enough = elim (Bool-cases (fuel == suc total)) [
    | inl same ↦ let e : fuel ≡ suc total = ground arith in rw e
    | inr less ↦ run-suc total x y (ground arith) ∙ run-more total fuel x y (ground arith) enough
  ]

  -- The lowest digits, and the operation on the halves.
  pub bitwise-halves :
      (x y : ℕ)
      → bitwise at_end on_bits (suc x) y
        ≡ bitwise at_end on_bits (suc x / 2) (y / 2) * 2 + on_bits (suc x % 2) (y % 2)
  bitwise-halves x y =
      omega (arith, run-more x (suc x / 2) (suc x / 2) (y / 2) (omega arith) (omega arith))

pub bit_or_step : (a b : ℕ) → bit_or a b ≡ bit_or (a / 2) (b / 2) * 2 + max (a % 2) (b % 2)
bit_or_step (suc x) b = simp bit_or-bitwise (bitwise-halves (λ y. y) max x b)
bit_or_step zero b = simp bit_or-bitwise (omega arith)

differ_bits : (x y : ℕ) → x < 2 → y < 2 → differ x y ≡ (x + y) % 2
differ_bits zero y p q = omega arith
differ_bits (suc zero) zero p q = omega arith
differ_bits (suc zero) (suc zero) p q = omega arith
differ_bits (suc zero) (suc (suc y)) p q = absurd (omega arith)
differ_bits (suc (suc x)) y p q = absurd (omega arith)

pub bit_xor_step : (a b : ℕ) → bit_xor a b ≡ bit_xor (a / 2) (b / 2) * 2 + (a % 2 + b % 2) % 2
bit_xor_step zero b = simp bit_xor-bitwise (omega arith)
bit_xor_step (suc a) b = simp bit_xor-bitwise (
    bitwise-halves (λ y. y) differ a b
    ∙ ap (λ t. bitwise (λ y. y) differ (suc a / 2) (b / 2) * 2 + t)
        (differ_bits (suc a % 2) (b % 2) (omega arith) (omega arith)))

zero-bit_xor : (b : ℕ) → bit_xor 0 b ≡ b
zero-bit_xor b = bit_xor-bitwise 0 b

zero-bit_or : (b : ℕ) → bit_or 0 b ≡ b
zero-bit_or b = bit_or-bitwise 0 b

-- The algebra of exclusive or, by induction on a bound for the numbers.
xor_comm_fuel : (n a b : ℕ) → a + b ≤ n → bit_xor a b ≡ bit_xor b a
xor_comm_fuel zero a b h = let e : a ≡ b = omega arith in rw e
xor_comm_fuel (suc n) zero zero h = refl
xor_comm_fuel (suc n) zero (suc b) h = omega (
  arith,
  bit_xor_step 0 (suc b),
  bit_xor_step (suc b) 0,
  xor_comm_fuel n (0 / 2) (suc b / 2) (omega arith),
)
xor_comm_fuel (suc n) (suc a) b h = omega (
  arith,
  bit_xor_step (suc a) b,
  bit_xor_step b (suc a),
  xor_comm_fuel n (suc a / 2) (b / 2) (omega arith),
)

pub bit_xor_comm : (a b : ℕ) → bit_xor a b ≡ bit_xor b a
bit_xor_comm a b = xor_comm_fuel (a + b) a b (omega arith)

pub bit_xor-zero : (a : ℕ) → bit_xor a 0 ≡ a
bit_xor-zero a = bit_xor_comm a 0 ∙ zero-bit_xor a

-- The digits of an exclusive or, read off its step.
xor_half : (a b : ℕ) → bit_xor a b / 2 ≡ bit_xor (a / 2) (b / 2)
xor_half a b = omega (arith, bit_xor_step a b)

xor_low : (a b : ℕ) → bit_xor a b % 2 ≡ (a % 2 + b % 2) % 2
xor_low a b = omega (arith, bit_xor_step a b)

xor_assoc_fuel : (n a b c : ℕ) → a + b + c ≤ n → bit_xor (bit_xor a b) c ≡ bit_xor a (bit_xor b c)
xor_assoc_fuel n a b zero h = bit_xor-zero (bit_xor a b) ∙ ap (bit_xor a) (sym (bit_xor-zero b))
xor_assoc_fuel zero a b (suc c) h = absurd (omega arith)
xor_assoc_fuel (suc n) a b (suc c) h =
    bit_xor_step (bit_xor a b) (suc c)
    ∙ rw (xor_half a b, xor_low a b)
        (ap (λ t. t * 2 + ((a % 2 + b % 2) % 2 + suc c % 2) % 2)
            (xor_assoc_fuel n (a / 2) (b / 2) (suc c / 2) (omega arith))
          ∙ omega (
            arith,
            bit_xor_step a (bit_xor b (suc c)),
            xor_low b (suc c),
            ap (bit_xor (a / 2)) (xor_half b (suc c)),
          ))

pub bit_xor_assoc : (a b c : ℕ) → bit_xor (bit_xor a b) c ≡ bit_xor a (bit_xor b c)
bit_xor_assoc a b c = xor_assoc_fuel (a + b + c) a b c (omega arith)

xor_self_fuel : (n a : ℕ) → a ≤ n → bit_xor a a ≡ 0
xor_self_fuel n zero h = refl
xor_self_fuel zero (suc a) h = absurd (omega arith)
xor_self_fuel (suc n) (suc a) h =
    omega (arith, bit_xor_step (suc a) (suc a), xor_self_fuel n (suc a / 2) (omega arith))

pub bit_xor_self : (a : ℕ) → bit_xor a a ≡ 0
bit_xor_self a = xor_self_fuel a a (omega arith)

-- Exclusive or cancels on either side.
pub bit_xor_cancel : (a b : ℕ) → bit_xor a (bit_xor a b) ≡ b
bit_xor_cancel a b =
    sym (bit_xor_assoc a a b) ∙ ap (λ t. bit_xor t b) (bit_xor_self a) ∙ zero-bit_xor b

pub bit_xor_injective : (a b c : ℕ) → bit_xor a b ≡ bit_xor a c → b ≡ c
bit_xor_injective a b c e = sym (bit_xor_cancel a b) ∙ ap (bit_xor a) e ∙ bit_xor_cancel a c

double_field : (width high : ℕ) → high * 2 ^ suc width ≡ 2 * (high * 2 ^ width)
double_field width high = omega (arith, ap (◌*◌ high) (pow-suc 2 width))

pub bit_xor_lt : (k a b : ℕ) → a < 2 ^ k → b < 2 ^ k → bit_xor a b < 2 ^ k
bit_xor_lt zero zero b h h' = omega (arith, zero-bit_xor b)
bit_xor_lt zero (suc a) b h h' = absurd (omega arith)
bit_xor_lt (suc k) a b h h' = omega (
  arith,
  bit_xor_step a b,
  pow-suc 2 k,
  bit_xor_lt k (a / 2) (b / 2) (omega (arith, pow-suc 2 k)) (omega (arith, pow-suc 2 k)),
)

-- Exclusive or works field by field.
pub bit_xor_fields :
    (k q r q' r' : ℕ)
    → r < 2 ^ k
    → r' < 2 ^ k
    → bit_xor (q * 2 ^ k + r) (q' * 2 ^ k + r') ≡ bit_xor q q' * 2 ^ k + bit_xor r r'
bit_xor_fields zero q zero q' zero h h' =
    let e : q * 2 ^ 0 + 0 ≡ q = omega arith in
    let e' : q' * 2 ^ 0 + 0 ≡ q' = omega arith in rw (e, e') (omega (arith, zero-bit_xor 0))
bit_xor_fields zero q (suc r) q' r' h h' = absurd (omega arith)
bit_xor_fields zero q zero q' (suc r') h h' = absurd (omega arith)
bit_xor_fields (suc k) q r q' r' h h' = ground (
  arith,
  bit_xor_step (q * 2 ^ suc k + r) (q' * 2 ^ suc k + r'),
  bit_xor_step r r',
  double_field k q,
  double_field k q',
  double_field k (bit_xor q q'),
  pow-suc 2 k,
  bit_xor_fields k q (r / 2) q' (r' / 2),
)

-- Or of two disjoint fields is their sum.
pub bit_or_fields : (k q r : ℕ) → r < 2 ^ k → bit_or r (q * 2 ^ k) ≡ q * 2 ^ k + r
bit_or_fields zero q zero h = omega (arith, zero-bit_or (q * 2 ^ 0))
bit_or_fields zero q (suc r) h = absurd (omega arith)
bit_or_fields (suc k) q r h =
    ground (
      arith,
      bit_or_step r (q * 2 ^ suc k),
      double_field k q,
      pow-suc 2 k,
      bit_or_fields k q (r / 2),
    )

pow_pos : (k : ℕ) → 0 < 2 ^ k
pow_pos k = one-le-pow k 2 (omega arith)

-- The low `k` bits of an exclusive or, and the rest.
module _ (k a b : ℕ) where
  split_at : (n : ℕ) → n / 2 ^ k * 2 ^ k + n % 2 ^ k ≡ n
  split_at n = div-add-mod' n (2 ^ k)

  bit_xor_split :
      bit_xor a b ≡ bit_xor (a / 2 ^ k) (b / 2 ^ k) * 2 ^ k + bit_xor (a % 2 ^ k) (b % 2 ^ k)
  bit_xor_split =
      sym (ap₂ bit_xor (split_at a) (split_at b))
      ∙ bit_xor_fields k (a / 2 ^ k) (a % 2 ^ k) (b / 2 ^ k) (b % 2 ^ k) (mod-lt a (pow_pos k))
          (mod-lt b (pow_pos k))

  low-lt : bit_xor (a % 2 ^ k) (b % 2 ^ k) < 2 ^ k
  low-lt = bit_xor_lt k _ _ (mod-lt a (pow_pos k)) (mod-lt b (pow_pos k))

  pub bit_xor_mod : bit_xor a b % 2 ^ k ≡ bit_xor (a % 2 ^ k) (b % 2 ^ k)
  bit_xor_mod =
      ap (λ (t : ℕ). t % 2 ^ k) bit_xor_split
      ∙ mul-add-mod_self_right _ (2 ^ k) _
      ∙ mod-eq_of_lt low-lt

  pub bit_xor_div : bit_xor a b / 2 ^ k ≡ bit_xor (a / 2 ^ k) (b / 2 ^ k)
  bit_xor_div =
      ap (λ (t : ℕ). t / 2 ^ k) bit_xor_split
      ∙ mul-add-div_right (pow_pos k) _ _
      ∙ omega (arith, div-eq_of_lt low-lt)
