-- ===== src/Crc/Step.antt =====
-- One byte of crc16.c as an exclusive or of two fields: the low byte of the old value moves up, and
-- a value that depends on the high byte and the data byte only comes in.
use osdpmaster.Prelude.{
  ℕ, ◌+◌, ◌*◌, ◌/◌, ◌%◌, ◌<◌, ◌≡◌, ap₂, ◌∙◌, bit_xor, arith, bit_xor_lt, bit_xor_assoc, bit_xor_mod,
}
use osdpmaster.Crc.{crc16_byte}

-- What the source calls `x` after `x ^= x>>4`, for the first `x`.
abbrev folded : ℕ → ℕ
folded x = bit_xor x (x / 16) % 256

-- What comes in: the value for a zero `crc`, at the first `x`.
unfoldable pub incoming : ℕ → ℕ
incoming x = bit_xor (bit_xor (folded x * 4096 % 65536) (folded x * 32 % 65536)) (folded x)

pub incoming-lt : (x : ℕ) → incoming x < 65536
unfolding incoming
incoming-lt x = bit_xor_lt 16 _ _ (bit_xor_lt 16 _ _ (omega arith) (omega arith)) (omega arith)

xor_regroup :
    (p a b y : ℕ) → bit_xor (bit_xor (bit_xor p a) b) y ≡ bit_xor p (bit_xor (bit_xor a b) y)
xor_regroup p a b y = rw (bit_xor_assoc p a b) (bit_xor_assoc p (bit_xor a b) y)

first_value :
    (hi lo d : ℕ)
    → hi < 256
    → lo < 256
    → d < 256
    → bit_xor ((hi * 256 + lo) / 256) d % 256 ≡ bit_xor hi d
first_value hi lo d h l b =
    let e : (hi * 256 + lo) / 256 ≡ hi = omega arith in rw e (omega (arith, bit_xor_lt 8 hi d h b))

pub crc16_byte-fields :
    (hi lo d : ℕ)
    → hi < 256
    → lo < 256
    → d < 256
    → crc16_byte (hi * 256 + lo) d ≡ bit_xor (lo * 256) (incoming (bit_xor hi d))
unfolding crc16_byte incoming
crc16_byte-fields hi lo d h l b = rw (first_value hi lo d h l b) (
    rw
      (xor_regroup ((hi * 256 + lo) * 256) (folded (bit_xor hi d) * 4096 % 65536)
        (folded (bit_xor hi d) * 32 % 65536) (folded (bit_xor hi d)))
      (bit_xor_mod 16 _ _ ∙ ap₂ bit_xor (omega arith) (omega (arith, incoming-lt (bit_xor hi d)))))
