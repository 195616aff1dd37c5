-- ===== src/Crc/Reference.antt =====
-- crc16.c against the bit-by-bit CCITT register, polynomial 0x1021, most significant bit first.
use osdpmaster.Prelude.{
  ℕ, zero, suc, ◌+◌, ◌*◌, ◌/◌, ◌%◌, ◌^◌, ◌<◌, ◌≡◌, refl, sym, ap, ap₂, ◌∙◌, [], ◌∷◌, bit_xor, arith,
  true, ◌==◌, leb, if◌then◌else◌, agree_below, all_below, bit_xor_fields, bit_xor_lt, bit_xor_assoc,
  bit_xor_mod, bit_xor_div, bit_xor-zero, bit_xor_comm, All, Bytes, IsByte,
}
use native.Mathlib.Nat.{pow-suc, one-le-pow}
use osdpmaster.Crc.Step.{incoming, crc16_byte-fields}
use osdpmaster.Crc.{crc16_byte, crc16_add, crc16_byte-lt}

-- One shift of the register.
shift_bit : ℕ → ℕ
shift_bit w = if leb 32768 w then bit_xor (w * 2 % 65536) 0x1021 else w * 2

shift_bits : ℕ → ℕ → ℕ
shift_bits zero w = w
shift_bits (suc n) w = shift_bits n (shift_bit w)

-- The register after one byte, most significant bit first, and after a message.
unfoldable pub reference_byte : ℕ → ℕ → ℕ
unfolding shift_bits shift_bit
reference_byte crc d = shift_bits 8 (bit_xor crc (d * 256))

unfoldable pub reference : ℕ → Bytes → ℕ
reference crc [] = crc
reference crc (d ∷ ds) = reference (reference_byte crc d) ds

-- The feedback as one exclusive or, whether or not the top bit is set.
shift_bit-feedback :
    (w : ℕ) → w < 65536 → shift_bit w ≡ bit_xor (w * 2 % 65536) (w / 32768 * 0x1021)
unfolding shift_bit
shift_bit-feedback w h = ground (arith, bit_xor-zero (w * 2 % 65536))

double_xor : (a b : ℕ) → bit_xor a b * 2 ≡ bit_xor (a * 2) (b * 2)
double_xor a b = sym (
    ap₂ bit_xor (omega arith) (omega arith)
    ∙ bit_xor_fields 1 a 0 b 0 (omega arith) (omega arith)
    ∙ omega (arith, bit_xor-zero 0))

swap_last : (a b c : ℕ) → bit_xor (bit_xor a b) c ≡ bit_xor (bit_xor a c) b
swap_last a b c = rw (bit_xor_assoc a b c, bit_xor_comm b c) (sym (bit_xor_assoc a c b))

-- A value that leaves the top bit alone goes through a shift by itself.
shift_bit-xor :
    (w v : ℕ) → w < 65536 → v < 32768 → shift_bit (bit_xor w v) ≡ bit_xor (shift_bit w) (v * 2)
shift_bit-xor w v h l =
    shift_bit-feedback (bit_xor w v) (bit_xor_lt 16 w v h (omega arith))
    ∙ ap₂ bit_xor low top
    ∙ swap_last (w * 2 % 65536) (v * 2) (w / 32768 * 0x1021)
    ∙ ap (λ t. bit_xor t (v * 2)) (sym (shift_bit-feedback w h))
  where
    low : bit_xor w v * 2 % 65536 ≡ bit_xor (w * 2 % 65536) (v * 2)
    low =
        ap (λ (t : ℕ). t % 65536) (double_xor w v)
        ∙ bit_xor_mod 16 (w * 2) (v * 2)
        ∙ ap (bit_xor (w * 2 % 65536)) (omega arith)

    top : bit_xor w v / 32768 * 0x1021 ≡ w / 32768 * 0x1021
    top =
        let e : v / 32768 ≡ 0 = omega arith in
        let q : bit_xor w v / 32768 ≡ w / 32768 =
          bit_xor_div 15 w v ∙ rw e (bit_xor-zero (w / 32768)) in
        ap (λ (t : ℕ). t * 0x1021) q

shift_bit-lt : (w : ℕ) → w < 65536 → shift_bit w < 65536
unfolding shift_bit
shift_bit-lt w h = ground (arith, bit_xor_lt 16 (w * 2 % 65536) 0x1021)

shift_bits-xor :
    (n w v : ℕ)
    → w < 65536
    → v * 2 ^ n < 65536
    → shift_bits n (bit_xor w v) ≡ bit_xor (shift_bits n w) (v * 2 ^ n)
unfolding shift_bits
shift_bits-xor zero w v h l = ap (bit_xor w) (omega arith)
shift_bits-xor (suc n) w v h l =
    let two : v * 2 ^ suc n ≡ v * 2 * 2 ^ n = grind (arith, pow-suc 2 n) in
    let small : v < 32768 = grind (arith, one-le-pow n 2) in
    ap (shift_bits n) (shift_bit-xor w v h small)
    ∙ shift_bits-xor n (shift_bit w) (v * 2) (shift_bit-lt w h) (omega arith)
    ∙ ap (bit_xor (shift_bits n (shift_bit w))) (sym two)

-- Eight shifts of a byte in the high half, by evaluation.
shift_table : all_below 256 (λ x. shift_bits 8 (x * 256) == incoming x) ≡ true
unfolding all_below shift_bits shift_bit incoming
shift_table = refl

shift_bits-incoming : (x : ℕ) → x < 256 → shift_bits 8 (x * 256) ≡ incoming x
shift_bits-incoming = agree_below 256 (λ x. shift_bits 8 (x * 256)) incoming shift_table

reference_byte-fields :
    (hi lo d : ℕ)
    → hi < 256
    → lo < 256
    → d < 256
    → reference_byte (hi * 256 + lo) d ≡ bit_xor (lo * 256) (incoming (bit_xor hi d))
unfolding reference_byte
reference_byte-fields hi lo d h l b =
    ap (shift_bits 8) merged
    ∙ shift_bits-xor 8 (bit_xor hi d * 256) lo (omega (arith, bit_xor_lt 8 hi d h b)) (omega arith)
    ∙ ap (λ t. bit_xor t (lo * 256)) (shift_bits-incoming (bit_xor hi d) (bit_xor_lt 8 hi d h b))
    ∙ bit_xor_comm _ _
  where
    field : (q r : ℕ) → r < 256 → bit_xor (q * 256) r ≡ q * 256 + r
    field q r h =
        ap₂ bit_xor (omega arith) (omega arith)
        ∙ bit_xor_fields 8 q 0 0 r (omega arith) h
        ∙ omega (arith, bit_xor-zero q, bit_xor-zero r, bit_xor_comm 0 r)

    merged : bit_xor (hi * 256 + lo) (d * 256) ≡ bit_xor (bit_xor hi d * 256) lo
    merged =
        ap (bit_xor (hi * 256 + lo)) (omega arith)
        ∙ bit_xor_fields 8 hi lo d 0 l (omega arith)
        ∙ omega (arith, bit_xor-zero lo, field (bit_xor hi d) lo l)

-- A value below 65536 as two bytes.
crc16_byte-eq-reference_byte :
    (crc d : ℕ) → crc < 65536 → d < 256 → crc16_byte crc d ≡ reference_byte crc d
crc16_byte-eq-reference_byte crc d h b =
    let e : crc ≡ crc / 256 * 256 + crc % 256 = omega arith in
    rw e (
      crc16_byte-fields (crc / 256) (crc % 256) d (omega arith) (omega arith) b
      ∙ sym (reference_byte-fields (crc / 256) (crc % 256) d (omega arith) (omega arith) b))

-- From any 16-bit value and on any message of bytes, `crc16_add` computes the same as shifting the
-- message bit by bit, most significant bit first, through the register of polynomial 0x1021.
pub crc16_add-eq-reference :
    (crc : ℕ) (ds : Bytes) → crc < 65536 → All IsByte ds → crc16_add crc ds ≡ reference crc ds
unfolding crc16_add reference
crc16_add-eq-reference crc [] h b = refl
crc16_add-eq-reference crc (d ∷ ds) h b =
    let same = crc16_byte-eq-reference_byte crc d h b.0 in
    crc16_add-eq-reference (crc16_byte crc d) ds (crc16_byte-lt crc d) b.1
    ∙ ap (λ t. reference t ds) same
