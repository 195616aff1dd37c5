-- ===== src/Crc/Detect.antt =====
-- What the check of crc16.c detects: any change within two adjacent bytes of a message.
use osdpmaster.Prelude.{
  ℕ, ◌*◌, ◌/◌, ◌%◌, ◌<◌, ◌≡◌, ◌≢◌, refl, sym, ap, ◌∙◌, [], ◌∷◌, ◌++◌, bit_xor, arith, ◌==◌, true,
  agree_below, all_below, bit_xor_lt, bit_xor_mod, bit_xor_comm, bit_xor_injective, bit_xor-zero,
  All, Bytes, IsByte,
}
use osdpmaster.Crc.Step.{incoming, crc16_byte-fields}
use osdpmaster.Crc.{crc16_byte, crc16_add, crc16_byte-lt, crc16_add-lt, crc16_add-append}

-- The inverse of the low byte of `incoming`.
unfold_low : ℕ → ℕ
unfold_low z = let y = bit_xor z (z * 32 % 256) in bit_xor y (y / 16)

unfold_table : all_below 256 (λ x. unfold_low (incoming x % 256) == x) ≡ true
unfolding all_below unfold_low incoming
unfold_table = refl

incoming_injective : (x y : ℕ) → x < 256 → y < 256 → incoming x % 256 ≡ incoming y % 256 → x ≡ y
incoming_injective x y h l e = sym (undo x h) ∙ ap unfold_low e ∙ undo y l
  where
    undo : (z : ℕ) → z < 256 → unfold_low (incoming z % 256) ≡ z
    undo = agree_below 256 (λ z. unfold_low (incoming z % 256)) (λ z. z) unfold_table

-- A step in its two fields, at any value.
step_fields :
    (crc d : ℕ)
    → crc < 65536
    → d < 256
    → crc16_byte crc d ≡ bit_xor (crc % 256 * 256) (incoming (bit_xor (crc / 256) d))
step_fields crc d h b =
    ap (λ t. crc16_byte t d) (omega arith)
    ∙ crc16_byte-fields (crc / 256) (crc % 256) d (omega arith) (omega arith) b

step_low :
    (crc d : ℕ)
    → crc < 65536
    → d < 256
    → crc16_byte crc d % 256 ≡ incoming (bit_xor (crc / 256) d) % 256
step_low crc d h b =
    ap (λ (t : ℕ). t % 256) (step_fields crc d h b)
    ∙ bit_xor_mod 8 _ _
    ∙ ap (λ t. bit_xor t (incoming (bit_xor (crc / 256) d) % 256)) (omega arith)
    ∙ bit_xor_comm 0 _
    ∙ bit_xor-zero _

-- The low byte of a step gives back the first value, and the whole gives back the low byte before.
module _ (c d c' d' : ℕ) (hc : c < 65536) (hd : d < 256) (hc' : c' < 65536) (hd' : d' < 256) where
  step_low_injective :
      crc16_byte c d % 256 ≡ crc16_byte c' d' % 256 → bit_xor (c / 256) d ≡ bit_xor (c' / 256) d'
  step_low_injective e =
      incoming_injective _ _ (bit_xor_lt 8 (c / 256) d (omega arith) hd)
        (bit_xor_lt 8 (c' / 256) d' (omega arith) hd')
        (sym (step_low c d hc hd) ∙ e ∙ step_low c' d' hc' hd')

  step_injective :
      crc16_byte c d ≡ crc16_byte c' d'
      → (bit_xor (c / 256) d ≡ bit_xor (c' / 256) d') × (c % 256 ≡ c' % 256)
  step_injective e = (first, rest)
    where
      first : bit_xor (c / 256) d ≡ bit_xor (c' / 256) d'
      first = step_low_injective (ap (λ (t : ℕ). t % 256) e)

      swapped :
          bit_xor (incoming (bit_xor (c / 256) d)) (c % 256 * 256)
          ≡ bit_xor (incoming (bit_xor (c / 256) d)) (c' % 256 * 256)
      swapped =
          bit_xor_comm _ _
          ∙ sym (step_fields c d hc hd)
          ∙ e
          ∙ step_fields c' d' hc' hd'
          ∙ bit_xor_comm _ _
          ∙ ap (λ t. bit_xor (incoming t) (c' % 256 * 256)) (sym first)

      rest : c % 256 ≡ c' % 256
      rest = omega (arith, bit_xor_injective (incoming (bit_xor (c / 256) d)) _ _ swapped)

-- For one data byte a step is injective in the value, and for one value in the byte.
same_byte :
    (c c' d : ℕ) → c < 65536 → c' < 65536 → d < 256 → crc16_byte c d ≡ crc16_byte c' d → c ≡ c'
same_byte c c' d h h' b e =
    let (first, low) = step_injective c d c' d h b h' b e in
    omega (
      arith,
      bit_xor_injective d (c / 256) (c' / 256) (bit_xor_comm d _ ∙ first ∙ bit_xor_comm _ d),
    )

same_message :
    (c c' : ℕ) (ds : Bytes)
    → c < 65536
    → c' < 65536
    → All IsByte ds
    → crc16_add c ds ≡ crc16_add c' ds
    → c ≡ c'
unfolding crc16_add
same_message c c' [] h h' b e = e
same_message c c' (d ∷ ds) h h' b e = same_byte c c' d h h' b.0 (
    same_message (crc16_byte c d) (crc16_byte c' d) ds (crc16_byte-lt c d) (crc16_byte-lt c' d) b.1
      e)

-- Two messages that differ only in two adjacent bytes, and have the same check, are the same.
pub crc16_add_injective :
    (crc : ℕ) (front back : Bytes) (a b a' b' : ℕ)
    → crc < 65536
    → All IsByte (a ∷ b ∷ a' ∷ b' ∷ back)
    → crc16_add crc (front ++ (a ∷ b ∷ back)) ≡ crc16_add crc (front ++ (a' ∷ b' ∷ back))
    → (a ≡ a') × (b ≡ b')
unfolding crc16_add
crc16_add_injective crc front back a b a' b' h (ba, (bb, (ba', (bb', rest)))) e =
    let c = crc16_add crc front in
    let lt : c < 65536 = crc16_add-lt crc front h in
    let two = same_message _ _ back (crc16_byte-lt _ b) (crc16_byte-lt _ b') rest (
      sym (crc16_add-append crc front (a ∷ b ∷ back))
      ∙ e
      ∙ crc16_add-append crc front (a' ∷ b' ∷ back)) in
    let (first, low) =
      step_injective (crc16_byte c a) b (crc16_byte c a') b' (crc16_byte-lt c a) bb
        (crc16_byte-lt c a') bb' two in
    let ea : a ≡ a' =
      bit_xor_injective (c / 256) a a' (step_low_injective c a c a' lt ba lt ba' low) in
    (
      ea,
      bit_xor_injective (crc16_byte c a / 256) b b'
          (first ∙ ap (λ t. bit_xor (crc16_byte c t / 256) b') (sym ea)),
    )

-- A message that differs from another only within two adjacent bytes, one at least, has another check.
pub crc16_add_detects :
    (crc : ℕ) (front back : Bytes) (a b a' b' : ℕ)
    → crc < 65536
    → All IsByte (a ∷ b ∷ a' ∷ b' ∷ back)
    → ((a ≡ a') × (b ≡ b') → ⊥)
    → crc16_add crc (front ++ (a ∷ b ∷ back)) ≢ crc16_add crc (front ++ (a' ∷ b' ∷ back))
crc16_add_detects crc front back a b a' b' h bytes changed e =
    changed (crc16_add_injective crc front back a b a' b' h bytes e)
