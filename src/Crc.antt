-- ===== src/Crc.antt =====
-- crc16.c: the 16-bit check of a message, one byte at a time.
mod Step
pub mod Reference
pub mod Detect
use osdpmaster.Prelude.{
  ℕ, ◌+◌, ◌*◌, ◌/◌, ◌%◌, ◌<◌, ◌≡◌, arith, refl, List, [], ◌∷◌, ◌++◌, bit_xor, Bytes,
}

-- `crc16_prepare`: the initial value.
abbrev pub crc16_prepare : ℕ
crc16_prepare = 0x1D0F

-- The body of the loop: `x` is a uint8_t, `crc` a uint16_t, and both are cut to their width where
-- they are assigned.
unfoldable pub crc16_byte : ℕ → ℕ → ℕ
crc16_byte crc d =
    let x = bit_xor (crc / 256) d % 256 in
    let y = bit_xor x (x / 16) % 256 in
    bit_xor (bit_xor (bit_xor (crc * 256) (y * 4096 % 65536)) (y * 32 % 65536)) y % 65536

-- `crc16_add`: the list holds the `length` bytes from `data_p` on.
unfoldable pub crc16_add : ℕ → Bytes → ℕ
crc16_add crc [] = crc
crc16_add crc (d ∷ ds) = crc16_add (crc16_byte crc d) ds

-- `crc16_digest`: the value as it stands.
abbrev pub crc16_digest : ℕ → ℕ
crc16_digest crc = crc

pub crc16_add-append :
    (crc : ℕ) (xs ys : Bytes) → crc16_add crc (xs ++ ys) ≡ crc16_add (crc16_add crc xs) ys
unfolding crc16_add
crc16_add-append crc [] ys = refl
crc16_add-append crc (x ∷ xs) ys = crc16_add-append (crc16_byte crc x) xs ys

-- The loop's value is always a uint16_t.
pub crc16_byte-lt : (crc d : ℕ) → crc16_byte crc d < 65536
unfolding crc16_byte
crc16_byte-lt crc d = omega arith

pub crc16_add-lt : (crc : ℕ) (ds : Bytes) → crc < 65536 → crc16_add crc ds < 65536
unfolding crc16_add
crc16_add-lt crc [] h = h
crc16_add-lt crc (d ∷ ds) h = crc16_add-lt (crc16_byte crc d) ds (crc16_byte-lt crc d)
