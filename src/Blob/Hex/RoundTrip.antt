-- ===== src/Blob/Hex/RoundTrip.antt =====
-- What is written to a stream is read back, and how long it is.
use osdpmaster.Prelude.{
  ℕ, zero, suc, ◌-◌, ◌*◌, ◌/◌, ◌%◌, ◌<◌, ◌≡◌, refl, ap, ◌∙◌, Bool, true, false, ◌==◌, [], ◌∷◌, ◌++◌,
  ltb, length, replicate, Bytes, bit_or, All, IsByte, all_below, all_below-elim, ==_iff, arith,
  append_assoc, append-nil, Bool-cases, inl, inr,
}
use osdpmaster.Blob.Hex.{
  Out, put_text, hex_digit, hex_text, put_data, put_zeros, data_width, put_blob, isxdigit,
  digit_value, get_pairs, get_hex,
}

-- A byte as two digits.
abbrev pub pair : ℕ → Bytes
pair b = hex_digit (b / 16) ∷ hex_digit (b % 16) ∷ []

abbrev pub pairs : Bytes → Bytes
pairs [] = []
pairs (b ∷ bs) = pair b ++ pairs bs

-- Every pair is read as its byte, by evaluation.
high_table : all_below 256 (λ b. isxdigit (hex_digit (b / 16))) ≡ true
unfolding all_below
high_table = refl

low_table : all_below 256 (λ b. isxdigit (hex_digit (b % 16))) ≡ true
unfolding all_below
low_table = refl

abbrev value_of : ℕ → ℕ
value_of b = bit_or (digit_value (hex_digit (b / 16)) * 16) (digit_value (hex_digit (b % 16))) % 256

value_table : all_below 256 (λ b. value_of b == b) ≡ true
unfolding all_below
value_table = refl

abbrev pub nonempty : Bytes → Bool
nonempty [] = false
nonempty (c ∷ cs) = true

-- The text does not start with a digit.
abbrev pub StartsOutside : Bytes → Type 0
StartsOutside [] = Unit {0}
StartsOutside (c ∷ cs) = isxdigit c ≡ false

get_pair :
    (b : ℕ) (found cs : Bytes)
    → b < 256
    → get_pairs found (pair b ++ cs) ≡ get_pairs (found ++ b ∷ []) cs
unfolding get_pairs
get_pair b found cs lt =
    let high : isxdigit (hex_digit (b / 16)) ≡ true = all_below-elim _ high_table b lt in
    let low : isxdigit (hex_digit (b % 16)) ≡ true = all_below-elim _ low_table b lt in
    let value : value_of b ≡ b = (==_iff _ _).0 (all_below-elim _ value_table b lt) in
    rw (high, low, value)

pub put_pair :
    (b : ℕ) (o : Out)
    → b < 256
    → put_text (hex_text b) (record o { width = 2 }) ≡ record { text = o.text ++ pair b; width = 0 }
unfolding put_text
put_pair b o lt = elim (Bool-cases (ltb b 16)) [
  | inl small ↦
      let high : b / 16 ≡ 0 = ground arith in
      let low : b % 16 ≡ b = ground arith in rw (small, high, low)
  | inr large ↦ rw large
]

data_width_lem : (bs : Bytes) → data_width [] [] bs ≡ 2 * length bs
unfolding data_width
data_width_lem [] = refl
data_width_lem (b ∷ bs) = omega (arith, data_width_lem bs)

pub put_nothing :
    (o : Out) → put_text [] o ≡ record { text = o.text ++ replicate o.width (b'0'); width = 0 }
unfolding put_text
put_nothing o =
    let e : o.width - 0 ≡ o.width = omega arith in
    rw append-nil (ap (λ n. record { text = o.text ++ replicate n (b'0'); width = 0 }) e)

put_data_lem :
    (bs text : Bytes)
    → All IsByte bs
    → put_data [] [] bs (record { text = text; width = 0 })
      ≡ record { text = text ++ pairs bs; width = 0 }
unfolding put_data
put_data_lem [] text h = rw append-nil
put_data_lem (b ∷ bs) text h =
    rw
      (
        put_nothing,
        append-nil,
        put_pair b (record { text = text; width = 2 }) h.0,
        put_data_lem bs _ h.1,
      )
      (ap (λ t. record { text = t; width = 0 }) (append_assoc text (pair b) (pairs bs)))

-- The text before the first byte, which is empty, takes the width of the stream.
put_data_first :
    (b : ℕ) (bs : Bytes) (o : Out)
    → All IsByte (b ∷ bs)
    → put_data [] [] (b ∷ bs) o
      ≡ record { text = o.text ++ (replicate o.width (b'0') ++ pairs (b ∷ bs)); width = 0 }
unfolding put_data
put_data_first b bs o h =
    let zeros : Bytes = replicate o.width (b'0') in
    rw
      (
        put_nothing o,
        put_pair b (record { text = o.text ++ zeros; width = 2 }) h.0,
        put_data_lem bs _ h.1,
      )
      (ap (λ t. record { text = t; width = 0 })
        (append_assoc (o.text ++ zeros) (pair b) (pairs bs)
          ∙ append_assoc o.text zeros (pairs (b ∷ bs))))

put_zeros_lem :
    (n : ℕ) (text : Bytes)
    → put_zeros n (record { text = text; width = 0 })
      ≡ record { text = text ++ replicate n (b'0'); width = 0 }
unfolding put_zeros put_text
put_zeros_lem zero text = rw append-nil
put_zeros_lem (suc n) text =
    rw (put_zeros_lem n _)
      (ap (λ t. record { text = t; width = 0 }) (append_assoc text (b'0' ∷ []) _))

-- A blob that holds bytes is written as the digits of its bytes, two for each, in the order of the
-- bytes, but with as many zeros before them as the width of the stream, and more after them where
-- the digits alone are shorter than the width. The width is used up.
pub put_blob_lem :
    (b : ℕ) (bs : Bytes) (o : Out)
    → All IsByte (b ∷ bs)
    → put_blob [] (b ∷ bs) o ≡ record {
      text =
          o.text
          ++ (replicate o.width (b'0')
              ++ (pairs (b ∷ bs) ++ replicate (o.width - 2 * length (b ∷ bs)) (b'0')));
      width = 0;
    }
unfolding put_blob
put_blob_lem b bs o h =
    let zeros : Bytes = replicate o.width (b'0') in
    let after : Bytes = replicate (o.width - 2 * length (b ∷ bs)) (b'0') in
    rw (data_width_lem (b ∷ bs), put_data_first b bs o h, put_zeros_lem)
      (ap (λ t. record { text = t; width = 0 })
        (append_assoc o.text (zeros ++ pairs (b ∷ bs)) after
          ∙ ap (λ t. o.text ++ t) (append_assoc zeros (pairs (b ∷ bs)) after)))

get_end :
    (found rest : Bytes)
    → StartsOutside rest
    → get_pairs found rest ≡ (found, record { rest = rest; good = nonempty rest })
unfolding get_pairs
get_end found [] out = refl
get_end found (c ∷ []) out = rw out
get_end found (c ∷ (d ∷ cs)) out = rw out

pub get_pairs-pairs :
    (found bs rest : Bytes)
    → All IsByte bs
    → StartsOutside rest
    → get_pairs found (pairs bs ++ rest)
      ≡ (found ++ bs, record { rest = rest; good = nonempty rest })
get_pairs-pairs found [] rest h out = rw append-nil (get_end found rest out)
get_pairs-pairs found (b ∷ bs) rest h out =
    rw (get_pair b found (pairs bs ++ rest) h.0, get_pairs-pairs (found ++ b ∷ []) bs rest h.1 out)
      (ap (λ xs. (xs, record { rest = rest; good = nonempty rest }))
        (append_assoc found (b ∷ []) bs))

-- A blob that is written to a stream with no width set, and followed by the end of the input or by a
-- character that is not a hexadecimal digit, is read back: the same bytes, up to that character,
-- which is left; the stream is not good any more exactly where nothing follows.
pub get_hex-put_blob :
    (bs rest : Bytes)
    → All IsByte bs
    → StartsOutside rest
    → get_hex ((put_blob [] bs (record { text = []; width = 0 })).text ++ rest)
      ≡ (bs, record { rest = rest; good = nonempty rest })
unfolding get_hex put_blob put_zeros
get_hex-put_blob bs rest h out =
    let none_left : 0 - data_width [] [] bs ≡ 0 = omega arith in
    rw (put_data_lem bs [] h, none_left) (get_pairs-pairs [] bs rest h out)
