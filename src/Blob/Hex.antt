-- ===== src/Blob/Hex.antt =====
-- The stream operators of blob.cpp: the content as pairs of hexadecimal digits.
--
-- An output stream is the text so far and the width that is set for the next insertion; the fill is
-- that which `operator<<` sets, and the other flags are the standard ones. An input stream is what it
-- still holds, and whether it is good. Characters are those of the C locale.
pub mod RoundTrip
use osdpmaster.Prelude.{
  ℕ, zero, suc, ◌+◌, ◌-◌, ◌*◌, ◌/◌, ◌%◌, Bool, true, false, not, ◌&&◌, ◌||◌, List, [], ◌∷◌, ◌++◌,
  if◌then◌else◌, ltb, leb, length, replicate, Bytes, bit_or,
}

pub record Out : Type 0 where
  pub text : Bytes
  pub width : ℕ

-- The insertion of a text, which uses up the width.
unfoldable pub put_text : Bytes → Out → Out
put_text t o = record { text = o.text ++ (replicate (o.width - length t) (b'0') ++ t); width = 0 }

abbrev pub hex_digit : ℕ → ℕ
hex_digit d = if ltb d 10 then 48 + d else 55 + d

-- `(int)(data[i] & 0xFF)` in base 16, uppercase.
abbrev pub hex_text : ℕ → Bytes
hex_text b = if ltb b 16 then hex_digit b ∷ [] else hex_digit (b / 16) ∷ hex_digit (b % 16) ∷ []

-- The loop over the bytes, with the text that stands before each one.
unfoldable pub put_data : Bytes → Bytes → Bytes → Out → Out
put_data between delim [] o = o
put_data between delim (b ∷ bs) o =
    put_data between between bs (put_text (hex_text b) (record (put_text delim o) { width = 2 }))

-- `while(w < oldw)`, for so many rounds.
unfoldable pub put_zeros : ℕ → Out → Out
put_zeros zero o = o
put_zeros (suc n) o = put_zeros n (put_text (b'0' ∷ []) o)

-- The width that the loop over the bytes has counted.
unfoldable pub data_width : Bytes → Bytes → Bytes → ℕ
data_width between delim [] = 0
data_width between delim (b ∷ bs) = length delim + 2 + data_width between between bs

-- `operator<<`, with what `delim()` gives.
unfoldable pub put_blob : Bytes → Bytes → Out → Out
put_blob between bytes o =
    record (put_zeros (o.width - data_width between [] bytes) (put_data between [] bytes o)) {
      width = 0;
    }

pub record In : Type 0 where
  pub rest : Bytes
  pub good : Bool

abbrev pub isxdigit : ℕ → Bool
isxdigit c =
    (leb (b'0') c && leb c (b'9'))
    || ((leb (b'A') c && leb c (b'F')) || (leb (b'a') c && leb c (b'f')))

abbrev pub toupper : ℕ → ℕ
toupper c = if leb (b'a') c && leb c (b'z') then c - 32 else c

-- The value of a digit.
abbrev pub digit_value : ℕ → ℕ
digit_value c = let v = toupper c - b'0' in if ltb 9 v then v - 7 else v

-- `operator>>`: pairs of digits up to another character. A single digit before it is lost, and so is
-- one at the end of the input.
unfoldable pub get_pairs : Bytes → Bytes → Bytes × In
get_pairs found [] = (found, record { rest = []; good = false })
get_pairs found (c ∷ []) =
    if not (isxdigit c)
    then (found, record { rest = c ∷ []; good = true })
    else (found, record { rest = []; good = false })
get_pairs found (c ∷ (d ∷ cs)) =
    let more = get_pairs (found ++ (bit_or (digit_value c * 16) (digit_value d) % 256) ∷ []) cs in
    if not (isxdigit c)
    then (found, record { rest = c ∷ (d ∷ cs); good = true })
    else if not (isxdigit d)
    then (found, record { rest = d ∷ cs; good = true })
    else more

unfoldable pub get_hex : Bytes → Bytes × In
get_hex input = get_pairs [] input
