-- ===== src/Log/Dump.antt =====
-- The lines of the log give the bytes back.
use osdpmaster.Prelude.{
  ℕ, zero, suc, ◌/◌, ◌%◌, ◌<◌, ◌≤◌, ◌≡◌, refl, sym, ap, ap₂, ◌∙◌, Bool, true, false, not, ◌==◌,
  List, [], ◌∷◌, ◌++◌, Bytes, codes, take, drop, length, length-append, map, append_assoc,
  append-nil, arith, All, IsByte, All-split, all_below, all_below-elim,
}
use mathlib.Core.Path.{subst}
use osdpmaster.Topic.{split, join, join_rest}
use osdpmaster.Topic.Join.{IsFree, EndsFull, split-join}
use osdpmaster.Blob.Hex.{Out, put_text, put_data, hex_text, hex_digit, get_hex}
use osdpmaster.Blob.Hex.RoundTrip.{pair, put_pair, get_pairs-pairs}
use osdpmaster.Log.{dump_line, dump, datalog}

high_free : all_below 256 (λ b. not (hex_digit (b / 16) == b' ')) ≡ true
unfolding all_below
high_free = refl

low_free : all_below 256 (λ b. not (hex_digit (b % 16) == b' ')) ≡ true
unfolding all_below
low_free = refl

not-true : (b : Bool) → not b ≡ true → b ≡ false
not-true true h = cc
not-true false h = refl

pairs-IsFree : (bs : Bytes) → All IsByte bs → All (IsFree (b' ')) (map pair bs)
pairs-IsFree [] h = tt
pairs-IsFree (b ∷ bs) h = (
  (
    not-true _ (all_below-elim (λ x. not (hex_digit (x / 16) == b' ')) high_free b h.0),
    (not-true _ (all_below-elim (λ x. not (hex_digit (x % 16) == b' ')) low_free b h.0), tt),
  ),
  pairs-IsFree bs h.1,
)

pairs-EndsFull : (bs : Bytes) → EndsFull (map pair bs)
pairs-EndsFull [] = tt
pairs-EndsFull (b ∷ []) = omega arith
pairs-EndsFull (b ∷ (c ∷ cs)) = pairs-EndsFull (c ∷ cs)

put_blank :
    (text : Bytes)
    → put_text (b' ' ∷ []) (record { text = text; width = 0 })
      ≡ record { text = text ++ b' ' ∷ []; width = 0 }
unfolding put_text
put_blank text = refl

-- The loop over the bytes behind the first.
put_data_rest :
    (bs text : Bytes)
    → All IsByte bs
    → (put_data (b' ' ∷ []) (b' ' ∷ []) bs (record { text = text; width = 0 })).text
      ≡ text ++ join_rest (b' ') (map pair bs)
unfolding put_data join_rest
put_data_rest [] text h = sym (append-nil text)
put_data_rest (b ∷ bs) text h =
    let blank : Bytes = b' ' ∷ [] in
    ap
      (λ (o : Out). (put_data blank blank bs (put_text (hex_text b) (record o { width = 2 }))).text)
      (put_blank text)
    ∙ ap (λ (o : Out). (put_data blank blank bs o).text)
        (put_pair b (record { text = text ++ blank; width = 2 }) h.0)
    ∙ put_data_rest bs ((text ++ blank) ++ pair b) h.1
    ∙ append_assoc (text ++ blank) (pair b) (join_rest (b' ') (map pair bs))
    ∙ append_assoc text blank (pair b ++ join_rest (b' ') (map pair bs))

put_none : put_text [] (record { text = []; width = 0 }) ≡ record { text = []; width = 0 }
unfolding put_text
put_none = refl

dump_line-join : (bs : Bytes) → All IsByte bs → dump_line bs ≡ join (b' ') (map pair bs)
unfolding dump_line join put_data
dump_line-join [] h = refl
dump_line-join (b ∷ bs) h =
    let blank : Bytes = b' ' ∷ [] in
    ap
      (λ (o : Out). (put_data blank blank bs (put_text (hex_text b) (record o { width = 2 }))).text)
      put_none
    ∙ ap (λ (o : Out). (put_data blank blank bs o).text)
        (put_pair b (record { text = []; width = 2 }) h.0)
    ∙ put_data_rest bs (pair b) h.1

-- The bytes of a line: its numbers, parted at the blanks.
abbrev pub concat : List Bytes → Bytes
concat [] = []
concat (p ∷ ps) = p ++ concat ps

abbrev pub read_line : Bytes → Bytes
read_line line = concat (map (λ number. (get_hex number).0) (split (b' ') 0 line))

get_one : (b : ℕ) → b < 256 → (get_hex (pair b)).0 ≡ b ∷ []
unfolding get_hex
get_one b lt = ap (λ r. r.0) (get_pairs-pairs [] (b ∷ []) [] (lt, tt) tt)

read_pairs :
    (bs : Bytes) → All IsByte bs → concat (map (λ number. (get_hex number).0) (map pair bs)) ≡ bs
read_pairs [] h = refl
read_pairs (b ∷ bs) h = rw (get_one b h.0) (ap (◌∷◌ b) (read_pairs bs h.1))

read_line-dump_line : (bs : Bytes) → All IsByte bs → read_line (dump_line bs) ≡ bs
read_line-dump_line bs h =
    ap read_line (dump_line-join bs h)
    ∙ ap (λ ps. concat (map (λ number. (get_hex number).0) ps))
        (split-join (b' ') (map pair bs) (pairs-IsFree bs h) (pairs-EndsFull bs))
    ∙ read_pairs bs h

take-append-drop : (n : ℕ) (bs : Bytes) → take n bs ++ drop n bs ≡ bs
take-append-drop zero bs = refl
take-append-drop (suc n) [] = refl
take-append-drop (suc n) (b ∷ bs) = ap (◌∷◌ b) (take-append-drop n bs)

dump-read :
    (fuel : ℕ) (bs : Bytes)
    → length bs ≤ fuel
    → All IsByte bs
    → concat (map read_line (dump fuel bs)) ≡ bs
unfolding dump
dump-read fuel [] enough h = refl
dump-read zero (b ∷ bs) enough h = absurd (omega arith)
dump-read (suc fuel) (b ∷ bs) enough h =
    let whole : take 16 (b ∷ bs) ++ drop 16 (b ∷ bs) ≡ b ∷ bs = take-append-drop 16 (b ∷ bs) in
    let (now, later) =
      All-split IsByte (take 16 (b ∷ bs)) (drop 16 (b ∷ bs))
        (subst (λ xs. All IsByte xs) (sym whole) h) in
    let fewer : length (drop 16 (b ∷ bs)) ≤ fuel =
      omega (arith, enough, ap length whole, length-append (take 16 (b ∷ bs)) (drop 16 (b ∷ bs))) in
    ap₂ (λ xs ys. xs ++ ys) (read_line-dump_line (take 16 (b ∷ bs)) now)
      (dump-read fuel (drop 16 (b ∷ bs)) fewer later)
    ∙ whole

-- The line behind a prefix and `: `.
abbrev pub behind : Bytes → Bytes → Bytes
behind prefix line = drop 2 (drop (length prefix) line)

drop-behind : (prefix line : Bytes) → behind prefix (prefix ++ (codes ": " ++ line)) ≡ line
drop-behind [] line = refl
drop-behind (c ∷ prefix) line = drop-behind prefix line

drop-lines :
    (prefix : Bytes) (lines : List Bytes)
    → map
        (λ line. read_line (behind prefix line))
        (map (λ line. prefix ++ (codes ": " ++ line)) lines)
      ≡ map read_line lines
drop-lines prefix [] = refl
drop-lines prefix (line ∷ lines) =
    ap₂ (◌∷◌) (ap read_line (drop-behind prefix line)) (drop-lines prefix lines)

-- The lines that are logged for a message give its bytes back, all of them and in their order: each line,
-- behind the prefix and a colon, is a sequence of hexadecimal numbers with one blank between them.
pub datalog-read :
    (prefix buffer : Bytes)
    → All IsByte buffer
    → concat (map (λ line. read_line (behind prefix line)) (datalog prefix buffer)) ≡ buffer
unfolding datalog
datalog-read prefix buffer h =
    ap concat (drop-lines prefix (dump (length buffer) buffer))
    ∙ dump-read (length buffer) buffer (omega arith) h
