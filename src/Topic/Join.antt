-- ===== src/Topic/Join.antt =====
-- `split` undoes `join`.
use osdpmaster.Prelude.{
  true, ◌+◌, sym, ◌||◌, ltb, Bool-cases, inl, inr, ℕ, zero, suc, ◌≤◌, ◌<◌, ◌≡◌, refl, ap, ◌∙◌, List,
  [], ◌∷◌, ◌++◌, false, ◌==◌, Bytes, length, length-append, arith, append-nil, ==_refl, All,
}
use osdpmaster.Topic.{part_of, behind_part, split_loop, split, join_rest, join}

-- The separator is not among the bytes.
abbrev pub IsFree : ℕ → Bytes → Type 0
IsFree sep = All (λ b. (b == sep) ≡ false)

-- The last part, where there is one, is not empty.
abbrev pub EndsFull : List Bytes → Type 0
EndsFull [] = Unit {0}
EndsFull (p ∷ []) = 0 < length p
EndsFull (p ∷ (q ∷ ps)) = EndsFull (q ∷ ps)

-- The text is not empty and does not end with the separator.
abbrev pub EndsOpen : ℕ → Bytes → Type 0
EndsOpen sep [] = ⊥
EndsOpen sep (b ∷ []) = (b == sep) ≡ false
EndsOpen sep (b ∷ (c ∷ cs)) = EndsOpen sep (c ∷ cs)

module _ (sep : ℕ) where
  pub part_of-append :
      (p r : Bytes)
      → IsFree sep p
      → (part_of sep (p ++ (sep ∷ r)) ≡ p) × (behind_part sep (p ++ (sep ∷ r)) ≡ r)
  unfolding part_of behind_part
  part_of-append [] r free = rw (==_refl sep) (refl, refl)
  part_of-append (b ∷ p) r free =
      let (first, rest) = part_of-append p r free.1 in rw free.0 (ap (◌∷◌ b) first, rest)

  pub part_of-free : (p : Bytes) → IsFree sep p → (part_of sep p ≡ p) × (behind_part sep p ≡ [])
  unfolding part_of behind_part
  part_of-free [] free = (refl, refl)
  part_of-free (b ∷ p) free =
      let (first, rest) = part_of-free p free.1 in rw free.0 (ap (◌∷◌ b) first, rest)

  -- A round over a text that is not empty, where parts are still cut.
  pub split_loop-step :
      (fuel count n : ℕ) (text : Bytes)
      → 0 < length text
      → (count == 0 || ltb n count) ≡ true
      → split_loop (suc fuel) sep count n text
        ≡ part_of sep text ∷ split_loop fuel sep count (n + 1) (behind_part sep text)
  unfolding split_loop
  split_loop-step fuel count n [] some go = absurd (omega arith)
  split_loop-step fuel count n (b ∷ bs) some go = rw go

  split_loop-stop :
      (fuel count n : ℕ) (text : Bytes)
      → 0 < length text
      → (count == 0 || ltb n count) ≡ false
      → split_loop (suc fuel) sep count n text ≡ text ∷ []
  unfolding split_loop
  split_loop-stop fuel count n [] some stop = absurd (omega arith)
  split_loop-stop fuel count n (b ∷ bs) some stop = rw stop

  pub split_loop-end : (fuel count n : ℕ) → split_loop fuel sep count n [] ≡ []
  unfolding split_loop
  split_loop-end fuel count n = refl

  EndsOpen-pos : (text : Bytes) → EndsOpen sep text → 0 < length text
  EndsOpen-pos [] h = absurd h
  EndsOpen-pos (b ∷ bs) h = omega arith

  split_loop-join :
      (ps : List Bytes) (fuel n : ℕ)
      → length (join sep ps) ≤ fuel
      → All (IsFree sep) ps
      → EndsFull ps
      → split_loop fuel sep 0 n (join sep ps) ≡ ps
  unfolding join join_rest
  split_loop-join [] fuel n enough free full = unfold split_loop in refl
  split_loop-join (p ∷ []) zero n enough free full = absurd (omega (arith, length-append p []))
  split_loop-join (p ∷ (q ∷ ps)) zero n enough free full =
      absurd (omega (arith, length-append p (sep ∷ join sep (q ∷ ps))))
  split_loop-join (p ∷ []) (suc fuel) n enough free full =
      let (first, none_left) = part_of-free p free.0 in
      rw (append-nil p) (
        split_loop-step fuel 0 n p full refl
        ∙ rw (first, none_left) (ap (◌∷◌ p) (split_loop-join [] fuel (n + 1) (omega arith) tt tt)))
  split_loop-join (p ∷ (q ∷ ps)) (suc fuel) n enough free full =
      let tail = join sep (q ∷ ps) in
      let size = length-append p (sep ∷ tail) in
      let (first, rest) = part_of-append p tail free.0 in
      split_loop-step fuel 0 n (p ++ (sep ∷ tail)) (omega (arith, size)) refl
      ∙ rw (first, rest)
          (ap (◌∷◌ p) (split_loop-join (q ∷ ps) fuel (n + 1) (omega (arith, size)) free.1 full))

  -- Where a text that does not end with the separator is cut: nowhere, or at the first separator.
  data Cut (text : Bytes) : Type 0 where
    whole : part_of sep text ≡ text → behind_part sep text ≡ [] → Cut text
    at_sep :
        text ≡ part_of sep text ++ (sep ∷ behind_part sep text)
        → EndsOpen sep (behind_part sep text)
        → length (behind_part sep text) < length text
        → Cut text

  Cut-text : (text : Bytes) → EndsOpen sep text → Cut text
  unfolding part_of behind_part
  Cut-text [] h = absurd h
  Cut-text (b ∷ []) h = whole (rw h) (rw h)
  Cut-text (b ∷ (c ∷ cs)) h = elim (Bool-cases (b == sep)) [
    | inl cut ↦
        let e : b ≡ sep = ground arith in at_sep (rw (cut, e)) (rw cut h) (rw cut (omega arith))
    | inr go_on ↦ elim (Cut-text (c ∷ cs) h) [
      | whole p q ↦ whole (rw go_on (ap (◌∷◌ b) p)) (rw go_on q)
      | at_sep p q l ↦ at_sep (rw go_on (ap (◌∷◌ b) p)) (rw go_on q) (rw go_on (omega arith))
    ]
  ]

  -- The parts of a text that is not empty are not none, and give the text back.
  join-split_loop :
      (fuel count n : ℕ) (text : Bytes)
      → EndsOpen sep text
      → length text ≤ fuel
      → (p : Bytes) × (ps : List Bytes) × (split_loop fuel sep count n text ≡ p ∷ ps)
        × (join sep (p ∷ ps) ≡ text)
  unfolding join join_rest
  join-split_loop zero count n text h enough = absurd (omega (arith, EndsOpen-pos text h))
  join-split_loop (suc fuel) count n text h enough =
      let some = EndsOpen-pos text h in
      elim (Bool-cases (count == 0 || ltb n count)) [
        | inr stop ↦ (text, [], split_loop-stop fuel count n text some stop, append-nil text)
        | inl go ↦ elim (Cut-text text h) [
          | whole p none_left ↦ (
            text,
            [],
            split_loop-step fuel count n text some go
                ∙ rw (p, none_left) (ap (◌∷◌ text) (split_loop-end fuel count (n + 1))),
            append-nil text,
          )
          | at_sep p open_end less ↦
              let (q, qs, more, joined) =
                join-split_loop fuel count (n + 1) (behind_part sep text) open_end (omega arith) in
              (
                part_of sep text,
                q ∷ qs,
                split_loop-step fuel count n text some go ∙ ap (◌∷◌ (part_of sep text)) more,
                ap (λ r. part_of sep text ++ (sep ∷ r)) joined ∙ sym p,
              )
        ]
      ]

-- Parts without the separator, the last of them not empty, are joined to a text that `split`, without a
-- bound on their number, cuts into the same parts.
pub split-join :
    (sep : ℕ) (ps : List Bytes) → All (IsFree sep) ps → EndsFull ps → split sep 0 (join sep ps) ≡ ps
unfolding split
split-join sep ps free full =
    split_loop-join sep ps (length (join sep ps)) 0 (omega arith) free full

-- Whatever the bound on the number of parts, `join` gives back every text that is not empty and does not
-- end with the separator.
pub join-split :
    (sep count : ℕ) (text : Bytes) → EndsOpen sep text → join sep (split sep count text) ≡ text
unfolding split
join-split sep count text h =
    let (p, ps, cut, joined) = join-split_loop sep (length text) count 0 text h (omega arith) in
    rw cut joined
