-- ===== src/Config/Logging/Faults.antt =====
-- The items of the settings of the log that are read outside their parts.
use osdpmaster.Prelude.{
  ℕ, zero, suc, ◌<◌, ◌≡◌, ◌≢◌, ◌↔◌, ◌⊎◌, inl, inr, refl, ap, ap₂, length-append, ◌≤◌, ◌∙◌, true,
  false, ◌==◌, List, [], ◌∷◌, ◌++◌, get_elem?, Bytes, codes, same_text, length, arith, Bool-cases,
}
use osdpmaster.Run.{ok, fault}
use osdpmaster.Topic.{part_of, behind_part, split_loop, split}
use osdpmaster.Topic.Join.{split_loop-step}
use osdpmaster.Config.Logging.{
  Category, console_appender, file_appender, with_part, add_parts, add_item,
}

-- A text is its first part, or that and a separator with what is behind it.
part_cases :
    (sep : ℕ) (text : Bytes)
    → ((text ≡ part_of sep text) × (behind_part sep text ≡ []))
      ⊎ (text ≡ part_of sep text ++ (sep ∷ behind_part sep text))
unfolding part_of behind_part
part_cases sep [] = inl (refl, refl)
part_cases sep (b ∷ bs) = elim (Bool-cases (b == sep)) [
  | inl cut ↦ let e : b ≡ sep = ground arith in inr (rw (cut, e) refl)
  | inr more ↦ elim (part_cases sep bs) [
    | inl (whole, nothing) ↦ inl (rw more (ap (◌∷◌ b) whole), rw more nothing)
    | inr cut ↦ inr (rw more (ap (◌∷◌ b) cut))
  ]
]

-- `same_text` is equality.
same_text-eq : (xs ys : Bytes) → same_text xs ys ≡ true → xs ≡ ys
unfolding same_text
same_text-eq [] [] e = refl
same_text-eq [] (y ∷ ys) e = cc
same_text-eq (x ∷ xs) [] e = cc
same_text-eq (x ∷ xs) (y ∷ ys) e = elim (Bool-cases (x == y)) [
  | inl first ↦
      let rest : same_text xs ys ≡ true = rw first at e in
      let same : x ≡ y = ground arith in rw (same, same_text-eq xs ys rest) refl
  | inr other ↦ let no : false ≡ true = rw other at e in cc
]

-- The parts of an item that reads outside them.
bad_parts :
    (key : Bytes) (rest : List Bytes) (c : Category)
    → add_parts (key ∷ rest) c ≡ fault
    → (key ≡ codes "file") × (rest ≡ [])
unfolding add_parts with_part
bad_parts key rest c bad = elim (Bool-cases (same_text key (codes "console"))) [
  | inl console ↦ absurd (
      let no : ok tt (record c { appenders = c.appenders ++ console_appender ∷ [] }) ≡ fault =
        rw console at bad in
      cc)
  | inr other ↦ elim (Bool-cases (same_text key (codes "file"))) [
    | inr neither ↦ absurd (let no : ok tt c ≡ fault = rw (other, neither) at bad in cc)
    | inl file ↦ (same_text-eq key (codes "file") file, only rest (rw (other, file) at bad))
  ]
]
  where
    only :
        (rest : List Bytes)
        → with_part
            (get_elem? rest 0)
            (λ path d. ok tt (record d { appenders = d.appenders ++ file_appender path ∷ [] }))
            c
          ≡ fault
        → rest ≡ []
    only [] e = refl
    only (path ∷ ps) e = cc

-- What is cut from a text that is not empty is not nothing.
parts_of_some :
    (sep fuel : ℕ) (text : Bytes) → 0 < length text → split_loop (suc fuel) sep 2 1 text ≢ []
parts_of_some sep fuel text some_text e =
    let cut = split_loop-step sep fuel 2 1 text some_text refl in cc

nothing_behind :
    (sep fuel : ℕ) (text : Bytes)
    → length text ≤ fuel
    → split_loop fuel sep 2 1 text ≡ []
    → text ≡ []
nothing_behind sep fuel [] le e = refl
nothing_behind sep zero (b ∷ bs) le e = absurd (omega arith)
nothing_behind sep (suc fuel) (b ∷ bs) le e =
    absurd (parts_of_some sep fuel (b ∷ bs) (omega arith) e)

fault_item :
    (b : ℕ) (bs : Bytes) (c : Category)
    → add_parts (split (b'=') 2 (b ∷ bs)) c ≡ fault
    → ((b ∷ bs) ≡ codes "file") ⊎ ((b ∷ bs) ≡ codes "file=")
fault_item b bs c bad =
    let part = part_of (b'=') (b ∷ bs) in
    let behind = behind_part (b'=') (b ∷ bs) in
    let cut : split (b'=') 2 (b ∷ bs) ≡ part ∷ split_loop (length bs) (b'=') 2 1 behind =
      unfold split in split_loop-step (b'=') (length bs) 2 0 (b ∷ bs) (omega arith) refl in
    let (is_file, none_left) =
      bad_parts part (split_loop (length bs) (b'=') 2 1 behind) c (rw cut at bad) in
    elim (part_cases (b'=') (b ∷ bs)) [
      | inl (whole, nothing) ↦ inl (whole ∙ is_file)
      | inr cut_at ↦
          let sizes = ap length cut_at ∙ length-append part ((b'=') ∷ behind) in
          let empty : behind ≡ [] =
            nothing_behind (b'=') (length bs) behind (omega (arith, sizes)) none_left in
          inr (cut_at ∙ ap₂ (λ p t. p ++ ((b'=') ∷ t)) is_file empty)
    ]

bad_item :
    (item : Bytes) (c : Category)
    → (item ≡ []) ⊎ ((item ≡ codes "file") ⊎ (item ≡ codes "file="))
    → add_parts (split (b'=') 2 item) c ≡ fault
unfolding add_parts with_part split split_loop part_of behind_part same_text
bad_item item c (inl e) = rw e refl
bad_item item c (inr (inl e)) = rw e refl
bad_item item c (inr (inr e)) = rw e refl

-- An item is read outside its parts exactly if it is empty, or is `file` with no path behind it, with or
-- without `=`.
pub add_item-fault :
    (item : Bytes) (c : Category)
    → (add_item item c ≡ fault) ↔ ((item ≡ []) ⊎ ((item ≡ codes "file") ⊎ (item ≡ codes "file=")))
unfolding add_item
add_item-fault item c = (read_outside item, bad_item item c)
  where
    read_outside :
        (text : Bytes)
        → add_parts (split (b'=') 2 text) c ≡ fault
        → (text ≡ []) ⊎ ((text ≡ codes "file") ⊎ (text ≡ codes "file="))
    read_outside [] bad = inl refl
    read_outside (b ∷ bs) bad = inr (fault_item b bs c bad)
