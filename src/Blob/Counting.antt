-- ===== src/Blob/Counting.antt =====
-- Every block is counted: its count is the number of objects that point to it, and a block that no
-- object points to is deleted.
use osdpmaster.Prelude.{
  ℕ, zero, suc, ◌+◌, ◌-◌, ◌%◌, ◌^◌, ◌≤◌, ◌<◌, ◌≡◌, ◌≢◌, refl, sym, ◌∙◌, false, ◌==◌, List, [], ◌∷◌,
  ◌++◌, Option, none, some, if◌then◌else◌, length, get_elem?, set, Bytes, arith, Bool-cases, inl,
  inr, ==_refl,
}
use osdpmaster.Run.{Run, ok}
use osdpmaster.Blob.{
  BlobData, Slot, destroyed, null, at, Store, loaded, new_data, ref, unref, on_data,
}

-- How often a list of slots points to an address.
abbrev pub points : ℕ → Slot → ℕ
points a destroyed = 0
points a null = 0
points a (at b) = if a == b then 1 else 0

abbrev pub refs : ℕ → List Slot → ℕ
refs a [] = 0
refs a (c ∷ cs) = points a c + refs a cs

pub refs-append : (a : ℕ) (cs ds : List Slot) → refs a (cs ++ ds) ≡ refs a cs + refs a ds
refs-append a [] ds = omega arith
refs-append a (c ∷ cs) ds = omega (arith, refs-append a cs ds)

pub refs-set :
    (a : ℕ) (cs : List Slot) (i : ℕ) (c d : Slot)
    → get_elem? cs i ≡ some c
    → refs a (set cs i d) + points a c ≡ refs a cs + points a d
refs-set a [] i c d e = cc
refs-set a (b ∷ cs) zero c d e = let same : b ≡ c = cc in rw same (omega arith)
refs-set a (b ∷ cs) (suc i) c d e = omega (arith, refs-set a cs i c d e)

pub points-le :
    (a : ℕ) (cs : List Slot) (i : ℕ) (c : Slot) → get_elem? cs i ≡ some c → points a c ≤ refs a cs
points-le a [] i c e = cc
points-le a (b ∷ cs) zero c e = let same : b ≡ c = cc in rw same (omega arith)
points-le a (b ∷ cs) (suc i) c e = omega (arith, points-le a cs i c e)

pub refs-le-length : (a : ℕ) (cs : List Slot) → refs a cs ≤ length cs
refs-le-length a [] = omega arith
refs-le-length a (destroyed ∷ cs) = omega (arith, refs-le-length a cs)
refs-le-length a (null ∷ cs) = omega (arith, refs-le-length a cs)
refs-le-length a (at b ∷ cs) = ground (arith, refs-le-length a cs)

-- A block with `n` references, none of them if it is deleted.
abbrev pub Counted : Option BlobData → ℕ → Type 0
Counted none n = n ≡ 0
Counted (some d) n = (d.refcount ≡ n) × (0 < n)

-- All blocks are counted over a list of slots: those of the objects, and those that a method holds.
pub record IsCounted (slots : List Slot) (cell : ℕ → Option BlobData) (next : ℕ) : Type 0 where
  pub counted : (a : ℕ) → Counted (cell a) (refs a slots)
  pub fresh : (a : ℕ) → next ≤ a → refs a slots ≡ 0

pub IsCounted-refs :
    (cs ds : List Slot) {cell : ℕ → Option BlobData} {next : ℕ}
    → ((a : ℕ) → refs a cs ≡ refs a ds)
    → IsCounted cs cell next
    → IsCounted ds cell next
IsCounted-refs cs ds same v = record {
  counted = λ a. rw (same a) at (v.counted a);
  fresh = λ a h. sym (same a) ∙ v.fresh a h;
}

abbrev pub text_of : Option BlobData → Option Bytes
text_of none = none
text_of (some d) = some d.content

-- A step of counting: the objects are as they were, and so is the content of each block that still has
-- a reference.
pub record Recounted (slots : List Slot) (s : Store) (r : Run Store (Unit {0})) : Type 0 where
  pub after : Store
  pub returns : r ≡ ok tt after
  pub objects : after.blobs ≡ s.blobs
  pub counted : IsCounted slots after.cell after.next
  pub kept : (a : ℕ) → 0 < refs a slots → text_of (after.cell a) ≡ text_of (s.cell a)

-- A block that is counted and pointed to is there.
pub here : (c : Option BlobData) (n : ℕ) → Counted c n → 0 < n → (d : BlobData) × (c ≡ some d)
here none n h pos = absurd (omega arith)
here (some d) n h pos = (d, refl)

-- The count of one block changes with the slots, and the other blocks stay.
pub put-Counted :
    (b : ℕ) (x : Option BlobData) (s : Store) (cs ds : List Slot)
    → IsCounted cs s.cell s.next
    → Counted x (refs b ds)
    → ((a : ℕ) → (a == b) ≡ false → refs a ds ≡ refs a cs)
    → (a : ℕ) → Counted (if a == b then x else s.cell a) (refs a ds)
put-Counted b x s cs ds v new same a = elim (Bool-cases (a == b)) [
  | inl this ↦ let e : a ≡ b = ground arith in rw (this, e) new
  | inr other ↦ rw (other, same a other) (v.counted a)
]

module _ (b : ℕ) (d : BlobData) (slots : List Slot) (s : Store) (e : s.cell b ≡ some d) where
  kept_text :
      (n : ℕ) (a : ℕ)
      → text_of (if a == b then some (record d { refcount = n }) else s.cell a) ≡ text_of (s.cell a)
  kept_text n a = elim (Bool-cases (a == b)) [
    | inl this ↦ let f : a ≡ b = ground arith in rw (this, f, e)
    | inr other ↦ rw other
  ]

  ref_data-Recounted :
      IsCounted slots s.cell s.next
      → 0 < refs b slots
      → length slots + 1 < 2 ^ 32
      → Recounted (at b ∷ slots) s (ref b s)
  unfolding ref loaded
  ref_data-Recounted v one room =
      let count : Counted (some d) (refs b slots) = rw e at (v.counted b) in
      let few = refs-le-length b slots in
      rw e (record {
        after = _;
        returns = refl;
        objects = refl;
        counted = record {
          counted =
              put-Counted b _ s slots (at b ∷ slots) v (ground arith)
                (λ a other. rw other (omega arith));
          fresh = λ a h. ground (arith, v.fresh a h);
        };
        kept = λ a h. kept_text _ a;
      })

  unref_data-Recounted :
      IsCounted (at b ∷ slots) s.cell s.next
      → length slots + 1 < 2 ^ 32
      → Recounted slots s (unref b s)
  unfolding unref loaded
  unref_data-Recounted v room =
      let count : Counted (some d) (refs b (at b ∷ slots)) = rw e at (v.counted b) in
      let few = refs-le-length b slots in
      let self : refs b (at b ∷ slots) ≡ 1 + refs b slots = rw (==_refl b) refl in
      let left : (d.refcount + 2 ^ 32 - 1) % 2 ^ 32 ≡ refs b slots = omega arith in
      let new : Counted
          (if refs b slots == 0 then none else some (record d { refcount = refs b slots }))
          (refs b slots) =
        left_over (refs b slots) in
      rw (e, left)
        (record {
          after = _;
          returns = refl;
          objects = refl;
          counted = record {
            counted =
                put-Counted b _ s (at b ∷ slots) slots v new (λ a other. rw other (omega arith));
            fresh = λ a h. omega (arith, v.fresh a h);
          };
          kept = λ a h. elim (Bool-cases (refs b slots == 0)) [
            | inr more ↦ rw more (kept_text _ a)
            | inl last ↦ elim (Bool-cases (a == b)) [
              | inl this ↦
                  let f : a ≡ b = ground arith in
                  let h' : 0 < refs b slots = rw f at h in absurd (ground arith)
              | inr other ↦ rw other
            ]
          ];
        })
    where
      left_over : (n : ℕ) → Counted (if n == 0 then none else some (record d { refcount = n })) n
      left_over zero = refl
      left_over (suc n) = ground arith

pub ref-Recounted :
    (c : Slot) (slots : List Slot) (s : Store)
    → IsCounted slots s.cell s.next
    → ((a : ℕ) → points a c ≤ refs a slots)
    → length slots + 1 < 2 ^ 32
    → c ≢ destroyed
    → Recounted (c ∷ slots) s (on_data ref c s)
unfolding on_data ref loaded
ref-Recounted destroyed slots s v held room there = absurd (there refl)
ref-Recounted null slots s v held room there = record {
  after = s;
  returns = refl;
  objects = refl;
  counted = IsCounted-refs slots (null ∷ slots) (λ a. omega arith) v;
  kept = λ a h. refl;
}
ref-Recounted (at b) slots s v held room there =
    let one : 0 < refs b slots = ground (arith, held b) in
    let (d, e) = here (s.cell b) (refs b slots) (v.counted b) one in
    ref_data-Recounted b d slots s e v one room

pub unref-Recounted :
    (c : Slot) (slots : List Slot) (s : Store)
    → IsCounted (c ∷ slots) s.cell s.next
    → length slots + 1 < 2 ^ 32
    → c ≢ destroyed
    → Recounted slots s (on_data unref c s)
unfolding on_data
unref-Recounted destroyed slots s v room there = absurd (there refl)
unref-Recounted null slots s v room there = record {
  after = s;
  returns = refl;
  objects = refl;
  counted = IsCounted-refs (null ∷ slots) slots (λ a. omega arith) v;
  kept = λ a h. refl;
}
unref-Recounted (at b) slots s v room there =
    let one : 0 < refs b (at b ∷ slots) = rw (==_refl b) (omega arith) in
    let (d, e) = here (s.cell b) (refs b (at b ∷ slots)) (v.counted b) one in
    unref_data-Recounted b d slots s e v room

-- A new block has one reference, which its maker holds.
pub new_data-IsCounted :
    (bytes : Bytes) (slots : List Slot) (s : Store)
    → IsCounted slots s.cell s.next
    → (t : Store) × (new_data bytes s ≡ ok s.next t)
      × (t.blobs ≡ s.blobs)
      × IsCounted (at s.next ∷ slots) t.cell t.next
      × ((a : ℕ) → 0 < refs a slots → t.cell a ≡ s.cell a)
      × (text_of (t.cell s.next) ≡ some bytes)
unfolding new_data
new_data-IsCounted bytes slots s v =
    let none_yet = v.fresh s.next (omega arith) in
    (
      _,
      refl,
      refl,
      record {
        counted =
            put-Counted s.next (some (record { content = bytes; refcount = 1 })) s slots
              (at s.next ∷ slots) v (rw (==_refl s.next) (omega arith))
              (λ a other. rw other (omega arith));
        fresh = λ a h. ground (arith, v.fresh a);
      },
      λ a h. elim (Bool-cases (a == s.next)) [
        | inl this ↦ absurd (ground (arith, v.fresh a))
        | inr other ↦ rw other
      ],
      rw (==_refl s.next) refl,
    )
