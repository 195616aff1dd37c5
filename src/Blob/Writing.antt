-- ===== src/Blob/Writing.antt =====
-- `update` and `clone`: a write is seen by all that share the block, and a clone shares with none.
use osdpmaster.Prelude.{
  ℕ, ◌+◌, ◌^◌, ◌<◌, ◌≡◌, refl, ap, ap₂, ◌∙◌, Bool, true, false, ◌==◌, List, [], ◌∷◌, Option, some,
  if◌then◌else◌, length, length-set, get_elem?, set, Bytes, arith, Bool-cases, inl, inr, ==_refl,
}
use osdpmaster.Run.{ok, and_then}
use osdpmaster.Blob.{BlobData, Slot, destroyed, null, at, Store, loaded, own_data, write_data}
use osdpmaster.Blob.Counting.{
  refs, refs-set, points-le, Counted, IsCounted, IsCounted-refs, text_of, new_data-IsCounted, here,
  put-Counted,
}
use osdpmaster.Blob.Values.{
  Value, gone, nothing, bytes, value_of, values_in, values, values_in-set, values_in-kept,
  Performed,
}

-- A write to a block that is there.
write_data-IsCounted :
    (bs : Bytes) (a : ℕ) (d : BlobData) (slots : List Slot) (s : Store)
    → s.cell a ≡ some d
    → IsCounted slots s.cell s.next
    → (t : Store) × (write_data bs a s ≡ ok tt t)
      × (t.blobs ≡ s.blobs)
      × IsCounted slots t.cell t.next
      × ((b : ℕ) → text_of (t.cell b) ≡ (if b == a then some bs else text_of (s.cell b)))
unfolding write_data loaded
write_data-IsCounted bs a d slots s e v =
    let count : Counted (some d) (refs a slots) = rw e at (v.counted a) in
    rw e (
      _,
      refl,
      refl,
      record {
        counted =
            put-Counted a (some (record d { content = bs })) s slots slots v count
              (λ b other. refl);
        fresh = v.fresh;
      },
      λ b. elim (Bool-cases (b == a)) [ inl this ↦ rw this refl | inr other ↦ rw other refl ],
    )

-- The values where all that share a block have new bytes.
abbrev pub points_to : ℕ → Slot → Bool
points_to a (at b) = b == a
points_to a null = false
points_to a destroyed = false

abbrev pub overwrite : ℕ → Bytes → List Slot → List Value → List Value
overwrite a bs [] vs = vs
overwrite a bs (d ∷ ds) [] = []
overwrite a bs (d ∷ ds) (v ∷ vs) = (if points_to a d then bytes bs else v) ∷ overwrite a bs ds vs

branch :
    (bs : Bytes) (t : Bool) (o : Option Bytes)
    → value_of (if t then some bs else o) ≡ (if t then bytes bs else value_of o)
branch bs true o = refl
branch bs false o = refl

overwrite-values_in :
    (f g : ℕ → Option BlobData) (a : ℕ) (bs : Bytes) (cs : List Slot)
    → ((b : ℕ) → text_of (g b) ≡ (if b == a then some bs else text_of (f b)))
    → values_in g cs ≡ overwrite a bs cs (values_in f cs)
overwrite-values_in f g a bs [] h = refl
overwrite-values_in f g a bs (destroyed ∷ cs) h = ap (◌∷◌ gone) (overwrite-values_in f g a bs cs h)
overwrite-values_in f g a bs (null ∷ cs) h = ap (◌∷◌ nothing) (overwrite-values_in f g a bs cs h)
overwrite-values_in f g a bs (at b ∷ cs) h =
    ap₂ ◌∷◌ (ap value_of (h b) ∙ branch bs (b == a) (text_of (f b)))
      (overwrite-values_in f g a bs cs h)

module _ (s : Store) (v : IsCounted s.blobs s.cell s.next)
    (room : length s.blobs + 1 < 2 ^ 32) where
  -- A null object gets a block of its own, and that is written to.
  pub own_block :
      (i : ℕ) (bs : Bytes)
      → get_elem? s.blobs i ≡ some null
      → Performed
          (set (values s) i (bytes bs))
          s
          (and_then (own_data i null s) (λ a. write_data bs a))
  unfolding own_data
  own_block i bs e =
      let (t, new, objects, counted, kept, content) = new_data-IsCounted [] s.blobs s v in
      let swap : (a : ℕ) → refs a (at s.next ∷ s.blobs) ≡ refs a (set s.blobs i (at s.next)) =
        λ a. omega (arith, refs-set a s.blobs i null (at s.next) e) in
      let counted' =
        IsCounted-refs (at s.next ∷ s.blobs) (set s.blobs i (at s.next)) swap counted in
      let one : 0 < refs s.next (at s.next ∷ s.blobs) = rw (==_refl s.next) (omega arith) in
      let (d, there) =
        here (t.cell s.next) (refs s.next (at s.next ∷ s.blobs)) (counted.counted s.next) one in
      let (u, written, same, counted'', texts) =
        write_data-IsCounted bs s.next d (set s.blobs i (at s.next))
          (record t { blobs = set s.blobs i (at s.next) }) there counted' in
      let new_text : text_of (u.cell s.next) ≡ some bs = texts s.next ∙ rw (==_refl s.next) refl in
      let old_texts : (a : ℕ) → 0 < refs a s.blobs → text_of (u.cell a) ≡ text_of (s.cell a) =
        λ a h.
          let other : (a == s.next) ≡ false = ground (arith, v.fresh a) in
          texts a ∙ rw other (ap text_of (kept a h)) in
      let slots : values_in u.cell u.blobs ≡ values_in u.cell (set s.blobs i (at s.next)) =
        ap (values_in u.cell) same in
      rw (new, objects, written)
        (record {
          after = u;
          returns = refl;
          counted = rw same counted'';
          more = rw same (omega (arith, length-set s.blobs i (at s.next)));
          valued =
              slots
              ∙ values_in-set u.cell s.blobs i (at s.next)
              ∙ ap₂ (λ vs w. set vs i w) (values_in-kept s.cell u.cell s.blobs old_texts)
                  (ap value_of new_text);
        })

  -- A write to a block that is there.
  pub shared_block :
      (i a : ℕ) (bs : Bytes)
      → get_elem? s.blobs i ≡ some (at a)
      → Performed (overwrite a bs s.blobs (values s)) s (write_data bs a s)
  shared_block i a bs e =
      let one : 0 < refs a s.blobs = ground (arith, points-le a s.blobs i (at a) e) in
      let (d, there) = here (s.cell a) (refs a s.blobs) (v.counted a) one in
      let (u, written, same, counted, texts) = write_data-IsCounted bs a d s.blobs s there v in
      let objects : values_in u.cell u.blobs ≡ values_in u.cell s.blobs =
        ap (values_in u.cell) same in
      rw written (record {
        after = u;
        returns = refl;
        counted = rw same counted;
        more = rw same (omega arith);
        valued = objects ∙ overwrite-values_in s.cell u.cell a bs s.blobs texts;
      })
