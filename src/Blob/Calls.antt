-- ===== src/Blob/Calls.antt =====
-- Any sequence of calls: what they do to the values of the objects, and that no block is lost or used too
-- late.
use osdpmaster.Prelude.{
  ◌↔◌, ℕ, zero, suc, ◌+◌, ◌^◌, ◌≤◌, ◌<◌, ◌≡◌, ◌≢◌, refl, sym, ap, ap₂, ◌∙◌, List, [], ◌∷◌, ◌++◌,
  Option, none, some, length, length-append, get_elem?, get_or, set, Bytes, arith, get_elem?-behind,
  set-behind,
}
use osdpmaster.Run.{Run, ok, and_then}
use osdpmaster.Blob.{
  BlobData, Slot, destroyed, null, at, Store, loaded, alive, update, write_data, write_blob,
  own_data, copy_content, clone, blob_null, Call, makes_null, makes, copies, destroys, clones,
  clears, assigns, writes, call, content_start,
}
use osdpmaster.Blob.Counting.{
  refs, refs-append, points-le, Counted, IsCounted, IsCounted-refs, here,
}
use osdpmaster.Blob.Values.{
  Value, gone, nothing, bytes, value_in, values_in, values, values_in-get, values_in-append,
  Performed, IsAlive, alive_lem, blob_null-Performed, blob_bytes-Performed, blob_copy-Performed,
  destroy-Performed, clear-Performed, assign-Performed,
}
use osdpmaster.Blob.Writing.{overwrite, own_block, shared_block}

content_start-full : {S : Type 0} (bs : Bytes) (s : S) → bs ≢ [] → content_start bs s ≡ ok tt s
unfolding content_start
content_start-full [] s full = absurd (full refl)
content_start-full (b ∷ bs) s full = refl

pub content_start-some :
    {S : Type 0} (bs : Bytes) (s : S) → 0 < length bs → content_start bs s ≡ ok tt s
content_start-some bs s h = content_start-full bs s (λ e. absurd (omega (arith, ap length e)))

length-values_in :
    (cell : ℕ → Option BlobData) (cs : List Slot) → length (values_in cell cs) ≡ length cs
length-values_in cell [] = refl
length-values_in cell (c ∷ cs) = ap suc (length-values_in cell cs)

-- The values after a write: all that share the block have the new bytes, or only the object itself, if
-- it was null.
abbrev pub written : ℕ → Option Slot → Bytes → List Slot → List Value → List Value
written i none bs cs vs = vs
written i (some destroyed) bs cs vs = vs
written i (some null) bs cs vs = set vs i (bytes bs)
written i (some (at a)) bs cs vs = overwrite a bs cs vs

module _ (s : Store) (v : IsCounted s.blobs s.cell s.next)
    (room : length s.blobs + 2 < 2 ^ 32) where
  write_slot :
      (i : ℕ) (bs : Bytes) (c : Slot)
      → get_elem? s.blobs i ≡ some c
      → c ≢ destroyed
      → Performed
          (written i (some c) bs s.blobs (values s))
          s
          (and_then (own_data i c s) (λ a. write_data bs a))
  write_slot i bs destroyed e ne = absurd (ne refl)
  write_slot i bs null e ne = own_block s v (omega arith) i bs e
  write_slot i bs (at a) e ne = unfold own_data in shared_block s v (omega arith) i a bs e

  write_blob-Performed :
      (i : ℕ) (bs : Bytes)
      → IsAlive (get_elem? s.blobs i)
      → Performed (written i (get_elem? s.blobs i) bs s.blobs (values s)) s (write_blob i bs s)
  unfolding write_blob update
  write_blob-Performed i bs there =
      let (c, e, ne, alive_c) = alive_lem (get_elem? s.blobs i) there in
      rw (alive_c s) (rw e (write_slot i bs c e ne))

  -- The object is not one with an empty block.
  abbrev pub HasContent : Value → Type 0
  HasContent v = v ≢ bytes []

  clone_slot :
      (i : ℕ) (c : Slot)
      → get_elem? s.blobs i ≡ some c
      → c ≢ destroyed
      → HasContent (value_in s.cell c)
      → Performed
          (values s ++ value_in s.cell c ∷ [])
          s
          (and_then (blob_null s) (λ x. copy_content (length s.blobs) c))
  unfolding copy_content update blob_null loaded alive
  clone_slot i destroyed e ne full = absurd (ne refl)
  clone_slot i null e ne full = blob_null-Performed s v (omega arith)
  clone_slot i (at a) e ne full =
      let s1 : Store = record s { blobs = s.blobs ++ null ∷ [] } in
      let v1 : IsCounted s1.blobs s1.cell s1.next =
        IsCounted-refs s.blobs (s.blobs ++ null ∷ [])
          (λ b. omega (arith, refs-append b s.blobs (null ∷ []))) v in
      let behind = get_elem?-behind s.blobs null in
      let size = length-append s.blobs (null ∷ []) in
      let (d, there) =
        here (s.cell a) (refs a s.blobs) (v.counted a)
          (ground (arith, points-le a s.blobs i (at a) e)) in
      let o = own_block s1 v1 (omega (arith, size)) (length s.blobs) d.content behind in
      let put : set (values s1) (length s.blobs) (bytes d.content)
          ≡ values s ++ bytes d.content ∷ [] =
        ap₂ (λ vs n. set vs n (bytes d.content)) (values_in-append s.cell s.blobs (null ∷ []))
          (sym (length-values_in s.cell s.blobs))
        ∙ set-behind (values s) nothing (bytes d.content) in
      let starts : content_start d.content s1 ≡ ok tt s1 =
        content_start-full d.content s1 (λ z. full (rw there (ap bytes z))) in
      rw (there, starts, behind)
        (record {
          after = o.after;
          returns = o.returns;
          counted = o.counted;
          more = omega (
            arith,
            length-values_in o.after.cell o.after.blobs,
            ap length (o.valued ∙ put),
            length-append (values s) (bytes d.content ∷ []),
            length-values_in s.cell s.blobs,
          );
          valued = o.valued ∙ put;
        })

  clone-Performed :
      (i : ℕ)
      → IsAlive (get_elem? s.blobs i)
      → HasContent (get_or (values s) i gone)
      → Performed (values s ++ get_or (values s) i gone ∷ []) s (clone i s)
  unfolding clone
  clone-Performed i there full =
      let (c, e, ne, alive_c) = alive_lem (get_elem? s.blobs i) there in
      rw (alive_c s, values_in-get s.cell s.blobs i c e)
        (clone_slot i c e ne (rw (← values_in-get s.cell s.blobs i c e) full))

-- What a call does to the values of the objects. Most calls take them as plain values; a write has to
-- know the slots, since it goes to all the objects that share the block.
unfoldable pub apply : Call → List Slot → List Value → List Value
apply makes_null cs vs = vs ++ nothing ∷ []
apply (makes bs) cs vs = vs ++ bytes bs ∷ []
apply (copies i) cs vs = vs ++ get_or vs i gone ∷ []
apply (clones i) cs vs = vs ++ get_or vs i gone ∷ []
apply (destroys i) cs vs = set vs i gone
apply (clears i) cs vs = set vs i nothing
apply (assigns i j) cs vs = set vs i (get_or vs j gone)
apply (writes i bs) cs vs = written i (get_elem? cs i) bs cs vs

-- The objects that a call uses are alive, and it neither makes nor clones an empty block.
abbrev pub IsAllowed : Call → Store → Type 0
IsAllowed makes_null s = Unit {0}
IsAllowed (makes bs) s = 0 < length bs
IsAllowed (copies i) s = IsAlive (get_elem? s.blobs i)
IsAllowed (clones i) s = IsAlive (get_elem? s.blobs i) × (get_or (values s) i gone ≢ bytes [])
IsAllowed (destroys i) s = IsAlive (get_elem? s.blobs i)
IsAllowed (clears i) s = IsAlive (get_elem? s.blobs i)
IsAllowed (assigns i j) s = IsAlive (get_elem? s.blobs i) × IsAlive (get_elem? s.blobs j)
IsAllowed (writes i bs) s = IsAlive (get_elem? s.blobs i)

-- A call on objects that are alive, which makes or clones no empty block, in a state where all blocks are counted
-- and which has fewer than 2 ^ 32 - 2 objects: it uses no deleted block and returns, and all blocks are
-- counted again. What an object is made, copied, cloned, cleared, destroyed or assigned to be, its value
-- alone becomes, as if the objects were plain values that share nothing; a write gives the new bytes to
-- every object that shares the block, or to the object alone where it had none.
pub call-Performed :
    (c : Call) (s : Store)
    → IsCounted s.blobs s.cell s.next
    → length s.blobs + 2 < 2 ^ 32
    → IsAllowed c s
    → Performed (apply c s.blobs (values s)) s (call c s)
unfolding call apply
call-Performed makes_null s v room h = blob_null-Performed s v (omega arith)
call-Performed (makes bs) s v room h = blob_bytes-Performed s v (omega arith) bs h
call-Performed (copies i) s v room h = blob_copy-Performed s v (omega arith) i h
call-Performed (destroys i) s v room h = destroy-Performed s v (omega arith) i h
call-Performed (clones i) s v room h = clone-Performed s v room i h.0 h.1
call-Performed (clears i) s v room h = clear-Performed s v (omega arith) i h
call-Performed (assigns i j) s v room h = assign-Performed s v (omega arith) i j h.0 h.1
call-Performed (writes i bs) s v room h = write_blob-Performed s v room i bs h

abbrev pub no_objects : Store
no_objects = record { cell = λ a. none; next = 0; blobs = [] }

-- The states that `n` calls on living objects lead to, from one without objects.
pub data Reaches : ℕ → Store → Type 0 where
  start : Reaches zero no_objects
  step :
      {n : ℕ} {s t : Store}
      → Reaches n s
      → (c : Call) → IsAllowed c s
      → call c s ≡ ok tt t
      → Reaches (suc n) t

-- What holds in each such state.
record Holds (n : ℕ) (s : Store) : Type 0 where
  counted : IsCounted s.blobs s.cell s.next
  few : length s.blobs ≤ n

Performed-Holds :
    {vs : List Value} {n : ℕ} {s t : Store} {r : Run Store (Unit {0})}
    → Holds n s
    → r ≡ ok tt t
    → Performed vs s r
    → Holds (suc n) t
Performed-Holds {t} h e p =
    let same : p.after ≡ t = cc (sym p.returns ∙ e) in
    rw (← same) (record { counted = p.counted; few = omega (arith, p.more, h.few) })

Reaches-Holds : {n : ℕ} {s : Store} → n + 2 < 2 ^ 32 → Reaches n s → Holds n s
Reaches-Holds few start = record {
  counted = record { counted = λ a. refl; fresh = λ a h. refl };
  few = omega arith;
}
Reaches-Holds few (step {n} {s} {t} r c ok_c e) =
    let h = Reaches-Holds (omega arith) r in
    Performed-Holds h e (call-Performed c s h.counted (omega (arith, h.few)) ok_c)

Counted-none : (c : Option BlobData) (n : ℕ) → Counted c n → (c ≡ none) ↔ (n ≡ 0)
Counted-none none n h = ((λ e. h), λ e. refl)
Counted-none (some d) n h = ((λ e. cc), λ e. absurd (omega arith))

-- After fewer than 2 ^ 32 - 2 calls on living objects, none of which makes or clones an empty block, the count of each block is the
-- number of objects that point to it, and the blocks that are deleted (or not made yet) are exactly those
-- to which no object points: none is deleted too early, and none is left behind.
pub Reaches-IsCounted :
    {n : ℕ} {s : Store}
    → n + 2 < 2 ^ 32
    → Reaches n s
    → IsCounted s.blobs s.cell s.next × ((a : ℕ) → (s.cell a ≡ none) ↔ (refs a s.blobs ≡ 0))
Reaches-IsCounted few r =
    let h = Reaches-Holds few r in (h.counted, λ a. Counted-none _ _ (h.counted.counted a))
