-- ===== src/Blob/Values.antt =====
-- The counted buffers against plain values: what an object holds, whoever shares its block.
use osdpmaster.Prelude.{
  ℕ, zero, suc, ◌+◌, ◌^◌, ◌≤◌, ◌<◌, ◌≡◌, ◌≢◌, refl, sym, ap, ap₂, ◌∙◌, List, [], ◌∷◌, ◌++◌, Option,
  none, some, length, length-append, length-set, get_elem?, get_or, set, Bytes, arith, ==_refl,
}
use osdpmaster.Run.{Run, Cmd, ok, and_then}
use osdpmaster.Blob.{
  BlobData, Slot, destroyed, null, at, Store, unref, on_data, alive, blob_null, blob_bytes,
  blob_copy, destroy, assign, clear, content_start,
}
use osdpmaster.Blob.Counting.{
  points, refs, refs-append, refs-set, points-le, IsCounted, IsCounted-refs, text_of, ref-Recounted,
  unref-Recounted, new_data-IsCounted,
}

-- What an object is to its user: destroyed, null, or bytes. `dangling` is a pointer to a deleted block.
pub data Value : Type 0 where
  gone nothing dangling : Value
  bytes : Bytes → Value

abbrev pub value_of : Option Bytes → Value
value_of none = dangling
value_of (some bs) = bytes bs

abbrev pub value_in : (ℕ → Option BlobData) → Slot → Value
value_in cell destroyed = gone
value_in cell null = nothing
value_in cell (at a) = value_of (text_of (cell a))

abbrev pub values_in : (ℕ → Option BlobData) → List Slot → List Value
values_in cell [] = []
values_in cell (c ∷ cs) = value_in cell c ∷ values_in cell cs

abbrev pub values : Store → List Value
values s = values_in s.cell s.blobs

pub values_in-append :
    (cell : ℕ → Option BlobData) (cs ds : List Slot)
    → values_in cell (cs ++ ds) ≡ values_in cell cs ++ values_in cell ds
values_in-append cell [] ds = refl
values_in-append cell (c ∷ cs) ds = ap (◌∷◌ (value_in cell c)) (values_in-append cell cs ds)

pub values_in-set :
    (cell : ℕ → Option BlobData) (cs : List Slot) (i : ℕ) (c : Slot)
    → values_in cell (set cs i c) ≡ set (values_in cell cs) i (value_in cell c)
values_in-set cell [] i c = refl
values_in-set cell (b ∷ cs) zero c = refl
values_in-set cell (b ∷ cs) (suc i) c = ap (◌∷◌ (value_in cell b)) (values_in-set cell cs i c)

pub values_in-get :
    (cell : ℕ → Option BlobData) (cs : List Slot) (i : ℕ) (c : Slot)
    → get_elem? cs i ≡ some c
    → get_or (values_in cell cs) i gone ≡ value_in cell c
values_in-get cell [] i c e = cc
values_in-get cell (b ∷ cs) zero c e = let same : b ≡ c = cc in rw same refl
values_in-get cell (b ∷ cs) (suc i) c e = values_in-get cell cs i c e

-- Objects whose blocks keep their content keep their values.
pub value_in-kept :
    (f g : ℕ → Option BlobData) (c : Slot)
    → ((a : ℕ) → 0 < points a c → text_of (g a) ≡ text_of (f a))
    → value_in g c ≡ value_in f c
value_in-kept f g destroyed same = refl
value_in-kept f g null same = refl
value_in-kept f g (at b) same = ap value_of (same b (rw (==_refl b) (omega arith)))

pub values_in-kept :
    (f g : ℕ → Option BlobData) (cs : List Slot)
    → ((a : ℕ) → 0 < refs a cs → text_of (g a) ≡ text_of (f a))
    → values_in g cs ≡ values_in f cs
values_in-kept f g [] same = refl
values_in-kept f g (c ∷ cs) same =
    ap₂ ◌∷◌ (value_in-kept f g c (λ a h. same a (omega arith)))
      (values_in-kept f g cs (λ a h. same a (omega arith)))

-- A call that is done: it returns, all blocks are counted over the objects, of which there is at most
-- one more, and their values are `vs`.
pub record Performed (vs : List Value) (s : Store) (r : Run Store (Unit {0})) : Type 0 where
  pub after : Store
  pub returns : r ≡ ok tt after
  pub counted : IsCounted after.blobs after.cell after.next
  pub more : length after.blobs ≤ length s.blobs + 1
  pub valued : values after ≡ vs

-- An object that is alive.
abbrev pub IsAlive : Option Slot → Type 0
IsAlive none = ⊥
IsAlive (some destroyed) = ⊥
IsAlive (some null) = Unit {0}
IsAlive (some (at a)) = Unit {0}

pub alive_lem :
    (o : Option Slot)
    → IsAlive o
    → (c : Slot) × (o ≡ some c) × (c ≢ destroyed) × ((s : Store) → alive o s ≡ ok c s)
unfolding alive
alive_lem none h = absurd h
alive_lem (some destroyed) h = absurd h
alive_lem (some null) h = (null, refl, (λ e. cc), λ s. refl)
alive_lem (some (at a)) h = (at a, refl, (λ e. cc), λ s. refl)

-- The state that a call leaves, from its blocks and its objects.
pub finished :
    {vs : List Value} (s t : Store) (cs : List Slot)
    → IsCounted cs t.cell t.next
    → length cs ≤ length s.blobs + 1
    → values_in t.cell cs ≡ vs
    → Performed vs s (ok tt (record t { blobs = cs }))
finished s t cs v more valued = record {
  after = _;
  returns = refl;
  counted = v;
  more = more;
  valued = valued;
}

module _ (s : Store) (v : IsCounted s.blobs s.cell s.next)
    (room : length s.blobs + 1 < 2 ^ 32) where
  pub blob_null-Performed : Performed (values s ++ nothing ∷ []) s (blob_null s)
  unfolding blob_null
  blob_null-Performed = record {
    after = _;
    returns = refl;
    counted =
        IsCounted-refs s.blobs (s.blobs ++ null ∷ [])
          (λ a. omega (arith, refs-append a s.blobs (null ∷ []))) v;
    more = omega (arith, length-append s.blobs (null ∷ []));
    valued = values_in-append s.cell s.blobs (null ∷ []);
  }

  pub blob_bytes-Performed :
      (bs : Bytes) → 0 < length bs → Performed (values s ++ bytes bs ∷ []) s (blob_bytes bs s)
  unfolding blob_bytes content_start
  blob_bytes-Performed [] some_byte = absurd (omega arith)
  blob_bytes-Performed (b ∷ content_behind) some_byte =
      let bs = b ∷ content_behind in
      let (t, e, objects, counted, kept, content) = new_data-IsCounted bs s.blobs s v in
      rw (e, objects)
        (record {
          after = _;
          returns = refl;
          counted =
              IsCounted-refs (at s.next ∷ s.blobs) (s.blobs ++ at s.next ∷ [])
                (λ a. omega (arith, refs-append a s.blobs (at s.next ∷ []))) counted;
          more = omega (arith, length-append s.blobs (at s.next ∷ []));
          valued =
              values_in-append t.cell s.blobs (at s.next ∷ [])
              ∙ ap₂ ◌++◌ (values_in-kept s.cell t.cell s.blobs (λ a h. ap text_of (kept a h)))
                  (ap (λ o. value_of o ∷ []) content);
        })

  pub blob_copy-Performed :
      (i : ℕ)
      → IsAlive (get_elem? s.blobs i)
      → Performed (values s ++ get_or (values s) i gone ∷ []) s (blob_copy i s)
  unfolding blob_copy
  blob_copy-Performed i there =
      let (c, e, ne, alive_c) = alive_lem (get_elem? s.blobs i) there in
      let r = ref-Recounted c s.blobs s v (λ a. points-le a s.blobs i c e) room ne in
      rw (alive_c s, r.returns, r.objects)
        (finished s r.after (s.blobs ++ c ∷ [])
          (IsCounted-refs (c ∷ s.blobs) (s.blobs ++ c ∷ [])
            (λ a. omega (arith, refs-append a s.blobs (c ∷ []))) r.counted)
          (omega (arith, length-append s.blobs (c ∷ [])))
          (values_in-append r.after.cell s.blobs (c ∷ [])
            ∙ ap₂ (λ vs w. vs ++ w ∷ [])
                (values_in-kept s.cell r.after.cell s.blobs (λ a h. r.kept a (omega arith)))
                (value_in-kept s.cell r.after.cell c (λ a h. r.kept a (omega arith))
                  ∙ sym (values_in-get s.cell s.blobs i c e))))

  -- An object lets its block go and gets another pointer, that of a slot which is already counted.
  pub replace-Performed :
      (t : Store) (i : ℕ) (c d : Slot) (k : Unit {0} → Cmd Store (Unit {0}))
      → ((u : Store) → u.blobs ≡ s.blobs → k tt u ≡ ok tt (record u { blobs = set s.blobs i c }))
      → get_elem? s.blobs i ≡ some d
      → d ≢ destroyed
      → t.blobs ≡ s.blobs
      → IsCounted (c ∷ s.blobs) t.cell t.next
      → ((a : ℕ) → 0 < refs a (c ∷ s.blobs) → text_of (t.cell a) ≡ text_of (s.cell a))
      → Performed (set (values s) i (value_in s.cell c)) s (and_then (on_data unref d t) k)
  replace-Performed t i c d k sets e ne objects counted kept =
      let swap : (a : ℕ) → refs a (c ∷ s.blobs) ≡ refs a (d ∷ set s.blobs i c) =
        λ a. omega (arith, refs-set a s.blobs i d c e) in
      let len = length-set s.blobs i c in
      let r =
        unref-Recounted d (set s.blobs i c) t
          (IsCounted-refs (c ∷ s.blobs) (d ∷ set s.blobs i c) swap counted) (omega arith) ne in
      rw (r.returns, sets r.after (r.objects ∙ objects))
        (finished s r.after (set s.blobs i c) r.counted (omega arith) (
          values_in-kept t.cell r.after.cell (set s.blobs i c) r.kept
          ∙ values_in-kept s.cell t.cell (set s.blobs i c) (λ a h. kept a (omega (arith, swap a)))
          ∙ values_in-set s.cell s.blobs i c))

  pub destroy-Performed :
      (i : ℕ) → IsAlive (get_elem? s.blobs i) → Performed (set (values s) i gone) s (destroy i s)
  unfolding destroy
  destroy-Performed i there =
      let (d, e, ne, alive_d) = alive_lem (get_elem? s.blobs i) there in
      rw (alive_d s) (
        replace-Performed s i destroyed d _ (λ u same. rw same) e ne refl
          (IsCounted-refs s.blobs (destroyed ∷ s.blobs) (λ a. omega arith) v) (λ a h. refl))

  pub clear-Performed :
      (i : ℕ) → IsAlive (get_elem? s.blobs i) → Performed (set (values s) i nothing) s (clear i s)
  unfolding clear
  clear-Performed i there =
      let (d, e, ne, alive_d) = alive_lem (get_elem? s.blobs i) there in
      rw (alive_d s) (
        replace-Performed s i null d _ (λ u same. rw same) e ne refl
          (IsCounted-refs s.blobs (null ∷ s.blobs) (λ a. omega arith) v) (λ a h. refl))

  -- Assignment, also of an object to itself.
  pub assign-Performed :
      (i from : ℕ)
      → IsAlive (get_elem? s.blobs i)
      → IsAlive (get_elem? s.blobs from)
      → Performed (set (values s) i (get_or (values s) from gone)) s (assign i from s)
  unfolding assign
  assign-Performed i from there source =
      let (c, e, ne, alive_c) = alive_lem (get_elem? s.blobs from) source in
      let (d, f, nf, alive_d) = alive_lem (get_elem? s.blobs i) there in
      let r = ref-Recounted c s.blobs s v (λ a. points-le a s.blobs from c e) room ne in
      rw (alive_c s, r.returns, r.objects, alive_d r.after, values_in-get s.cell s.blobs from c e)
        (replace-Performed r.after i c d _
          (λ u same. rw (same, alive_c (record u { blobs = s.blobs }))) f nf r.objects r.counted
          r.kept)
