-- ===== src/Protocol/Input/Safe.antt =====
-- The receiving side on any script of the port: no access outside a buffer, and fuel enough.
use osdpmaster.Prelude.{
  ℕ, zero, suc, ◌+◌, ◌-◌, ◌≤◌, ◌<◌, ◌≡◌, refl, ◌∙◌, Bool, true, false, [], ◌∷◌, inl, inr, arith,
  Option, none, some, leb, ltb, if◌then◌else◌, Bool-cases, Option-cases, take, drop, length, Bytes,
  length-take,
}
use osdpmaster.Run.{ok, and_then, Safe, Safe-and_then, Safe-mono}
use osdpmaster.Timespec.{Timespec}
use osdpmaster.Protocol.{
  Protocol, Reply, size, error, slave_buff_size, splice, header_size, clock_gettime, readstamp,
}
use osdpmaster.Protocol.Input.{
  work, find_soh, readsoh_found, readsoh_loop, readsoh, flyby_end, flyby_loop, fly_past,
  readeof_loop, readeof, verify, read_body, readcook, on_size, in_len, shift_down, running,
  passes_by,
}
use osdpmaster.Protocol.Input.Bounds.{
  length-splice, HasBuffer, Reads, read_some-Safe, Ends, Safe-on_size, fill-Safe,
}

-- SOH lies within the bytes that are searched.
find_soh-lt : (bs : Bytes) (i : ℕ) → find_soh bs ≡ some i → i < length bs
unfolding find_soh
find_soh-lt [] i e = cc
find_soh-lt (b ∷ bs) i e = elim (Option-cases (find_soh bs)) [
  | inl none_left ↦ ground arith
  | inr (j, found) ↦ ground (arith, find_soh-lt bs j found)
]

pub work-in_buffer : (p : Protocol) (b : Bytes) → work (record p { in_buffer = b }) ≡ work p
unfolding work
work-in_buffer p b = refl

pub shift_down-HasBuffer :
    (i n : ℕ) (p : Protocol) → HasBuffer p → n ≤ slave_buff_size → HasBuffer (shift_down i n p)
shift_down-HasBuffer i n p buf le =
    length-splice p.in_buffer 0 (take (n - i) (drop i p.in_buffer))
      (omega (arith, length-take (n - i) (drop i p.in_buffer)))
    ∙ buf

readsoh_found-Safe :
    (o : Option ℕ) (fuel n : ℕ) (p : Protocol)
    → HasBuffer p
    → n ≤ header_size
    → work p < fuel
    → ((q : Protocol)
        → HasBuffer q
        → work q < fuel
        → Safe (Ends header_size header_size) (readsoh_loop fuel q))
    → Safe (Ends header_size header_size) (readsoh_found o n (readsoh_loop fuel) p)
unfolding readsoh_found
readsoh_found-Safe none fuel n p buf le enough rec = rec p buf enough
readsoh_found-Safe (some i) fuel n p buf le enough rec =
    fill-Safe (work p + 1) header_size (n - i) (shift_down i n p)
      (shift_down-HasBuffer i n p buf (omega arith)) (omega arith) (omega arith)
      (omega (arith, work-in_buffer p (shift_down i n p).in_buffer))

readsoh_loop-Safe :
    (fuel : ℕ) (p : Protocol)
    → HasBuffer p
    → work p < fuel
    → Safe (Ends header_size header_size) (readsoh_loop fuel p)
unfolding readsoh_loop
readsoh_loop-Safe zero p buf enough = absurd (omega arith)
readsoh_loop-Safe (suc fuel) p buf enough =
    let cleared = splice p.in_buffer 0 (0 ∷ 0 ∷ 0 ∷ 0 ∷ 0 ∷ []) in
    let start : Protocol = record p { in_buffer = cleared } in
    let same = work-in_buffer p cleared in
    Safe-on_size (Reads (work start) 0 header_size) (Ends header_size header_size) _
      (λ n q. readsoh_found (find_soh (take n q.in_buffer)) n (readsoh_loop fuel) q)
      (read_some-Safe 0 header_size start
        (length-splice p.in_buffer 0 (0 ∷ 0 ∷ 0 ∷ 0 ∷ 0 ∷ []) (omega arith) ∙ buf) (omega arith)
        (omega arith))
      (λ n q h.
        readsoh_found-Safe (find_soh (take n q.in_buffer)) fuel n q h.0 (ground arith)
          (ground arith) (readsoh_loop-Safe fuel))
      (λ e q h. h.0)

-- After SOH the whole header is in the buffer.
pub readsoh-Safe : (p : Protocol) → HasBuffer p → Safe (Ends header_size header_size) (readsoh p)
unfolding readsoh
readsoh-Safe p buf = readsoh_loop-Safe (work p + 1) p buf (omega arith)

readeof_loop-Safe :
    (fuel total offset : ℕ) (p : Protocol)
    → HasBuffer p
    → offset < total
    → total ≤ slave_buff_size
    → work p < fuel
    → Safe (Ends total total) (readeof_loop fuel total offset p)
unfolding readeof_loop
readeof_loop-Safe zero total offset p buf lt room enough = absurd (omega arith)
readeof_loop-Safe (suc fuel) total offset p buf lt room enough =
    Safe-on_size (Reads (work p) offset (total - offset)) (Ends total total) _
      (λ n q. let more = readeof_loop fuel total n q in if leb total n then ok (size n) q else more)
      (read_some-Safe offset (total - offset) p buf (omega arith) (omega arith))
      (λ n q h. elim (Bool-cases (leb total n)) [
        | inl done ↦ rw done (h.0, ground arith, ground arith)
        | inr more ↦
            rw more (readeof_loop-Safe fuel total n q h.0 (ground arith) room (ground arith))
      ])
      (λ e q h. h.0)

-- A message that is read to its end fits the buffer and is longer than its header.
pub readeof-Safe : (p : Protocol) → HasBuffer p → Safe (Ends 6 slave_buff_size) (readeof 5 p)
unfolding readeof
readeof-Safe p buf = elim (Bool-cases (leb (in_len p) 5)) [
  | inl short ↦ rw short buf
  | inr long ↦ rw long (elim (Bool-cases (ltb (slave_buff_size - 5) (in_len p))) [
    | inl big ↦ rw big buf
    | inr fits ↦ rw fits (
        Safe-mono (Ends (in_len p) (in_len p)) (Ends 6 slave_buff_size) _
          (readeof_loop-Safe (work p + 1) (in_len p) 5 p buf (ground arith) (ground arith)
            (omega arith))
          (λ r q. widen r q (ground arith) (ground arith)))
  ])
]
  where
    widen :
        (r : Reply) (q : Protocol)
        → 5 < in_len p
        → in_len p ≤ slave_buff_size
        → Ends (in_len p) (in_len p) r q
        → Ends 6 slave_buff_size r q
    widen (size n) q lo hi h = (h.0, omega arith, omega arith)
    widen (error e) q lo hi h = h

flyby_end-Safe :
    (by_crc : Bool) (lo hi acc : ℕ) (p : Protocol)
    → HasBuffer p
    → Safe (Ends lo hi) (flyby_end by_crc acc p)
unfolding flyby_end
flyby_end-Safe true lo hi acc p buf =
    Safe-on_size (Ends 2 2) (Ends lo hi) _ _
      (fill-Safe (work p + 1) 2 0 p buf (omega arith) (omega arith) (omega arith))
      (λ n q h. ground arith) (λ e q h. h)
flyby_end-Safe false lo hi acc p buf =
    Safe-on_size (Reads (work p) 0 1) (Ends lo hi) _ _
      (read_some-Safe 0 1 p buf (omega arith) (omega arith)) (λ n q h. ground arith) (λ e q h. h.0)

flyby_loop-Safe :
    (fuel lo hi : ℕ) (by_crc : Bool) (acc passed total : ℕ) (p : Protocol)
    → HasBuffer p
    → work p < fuel
    → Safe (Ends lo hi) (flyby_loop fuel by_crc acc passed total p)
unfolding flyby_loop
flyby_loop-Safe zero lo hi by_crc acc passed total p buf enough = absurd (omega arith)
flyby_loop-Safe (suc fuel) lo hi by_crc acc passed total p buf enough =
    let count = if ltb slave_buff_size (total - passed) then slave_buff_size else total - passed in
    elim (Bool-cases (ltb passed total)) [
      | inl more ↦ rw more (
          Safe-on_size (Reads (work p) 0 count) (Ends lo hi) _
            (λ n q.
              flyby_loop fuel by_crc (running by_crc acc (take n q.in_buffer)) (passed + n) total q)
            (read_some-Safe 0 count p buf (ground arith) (ground arith))
            (λ n q h. flyby_loop-Safe fuel lo hi by_crc _ (passed + n) total q h.0 (ground arith))
            (λ e q h. h.0))
      | inr done ↦ rw done (flyby_end-Safe by_crc lo hi acc p buf)
    ]

fly_past-Safe : (lo hi n : ℕ) (p : Protocol) → HasBuffer p → Safe (Ends lo hi) (fly_past n p)
unfolding fly_past
fly_past-Safe lo hi n p buf = flyby_loop-Safe (work p + 1) lo hi _ _ n _ p buf (omega arith)

verify-Ends :
    (n : ℕ) (p : Protocol)
    → HasBuffer p
    → 6 ≤ n
    → n ≤ slave_buff_size
    → Ends 4 slave_buff_size (verify n p) p
unfolding verify
verify-Ends n p buf lo hi = ground arith

read_body-Safe : (p : Protocol) → HasBuffer p → Safe (Ends 4 slave_buff_size) (read_body 5 p)
unfolding read_body
read_body-Safe p buf = elim (Bool-cases (passes_by p)) [
  | inl passing ↦ rw passing (fly_past-Safe 4 slave_buff_size 5 p buf)
  | inr mine ↦ rw mine (
      Safe-on_size (Ends 6 slave_buff_size) (Ends 4 slave_buff_size) (readeof 5 p)
        (λ m q. ok (verify m q) q) (readeof-Safe p buf) (λ m q h. verify-Ends m q h.0 h.1 h.2)
        (λ e q h. h))
]

pub readstamp_lem :
    (q : Protocol)
    → (t : Timespec) × (readstamp q ≡ ok tt (record q { next_write = t; tick = q.tick + 1 }))
unfolding readstamp clock_gettime
readstamp_lem q = (_, refl)

-- Whatever the port delivers and whenever the clock is read, `readcook` writes only within the
-- receive buffer and makes no more rounds than it has fuel; a size that it returns is at least 4 and at
-- most that of the buffer, which has its size then. That it returns at all is not said here: the script
-- of the port may end while it still reads.
pub readcook-Safe : (p : Protocol) → HasBuffer p → Safe (Ends 4 slave_buff_size) (readcook p)
unfolding readcook clock_gettime
readcook-Safe p buf =
    Safe-and_then (Ends header_size header_size) (Ends 4 slave_buff_size) (readsoh _) _
      (readsoh-Safe _ buf)
      (λ n q h.
        Safe-and_then (Ends 4 slave_buff_size) (Ends 4 slave_buff_size) (on_size n read_body q) _
          (body n q h) stamp)
  where
    body :
        (n : Reply) (q : Protocol)
        → Ends header_size header_size n q
        → Safe (Ends 4 slave_buff_size) (on_size n read_body q)
    body (size n) q h = let e : n ≡ 5 = omega arith in rw e (read_body-Safe q h.0)
    body (error e) q h = h

    stamp :
        (r : Reply) (q : Protocol)
        → Ends 4 slave_buff_size r q
        → Safe (Ends 4 slave_buff_size) (and_then (readstamp q) (λ _ s. ok r s))
    stamp (size n) q h = let (t, e) = readstamp_lem q in rw e h
    stamp (error e) q h = let (t, e') = readstamp_lem q in rw e' h
