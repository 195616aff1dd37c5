-- ===== src/Protocol/Input/Fed.antt =====
-- The receiving side where a poll to come finds no data after the deadline: it does not wait for what never
-- comes.
use osdpmaster.Prelude.{
  ℕ, zero, suc, ◌+◌, ◌-◌, ◌≡◌, ◌⊎◌, refl, Bool, true, false, List, [], ◌∷◌, Option, none, some, leb,
  ltb, if◌then◌else◌, is_negative, Bool-cases, inl, inr, take, length, Bytes,
}
use osdpmaster.Run.{
  Run, Cmd, ok, throw, starved, fault, out_of_fuel, and_then, read_failed, Failure, Safe,
}
use osdpmaster.Run
use osdpmaster.Timespec.{Timespec, ts_sub, to_ms}
use osdpmaster.Protocol.{
  Protocol, Reply, size, error, RxEvent, arrived, interrupted, no_data, failed, slave_buff_size,
  header_size, splice,
}
use osdpmaster.Protocol.Input.{
  deliver, read_events, read_pending, read_some, work, fill, on_size, find_soh, shift_down,
  readsoh_found, readsoh_loop, flyby_end, flyby_loop, fly_past, readeof_loop, readeof, in_len,
  passes_by, running, verify, read_body,
}

-- A reading of the clock comes after a deadline.
abbrev pub IsLate : Timespec → Timespec → Type 0
IsLate d t = is_negative (to_ms (ts_sub d t)) ≡ true

-- Of the polls to come that find no data, at readings of the clock from a number on, one comes after the
-- deadline, or a read fails before.
abbrev pub FallsSilent : (ℕ → Timespec) → Timespec → ℕ → List RxEvent → Type 0
FallsSilent clock d n [] = ⊥
FallsSilent clock d n (arrived bs ∷ es) = FallsSilent clock d n es
FallsSilent clock d n (interrupted ∷ es) = FallsSilent clock d n es
FallsSilent clock d n (no_data ∷ es) = IsLate d (clock n) ⊎ FallsSilent clock d (n + 1) es
FallsSilent clock d n (failed ∷ es) = Unit {0}

-- A run that does not wait for what never comes: it may end early, by an error or by a failed read, and
-- goes on with a size in a state with a property.
abbrev pub Fed : {S : Type 0} → (S → Type 0) → Run S Reply → Type 0
Fed P (ok (size n) s) = P s
Fed P (ok (error e) s) = Unit {0}
Fed P (throw e s) = e ≡ read_failed
Fed P starved = ⊥
Fed P fault = Unit {0}
Fed P out_of_fuel = Unit {0}

pub Fed-Ends :
    {S : Type 0} (Q : Reply → S → Type 0) (P : S → Type 0) (r : Run S Reply)
    → Safe Q r
    → Fed P r
    → Run.Ends Q (λ e s. e ≡ read_failed) r
Fed-Ends Q P (ok (size n) s) h k = h
Fed-Ends Q P (ok (error e) s) h k = h
Fed-Ends Q P (throw e s) h k = k
Fed-Ends Q P starved h k = k
Fed-Ends Q P fault h k = h
Fed-Ends Q P out_of_fuel h k = h

on_size-Fed :
    (P R : Protocol → Type 0) (r : Run Protocol Reply) (k : ℕ → Cmd Protocol Reply)
    → Fed P r
    → ((n : ℕ) (q : Protocol) → P q → Fed R (k n q))
    → Fed R (and_then r (λ a. on_size a k))
on_size-Fed P R (ok (size n) q) k h next = next n q h
on_size-Fed P R (ok (error e) q) k h next = tt
on_size-Fed P R (throw e s) k h next = h
on_size-Fed P R starved k h next = h
on_size-Fed P R fault k h next = tt
on_size-Fed P R out_of_fuel k h next = tt

-- What is delivered leaves everything but the buffer and the bytes that wait.
pub deliver-Fed :
    (P : Protocol → Type 0) (offset count : ℕ) (bs : Bytes) (p : Protocol)
    → ((a b : Bytes) → P (record p { in_buffer = a; pending = b }))
    → Fed P (deliver offset count bs p)
unfolding deliver
deliver-Fed P offset count bs p h =
    elim (Bool-cases (leb (offset + length (take count bs)) slave_buff_size)) [
      | inl fits ↦ rw fits (h _ _)
      | inr over ↦ rw over tt
    ]

abbrev pub Silent : Protocol → Type 0
Silent p = FallsSilent p.clock p.deadline p.tick p.rx

read_events-Fed :
    (es : List RxEvent) (offset count : ℕ) (p : Protocol)
    → FallsSilent p.clock p.deadline p.tick es
    → Fed Silent (read_events es offset count p)
unfolding read_events
read_events-Fed [] offset count p h = h
read_events-Fed (arrived bs ∷ es) offset count p h =
    deliver-Fed Silent offset count bs (record p { rx = es }) (λ a b. h)
read_events-Fed (interrupted ∷ es) offset count p h = read_events-Fed es offset count p h
read_events-Fed (no_data ∷ es) offset count p h =
    elim (Bool-cases (is_negative (to_ms (ts_sub p.deadline (p.clock p.tick))))) [
      | inl late ↦ rw late tt
      | inr early ↦
          rw early (elim h [ inl late ↦ cc | inr later ↦ read_events-Fed es offset count _ later ])
    ]
read_events-Fed (failed ∷ es) offset count p h = refl

read_pending-Fed :
    (bs : Bytes) (offset count : ℕ) (p : Protocol)
    → Silent p
    → Fed Silent (read_pending bs offset count p)
unfolding read_pending
read_pending-Fed [] offset count p h = read_events-Fed p.rx offset count p h
read_pending-Fed (b ∷ bs) offset count p h = deliver-Fed Silent offset count (b ∷ bs) p (λ x y. h)

read_some-Fed : (offset count : ℕ) (p : Protocol) → Silent p → Fed Silent (read_some offset count p)
unfolding read_some
read_some-Fed offset count p h = read_pending-Fed p.pending offset count p h

fill-Fed : (fuel limit offset : ℕ) (p : Protocol) → Silent p → Fed Silent (fill fuel limit offset p)
unfolding fill
fill-Fed zero limit offset p h = elim (Bool-cases (ltb offset limit)) [
  | inl more ↦ rw more tt
  | inr done ↦ rw done h
]
fill-Fed (suc fuel) limit offset p h = elim (Bool-cases (ltb offset limit)) [
  | inl more ↦ rw more (
      on_size-Fed Silent Silent (read_some offset (limit - offset) p) (fill fuel limit)
        (read_some-Fed offset (limit - offset) p h) (fill-Fed fuel limit))
  | inr done ↦ rw done h
]

readsoh_found-Fed :
    (o : Option ℕ) (n : ℕ) (again : Cmd Protocol Reply) (p : Protocol)
    → Silent p
    → Fed Silent (again p)
    → Fed Silent (readsoh_found o n again p)
unfolding readsoh_found
readsoh_found-Fed none n again p h next = next
readsoh_found-Fed (some i) n again p h next =
    fill-Fed (work p + 1) header_size (n - i) (shift_down i n p) h

pub readsoh_loop-Fed : (fuel : ℕ) (p : Protocol) → Silent p → Fed Silent (readsoh_loop fuel p)
unfolding readsoh_loop
readsoh_loop-Fed zero p h = tt
readsoh_loop-Fed (suc fuel) p h =
    let start : Protocol = record p { in_buffer = splice p.in_buffer 0 (0 ∷ 0 ∷ 0 ∷ 0 ∷ 0 ∷ []) } in
    on_size-Fed Silent Silent (read_some 0 header_size start)
      (λ n q. readsoh_found (find_soh (take n q.in_buffer)) n (readsoh_loop fuel) q)
      (read_some-Fed 0 header_size start h)
      (λ n q w.
        readsoh_found-Fed (find_soh (take n q.in_buffer)) n (readsoh_loop fuel) q w
          (readsoh_loop-Fed fuel q w))

compared :
    (b : Bool) (x y : Reply) (q : Protocol) → Silent q → Fed Silent (if b then ok x q else ok y q)
compared true (size n) y q h = h
compared true (error e) y q h = tt
compared false x (size n) q h = h
compared false x (error e) q h = tt

flyby_end-Fed :
    (by_crc : Bool) (acc : ℕ) (p : Protocol) → Silent p → Fed Silent (flyby_end by_crc acc p)
unfolding flyby_end
flyby_end-Fed true acc p h =
    on_size-Fed Silent Silent (fill (work p + 1) 2 0 p) _ (fill-Fed (work p + 1) 2 0 p h)
      (λ n q w. compared _ _ _ q w)
flyby_end-Fed false acc p h =
    on_size-Fed Silent Silent (read_some 0 1 p) _ (read_some-Fed 0 1 p h)
      (λ n q w. compared _ _ _ q w)

flyby_loop-Fed :
    (fuel : ℕ) (by_crc : Bool) (acc passed total : ℕ) (p : Protocol)
    → Silent p
    → Fed Silent (flyby_loop fuel by_crc acc passed total p)
unfolding flyby_loop
flyby_loop-Fed zero by_crc acc passed total p h = elim (Bool-cases (ltb passed total)) [
  | inl more ↦ rw more tt
  | inr done ↦ rw done (flyby_end-Fed by_crc acc p h)
]
flyby_loop-Fed (suc fuel) by_crc acc passed total p h =
    let count = if ltb slave_buff_size (total - passed) then slave_buff_size else total - passed in
    elim (Bool-cases (ltb passed total)) [
      | inl more ↦ rw more (
          on_size-Fed Silent Silent (read_some 0 count p)
            (λ n q.
              flyby_loop fuel by_crc (running by_crc acc (take n q.in_buffer)) (passed + n) total q)
            (read_some-Fed 0 count p h)
            (λ n q w. flyby_loop-Fed fuel by_crc _ (passed + n) total q w))
      | inr done ↦ rw done (flyby_end-Fed by_crc acc p h)
    ]

fly_past-Fed : (n : ℕ) (p : Protocol) → Silent p → Fed Silent (fly_past n p)
unfolding fly_past
fly_past-Fed n p h = flyby_loop-Fed (work p + 1) _ _ n _ p h

readeof_loop-Fed :
    (fuel total offset : ℕ) (p : Protocol)
    → Silent p
    → Fed Silent (readeof_loop fuel total offset p)
unfolding readeof_loop
readeof_loop-Fed zero total offset p h = tt
readeof_loop-Fed (suc fuel) total offset p h =
    on_size-Fed Silent Silent (read_some offset (total - offset) p)
      (λ n q. let more = readeof_loop fuel total n q in if leb total n then ok (size n) q else more)
      (read_some-Fed offset (total - offset) p h)
      (λ n q w. elim (Bool-cases (leb total n)) [
        | inl done ↦ rw done w
        | inr more ↦ rw more (readeof_loop-Fed fuel total n q w)
      ])

readeof-Fed : (n : ℕ) (p : Protocol) → Silent p → Fed Silent (readeof n p)
unfolding readeof
readeof-Fed n p h = elim (Bool-cases (leb (in_len p) 5)) [
  | inl short ↦ rw short tt
  | inr long ↦ elim (Bool-cases (ltb (slave_buff_size - n) (in_len p))) [
    | inl big ↦ rw (long, big) tt
    | inr fits ↦ rw (long, fits) (readeof_loop-Fed (work p + 1) (in_len p) n p h)
  ]
]

verified : (r : Reply) (q : Protocol) → Silent q → Fed Silent (ok r q)
verified (size n) q h = h
verified (error e) q h = tt

pub read_body-Fed : (n : ℕ) (p : Protocol) → Silent p → Fed Silent (read_body n p)
unfolding read_body
read_body-Fed n p h = elim (Bool-cases (passes_by p)) [
  | inl passing ↦ rw passing (fly_past-Fed n p h)
  | inr mine ↦ rw mine (
      on_size-Fed Silent Silent (readeof n p) (λ m q. ok (verify m q) q) (readeof-Fed n p h)
        (λ m q w. verified (verify m q) q w))
]
