-- ===== src/Protocol/Input/Timeout.antt =====
-- `read_some` and `readcook` when nothing comes: the wait ends by the deadline.
use osdpmaster.Prelude.{
  ℕ, zero, suc, ◌+◌, ◌*◌, ◌/◌, ◌≤◌, ◌<◌, ◌≡◌, refl, ◌∙◌, true, false, List, [], ◌∷◌, ◌++◌, arith,
  ltb, is_negative, replicate,
}
use osdpmaster.Run.{ok}
use osdpmaster.Timespec.{Timespec, IsNormal, ts_sub, to_ms}
use osdpmaster.Timespec.Order.{nanos, to_ms-ts_sub}
use osdpmaster.Protocol.{
  Protocol, error, timeout, RxEvent, no_data, header_size, splice, clock_gettime, polled,
}
use osdpmaster.Protocol.Input.{
  read_events, read_pending, read_some, readcook, readsoh, readsoh_loop, deadline_after, poll_timer,
  work,
}
use osdpmaster.Protocol.Input.Safe.{readstamp_lem}
use osdpmaster.Protocol.Input.Reads.{IsEarly}

-- The deadline that `readcook` sets lies `micros` microseconds after a normal reading of the clock, and
-- is a normal time.
pub deadline_after-nanos :
    (micros : ℕ) (now : Timespec)
    → IsNormal now
    → (nanos (deadline_after 1000000 micros now) ≡ nanos now + micros * 1000)
      × IsNormal (deadline_after 1000000 micros now)
unfolding deadline_after
deadline_after-nanos micros now h = ground arith

-- The deadline of `waitidle` divides by 100000 for the microseconds of a second: it lies nine tenths of
-- a second too late for each 100000 microseconds of idle time.
pub waitidle-nanos :
    (micros : ℕ) (now : Timespec)
    → nanos (deadline_after 100000 micros now)
      ≡ nanos now + micros * 1000 + micros / 100000 * 900000000
unfolding deadline_after
waitidle-nanos micros now = ground arith

-- A read gives up at a reading exactly if that comes after the deadline.
pub late_iff_after :
    (d t : Timespec)
    → IsNormal d
    → IsNormal t
    → is_negative (to_ms (ts_sub d t)) ≡ ltb (nanos d) (nanos t)
late_iff_after d t hd ht = rw (to_ms-ts_sub d t hd ht) (ground arith)

-- No data at `k` polls before the deadline and at one after it.
module _ (d : Timespec) (es : List RxEvent) (offset count : ℕ) where
  read_events_timeout :
      (k : ℕ) (p : Protocol)
      → p.deadline ≡ d
      → ((n : ℕ) → n < k → IsEarly d (p.clock (p.tick + n)))
      → is_negative (to_ms (ts_sub d (p.clock (p.tick + k)))) ≡ true
      → (q : Protocol) × (read_events (replicate k no_data ++ (no_data ∷ es)) offset count p
          ≡ ok (error timeout) q)
        × (q.in_buffer ≡ p.in_buffer)
        × (q.rx ≡ es)
        × (q.tick ≡ p.tick + k + 1)
  unfolding read_events
  read_events_timeout zero p e before late =
      let z : p.tick + 0 ≡ p.tick = omega arith in
      let now : is_negative (to_ms (ts_sub p.deadline (p.clock p.tick))) ≡ true =
        rw (e, ← z) late in
      rw now (_, refl, refl, refl, omega arith)
  read_events_timeout (suc k) p e before late =
      let z : p.tick + 0 ≡ p.tick = omega arith in
      let now : is_negative (to_ms (ts_sub p.deadline (p.clock p.tick))) ≡ false =
        rw (e, ← z) (before 0 (omega arith)) in
      let next : Protocol = record p {
        tick = p.tick + 1;
        waits = p.waits ++ polled (poll_timer (to_ms (ts_sub p.deadline (p.clock p.tick)))) ∷ [];
      } in
      let (q, r, same, left, ticked) =
        read_events_timeout k next e
          (λ n lt.
            let s : p.tick + 1 + n ≡ p.tick + suc n = omega arith in
            rw s (before (suc n) (omega arith)))
          (let s : p.tick + 1 + k ≡ p.tick + suc k = omega arith in rw s late) in
      rw now (q, r, same, left, omega arith)

-- Nothing is left over and nothing arrives on the line, and the clock, whose readings are normal, passes
-- the start of `readcook` by more than the timeout (in microseconds) at the reading behind `k` others.
-- Then `readcook` returns the timeout error at that reading; it has put nothing but the cleared header
-- into the buffer and asked the port for nothing more.
pub readcook_timeout :
    (p : Protocol) (k : ℕ) (es : List RxEvent)
    → p.pending ≡ []
    → p.rx ≡ replicate k no_data ++ (no_data ∷ es)
    → ((n : ℕ) → IsNormal (p.clock n))
    → ((n : ℕ)
        → n < k
        → nanos (p.clock (p.tick + 1 + n)) ≤ nanos (p.clock p.tick) + p.config.timeout * 1000)
    → nanos (p.clock p.tick) + p.config.timeout * 1000 < nanos (p.clock (p.tick + 1 + k))
    → (q : Protocol) × (readcook p ≡ ok (error timeout) q)
      × (q.in_buffer ≡ splice p.in_buffer 0 (0 ∷ 0 ∷ 0 ∷ 0 ∷ 0 ∷ []))
      × (q.rx ≡ es)
unfolding readcook clock_gettime readsoh readsoh_loop
readcook_timeout p k es empty script normal before after =
    let (q, r, same, left, _) = read in
    let (stamp, stamped) = readstamp_lem q in
    let fuel : work begun + 1 ≡ suc (work begun) = omega arith in
    rw fuel (rw (first, r, stamped) (_, refl, same, left))
  where
    d : Timespec
    d = deadline_after 1000000 p.config.timeout (p.clock p.tick)

    begun : Protocol
    begun = record p { tick = p.tick + 1; deadline = d }

    start : Protocol
    start = record begun { in_buffer = splice p.in_buffer 0 (0 ∷ 0 ∷ 0 ∷ 0 ∷ 0 ∷ []) }

    first :
        read_some 0 header_size start
        ≡ read_events (replicate k no_data ++ (no_data ∷ es)) 0 header_size start
    first = unfold read_some read_pending in rw (empty, script)

    due : (nanos d ≡ nanos (p.clock p.tick) + p.config.timeout * 1000) × IsNormal d
    due = deadline_after-nanos p.config.timeout (p.clock p.tick) (normal p.tick)

    read :
        (q : Protocol) × (read_events (replicate k no_data ++ (no_data ∷ es)) 0 header_size start
          ≡ ok (error timeout) q)
        × (q.in_buffer ≡ start.in_buffer)
        × (q.rx ≡ es)
        × (q.tick ≡ start.tick + k + 1)
    read =
        read_events_timeout d es 0 header_size k start refl
          (λ n lt.
            late_iff_after d (p.clock (p.tick + 1 + n)) due.1 (normal (p.tick + 1 + n))
            ∙ ground (arith, before n lt, due.0))
          (late_iff_after d (p.clock (p.tick + 1 + k)) due.1 (normal (p.tick + 1 + k))
            ∙ ground (arith, due.0))
