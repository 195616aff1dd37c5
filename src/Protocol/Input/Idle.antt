-- ===== src/Protocol/Input/Idle.antt =====
-- What `waitidle` leaves behind where it returns, whatever comes over the line.
use osdpmaster.Prelude.{
  ℕ, zero, suc, ◌+◌, ◌≤◌, ◌<◌, ◌≡◌, refl, List, [], ◌∷◌, arith, Bool-cases, inl, inr, is_negative,
  Bytes, take, leb, length, true, ap, length-take,
}
use osdpmaster.Run.{Run, ok, Safe, Safe-and_then, Safe-both}
use osdpmaster.Timespec.{ts_sub, to_ms}
use osdpmaster.Protocol.{
  Protocol, Reply, size, error, timeout, RxEvent, arrived, interrupted, no_data, failed,
  clock_gettime, slave_buff_size,
}
use osdpmaster.Protocol.Input.{
  deliver, read_events, read_pending, read_some, work, waitidle_loop, waitidle, deadline_after,
}
use osdpmaster.Protocol.Input.Bounds.{HasBuffer, Reads, read_some-Safe}

-- An error of a read is the timeout, and then no received byte is left over.
abbrev pub IsSilent : Reply → Protocol → Type 0
IsSilent (size n) q = Unit {0}
IsSilent (error e) q = (e ≡ timeout) × (q.pending ≡ [])

deliver-IsSilent :
    (offset count : ℕ) (bs : Bytes) (p : Protocol)
    → offset + count ≤ slave_buff_size
    → Safe IsSilent (deliver offset count bs p)
unfolding deliver
deliver-IsSilent offset count bs p room =
    let fits : leb (offset + length (take count bs)) slave_buff_size ≡ true =
      ground (arith, length-take count bs) in
    rw fits tt

read_events-IsSilent :
    (es : List RxEvent) (offset count : ℕ) (p : Protocol)
    → offset + count ≤ slave_buff_size
    → p.pending ≡ []
    → Safe IsSilent (read_events es offset count p)
unfolding read_events
read_events-IsSilent [] offset count p room none_left = tt
read_events-IsSilent (arrived bs ∷ es) offset count p room none_left =
    deliver-IsSilent offset count bs _ room
read_events-IsSilent (interrupted ∷ es) offset count p room none_left =
    read_events-IsSilent es offset count p room none_left
read_events-IsSilent (no_data ∷ es) offset count p room none_left =
    elim (Bool-cases (is_negative (to_ms (ts_sub p.deadline (p.clock p.tick))))) [
      | inl late ↦ rw late (refl, none_left)
      | inr early ↦ rw early (read_events-IsSilent es offset count _ room none_left)
    ]
read_events-IsSilent (failed ∷ es) offset count p room none_left = tt

read_some-IsSilent :
    (bs : Bytes) (offset count : ℕ) (p : Protocol)
    → p.pending ≡ bs
    → offset + count ≤ slave_buff_size
    → Safe IsSilent (read_pending bs offset count p)
unfolding read_pending
read_some-IsSilent [] offset count p left room = read_events-IsSilent p.rx offset count p room left
read_some-IsSilent (b ∷ bs) offset count p left room = deliver-IsSilent offset count (b ∷ bs) p room

-- The timeout has come with nothing left over, and the buffer has its size.
abbrev pub Idle : Reply → Protocol → Type 0
Idle r q = (r ≡ error timeout) × (q.pending ≡ []) × HasBuffer q

-- A round behind its read, with what holds of the next one.
go_on_waiting :
    (fuel w : ℕ) (r : Reply) (q : Protocol)
    → w ≤ fuel
    → ((n : Protocol) → HasBuffer n → work n < fuel → Safe Idle (waitidle_loop fuel n))
    → Reads w 0 4 r q × IsSilent r q
    → Safe Idle (elim r as (λ x. Run Protocol Reply) [
      | size n ↦ waitidle_loop fuel q
      | error e ↦ ok (error e) q
    ])
go_on_waiting fuel w (size n) q le again h = again q h.0.0 (omega arith)
go_on_waiting fuel w (error e) q le again h = (ap error h.1.0, h.1.1, h.0.0)

waitidle_loop-Idle :
    (fuel : ℕ) (p : Protocol) → HasBuffer p → work p < fuel → Safe Idle (waitidle_loop fuel p)
unfolding waitidle_loop clock_gettime
waitidle_loop-Idle zero p buf enough = absurd (omega arith)
waitidle_loop-Idle (suc fuel) p buf enough =
    let start : Protocol = record p {
      tick = p.tick + 1;
      deadline = deadline_after 100000 p.config.idle (p.clock p.tick);
    } in
    let same : work start ≡ work p = unfold work in refl in
    Safe-and_then (λ r q. Reads (work start) 0 4 r q × IsSilent r q) Idle (read_some 0 4 start) _
      (Safe-both (Reads (work start) 0 4) IsSilent (read_some 0 4 start)
        (read_some-Safe 0 4 start buf (omega arith) (omega arith))
        (unfold read_some in read_some-IsSilent start.pending 0 4 start refl (omega arith)))
      (λ r q h. go_on_waiting fuel (work start) r q (omega arith) (waitidle_loop-Idle fuel) h)

-- Whatever the port brings and whenever the clock is read, the loop of `waitidle` takes fewer rounds than
-- there are events and bytes to come. Where it returns, it does so with the timeout, when a poll has found
-- no data behind the deadline, and no received byte is left over; the bytes that it drops stay within the
-- receive buffer.
pub waitidle-Idle : (p : Protocol) → HasBuffer p → Safe Idle (waitidle p)
unfolding waitidle
waitidle-Idle p buf = waitidle_loop-Idle (work p + 1) p buf (omega arith)
