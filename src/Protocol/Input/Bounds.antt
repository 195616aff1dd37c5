-- ===== src/Protocol/Input/Bounds.antt =====
-- The reads of the receiving side on any script of the port: within the buffer, and with less work left.
use osdpmaster.Prelude.{
  ℕ, zero, suc, ◌+◌, ◌-◌, ◌≤◌, ◌<◌, ◌≡◌, List, [], ◌∷◌, ◌++◌, inl, inr, arith, is_negative, ltb,
  Bool-cases, take, drop, length, Bytes, length-append, length-take, length-drop,
}
use osdpmaster.Run.{Run, Cmd, ok, throw, starved, fault, out_of_fuel, and_then, Safe}
use osdpmaster.Timespec.{ts_sub, to_ms}
use osdpmaster.Protocol.{
  Protocol, Reply, ProtoError, size, error, RxEvent, arrived, interrupted, no_data, failed,
  slave_buff_size, splice,
}
use osdpmaster.Protocol.Input.{
  deliver, read_events, read_pending, read_some, work_events, work, fill, on_size,
}

pub length-splice :
    (buf : Bytes) (i : ℕ) (bs : Bytes)
    → i + length bs ≤ length buf
    → length (splice buf i bs) ≡ length buf
length-splice buf i bs h = omega (
  arith,
  length-append (take i buf) (bs ++ drop (i + length bs) buf),
  length-append bs (drop (i + length bs) buf),
  length-take i buf,
  length-drop (i + length bs) buf,
)

-- The receive buffer keeps its size.
abbrev pub HasBuffer : Protocol → Type 0
HasBuffer p = length p.in_buffer ≡ slave_buff_size

-- A reply that is a size lies within what was asked for, and less work is left than `w`.
abbrev pub Progress : ℕ → ℕ → ℕ → Reply → Protocol → Type 0
Progress w offset count (size n) q = (offset ≤ n) × (n ≤ offset + count) × (work q < w)
Progress w offset count (error e) q = Unit {0}

abbrev pub Reads : ℕ → ℕ → ℕ → Reply → Protocol → Type 0
Reads w offset count r q = HasBuffer q × Progress w offset count r q

deliver-Safe :
    (w offset count : ℕ) (bs : Bytes) (p : Protocol)
    → HasBuffer p
    → offset + count ≤ slave_buff_size
    → length (drop count bs) + work_events p.rx < w
    → Safe (Reads w offset count) (deliver offset count bs p)
unfolding deliver work
deliver-Safe w offset count bs p buf room less =
    ground (arith, length-take count bs, length-splice p.in_buffer offset (take count bs))

read_events-Safe :
    (es : List RxEvent) (w offset count : ℕ) (p : Protocol)
    → HasBuffer p
    → offset + count ≤ slave_buff_size
    → work_events es ≤ w
    → Safe (Reads w offset count) (read_events es offset count p)
unfolding read_events work_events
read_events-Safe [] w offset count p buf room less = tt
read_events-Safe (arrived bs ∷ es) w offset count p buf room less =
    deliver-Safe w offset count bs (record p { rx = es }) buf room
      (omega (arith, length-drop count bs))
read_events-Safe (interrupted ∷ es) w offset count p buf room less =
    read_events-Safe es w offset count p buf room (omega arith)
read_events-Safe (no_data ∷ es) w offset count p buf room less =
    let itime = to_ms (ts_sub p.deadline (p.clock p.tick)) in
    elim (Bool-cases (is_negative itime)) [
      | inl late ↦ rw late (buf, tt)
      | inr early ↦ rw early (read_events-Safe es w offset count _ buf room (omega arith))
    ]
read_events-Safe (failed ∷ es) w offset count p buf room less = tt

read_pending-Safe :
    (bs : Bytes) (offset count : ℕ) (p : Protocol)
    → HasBuffer p
    → offset + count ≤ slave_buff_size
    → 0 < count
    → Safe (Reads (length bs + work_events p.rx) offset count) (read_pending bs offset count p)
unfolding read_pending
read_pending-Safe [] offset count p buf room pos =
    read_events-Safe p.rx _ offset count p buf room (omega arith)
read_pending-Safe (b ∷ bs) offset count p buf room pos =
    deliver-Safe _ offset count (b ∷ bs) p buf room (omega (arith, length-drop count (b ∷ bs)))

pub read_some-Safe :
    (offset count : ℕ) (p : Protocol)
    → HasBuffer p
    → offset + count ≤ slave_buff_size
    → 0 < count
    → Safe (Reads (work p) offset count) (read_some offset count p)
unfolding read_some work
read_some-Safe offset count p buf room pos = read_pending-Safe p.pending offset count p buf room pos

-- A loop's reply: a size within bounds, or an error.
abbrev pub Ends : ℕ → ℕ → Reply → Protocol → Type 0
Ends lo hi (size n) q = HasBuffer q × (lo ≤ n) × (n ≤ hi)
Ends lo hi (error e) q = HasBuffer q

-- A loop's body after a read: it goes on with a size, and ends with an error.
pub Safe-on_size :
    (Q R : Reply → Protocol → Type 0) (r : Run Protocol Reply) (k : ℕ → Cmd Protocol Reply)
    → Safe Q r
    → ((n : ℕ) (q : Protocol) → Q (size n) q → Safe R (k n q))
    → ((e : ProtoError) (q : Protocol) → Q (error e) q → R (error e) q)
    → Safe R (and_then r (λ a. on_size a k))
Safe-on_size Q R (ok (size n) q) k h next stop = next n q h
Safe-on_size Q R (ok (error e) q) k h next stop = stop e q h
Safe-on_size Q R (throw e s) k h next stop = tt
Safe-on_size Q R starved k h next stop = tt
Safe-on_size Q R fault k h next stop = h
Safe-on_size Q R out_of_fuel k h next stop = h

pub fill-Safe :
    (fuel limit offset : ℕ) (p : Protocol)
    → HasBuffer p
    → offset ≤ limit
    → limit ≤ slave_buff_size
    → work p < fuel
    → Safe (Ends limit limit) (fill fuel limit offset p)
unfolding fill
fill-Safe zero limit offset p buf le room enough = absurd (omega arith)
fill-Safe (suc fuel) limit offset p buf le room enough = elim (Bool-cases (ltb offset limit)) [
  | inl more ↦ rw more (
      Safe-on_size (Reads (work p) offset (limit - offset)) (Ends limit limit) _ (fill fuel limit)
        (read_some-Safe offset (limit - offset) p buf (ground arith) (ground arith))
        (λ n q h. fill-Safe fuel limit n q h.0 (ground arith) room (omega arith)) (λ e q h. h.0))
  | inr done ↦ rw done (buf, ground arith, ground arith)
]
