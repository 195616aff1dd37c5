-- ===== src/Protocol/Input/Reads.antt =====
-- `read_some` over a line on which bytes keep coming before the deadline: it takes a front of the
-- unread bytes, however they are cut into arrivals, and appends it to the buffer.
use osdpmaster.Prelude.{
  ℕ, ◌+◌, ◌≤◌, ◌<◌, ◌≡◌, refl, sym, ap, ◌∙◌, true, false, List, [], ◌∷◌, ◌++◌, arith, leb, take,
  drop, length, Bytes, length-append, length-take, length-drop, take-append, take-append-drop,
  append_assoc, is_negative,
}
use osdpmaster.Run.{Run, ok}
use osdpmaster.Timespec.{Timespec, ts_sub, to_ms}
use osdpmaster.Protocol.{
  Protocol, Reply, size, RxEvent, arrived, interrupted, no_data, failed, slave_buff_size, splice,
}
use osdpmaster.Protocol.Input.{deliver, read_events, read_pending, read_some, work_events, work}
use osdpmaster.Protocol.Input.Bounds.{HasBuffer, length-splice}

-- The bytes that a script brings.
abbrev pub stream_events : List RxEvent → Bytes
stream_events [] = []
stream_events (arrived bs ∷ es) = bs ++ stream_events es
stream_events (interrupted ∷ es) = stream_events es
stream_events (no_data ∷ es) = stream_events es
stream_events (failed ∷ es) = stream_events es

-- The line is not hung up and does not fail.
abbrev pub IsAlive : List RxEvent → Type 0
IsAlive [] = Unit {0}
IsAlive (arrived bs ∷ es) = (0 < length bs) × IsAlive es
IsAlive (interrupted ∷ es) = IsAlive es
IsAlive (no_data ∷ es) = IsAlive es
IsAlive (failed ∷ es) = ⊥

-- The deadline has not passed at a time.
abbrev pub IsEarly : Timespec → Timespec → Type 0
IsEarly deadline now = is_negative (to_ms (ts_sub deadline now)) ≡ false

-- A state with `bs` unread on a line that is alive, at a fixed address, clock and deadline. The
-- readings of the clock that its script can ask for lie below `limit`.
pub record IsReady (addr : ℕ) (clock : ℕ → Timespec) (deadline : Timespec) (limit : ℕ) (bs : Bytes)
    (p : Protocol) : Type 0 where
  pub same_addr : p.my_addr ≡ addr
  pub same_clock : p.clock ≡ clock
  pub same_deadline : p.deadline ≡ deadline
  pub alive : IsAlive p.rx
  pub soon : p.tick + work p ≤ limit
  pub unread : p.pending ++ stream_events p.rx ≡ bs
  pub buffer : HasBuffer p

-- The buffer's front after a splice.
pub take-splice :
    (buf : Bytes) (i : ℕ) (bs : Bytes)
    → i + length bs ≤ length buf
    → take (i + length bs) (splice buf i bs) ≡ take i buf ++ bs
take-splice buf i bs h =
    ap (take (i + length bs)) (sym (append_assoc (take i buf) bs (drop (i + length bs) buf)))
    ∙ take-append (i + length bs) (take i buf ++ bs) (drop (i + length bs) buf)
        (omega (arith, length-append (take i buf) bs, length-take i buf))

module _ (a : ℕ) (c : ℕ → Timespec) (d : Timespec) (limit : ℕ)
    (early : (n : ℕ) → n < limit → IsEarly d (c n)) where
  -- What a read of up to `count` bytes at `offset` does to a buffer `buf`, with `w` reads left.
  pub record Took (offset count : ℕ) (bs buf : Bytes) (w : ℕ) (r : Run Protocol Reply)
      : Type 0 where
    pub got : Bytes
    pub rest : Bytes
    pub after : Protocol
    pub returns : r ≡ ok (size (offset + length got)) after
    pub cut : bs ≡ got ++ rest
    pub some_got : 0 < length got
    pub not_more : length got ≤ count
    pub ready : IsReady a c d limit rest after
    pub front : take (offset + length got) after.in_buffer ≡ take offset buf ++ got
    pub less : work after < w

  module _ (offset count : ℕ) (room : offset + count ≤ slave_buff_size) (pos : 0 < count) where
    deliver-Took :
        (bs : Bytes) (p : Protocol) (w : ℕ)
        → p.my_addr ≡ a
        → p.clock ≡ c
        → p.deadline ≡ d
        → IsAlive p.rx
        → HasBuffer p
        → p.tick + (length bs + work_events p.rx) ≤ limit
        → 0 < length bs
        → length bs + work_events p.rx ≤ w
        → Took offset count (bs ++ stream_events p.rx) p.in_buffer w (deliver offset count bs p)
    unfolding deliver work
    deliver-Took bs p w ea ec ed alive buf soon some before =
        let got = take count bs in
        let fits : offset + length got ≤ slave_buff_size = omega (arith, length-take count bs) in
        let test : leb (offset + length got) slave_buff_size ≡ true = ground arith in
        record {
          got = got;
          rest = drop count bs ++ stream_events p.rx;
          after = record p { in_buffer = splice p.in_buffer offset got; pending = drop count bs };
          returns = rw test;
          cut =
              ap (λ t. t ++ stream_events p.rx) (sym (take-append-drop count bs))
              ∙ append_assoc got (drop count bs) (stream_events p.rx);
          some_got = omega (arith, length-take count bs);
          not_more = omega (arith, length-take count bs);
          ready = record {
            same_addr = ea;
            same_clock = ec;
            same_deadline = ed;
            alive = alive;
            soon = omega (arith, length-drop count bs);
            unread = refl;
            buffer = length-splice p.in_buffer offset got (omega arith) ∙ buf;
          };
          front = take-splice p.in_buffer offset got (omega arith);
          less = omega (arith, length-drop count bs);
        }

    read_events-Took :
        (es : List RxEvent) (p : Protocol) (w : ℕ)
        → p.my_addr ≡ a
        → p.clock ≡ c
        → p.deadline ≡ d
        → IsAlive es
        → HasBuffer p
        → p.tick + work_events es ≤ limit
        → 0 < length (stream_events es)
        → work_events es ≤ w
        → Took offset count (stream_events es) p.in_buffer w (read_events es offset count p)
    unfolding read_events work_events
    read_events-Took [] p w ea ec ed alive buf soon some before = absurd (omega arith)
    read_events-Took (arrived bs ∷ es) p w ea ec ed alive buf soon some before =
        deliver-Took bs (record p { rx = es }) w ea ec ed alive.1 buf (omega arith) alive.0
          (omega arith)
    read_events-Took (interrupted ∷ es) p w ea ec ed alive buf soon some before =
        read_events-Took es p w ea ec ed alive buf (omega arith) some (omega arith)
    read_events-Took (no_data ∷ es) p w ea ec ed alive buf soon some before =
        let in_time : is_negative (to_ms (ts_sub p.deadline (p.clock p.tick))) ≡ false =
          rw (ed, ec) (early p.tick (omega arith)) in
        rw in_time (read_events-Took es _ w ea ec ed alive buf (omega arith) some (omega arith))
    read_events-Took (failed ∷ es) p w ea ec ed alive buf soon some before = absurd alive

    read_pending-Took :
        (bs : Bytes) (p : Protocol)
        → p.my_addr ≡ a
        → p.clock ≡ c
        → p.deadline ≡ d
        → IsAlive p.rx
        → HasBuffer p
        → p.tick + (length bs + work_events p.rx) ≤ limit
        → 0 < length (bs ++ stream_events p.rx)
        → Took offset count
            (bs ++ stream_events p.rx)
            p.in_buffer
            (length bs + work_events p.rx)
            (read_pending bs offset count p)
    unfolding read_pending
    read_pending-Took [] p ea ec ed alive buf soon some =
        read_events-Took p.rx p _ ea ec ed alive buf (omega arith) some (omega arith)
    read_pending-Took (b ∷ bs) p ea ec ed alive buf soon some =
        deliver-Took (b ∷ bs) p _ ea ec ed alive buf soon (omega arith) (omega arith)

    pub read_some-Took :
        {bs : Bytes} (p : Protocol)
        → IsReady a c d limit bs p
        → 0 < length bs
        → Took offset count bs p.in_buffer (work p) (read_some offset count p)
    unfolding read_some work
    read_some-Took {bs} p v some = rw (← v.unread) (
        read_pending-Took p.pending p v.same_addr v.same_clock v.same_deadline v.alive v.buffer
          v.soon (rw v.unread some))
