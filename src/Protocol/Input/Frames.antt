-- ===== src/Protocol/Input/Frames.antt =====
-- `readcook` on a line that is alive and brings one whole message with a CRC.
use osdpmaster.Prelude.{
  ℕ, ◌+◌, ◌-◌, ◌*◌, ◌≤◌, ◌<◌, ◌≡◌, refl, sym, ap, ap₂, ◌∙◌, true, false, [], ◌∷◌, ◌++◌, not, ◌&&◌,
  arith, ltb, leb, ◌==◌, if◌then◌else◌, take, length, get_or, Bytes, length-append, take-append,
  take-take, get_or-take, get_or-append, get_or-behind, append_assoc, bit_or,
}
use osdpmaster.Run.{Run, ok}
use osdpmaster.Timespec.{Timespec}
use osdpmaster.Crc.{crc16_prepare, crc16_add}
use osdpmaster.Protocol.{Protocol, Reply, size, error, crc, slave_buff_size, ch_soh, clock_gettime}
use osdpmaster.Protocol.Input.{
  work, readeof, readeof_loop, read_body, verify, readcook, deadline_after, has_crc, in_len,
  passes_by,
}
use osdpmaster.Protocol.Input.Bounds.{HasBuffer}
use osdpmaster.Protocol.Input.Safe.{readstamp_lem}
use osdpmaster.Protocol.Input.Reads.{IsEarly, IsAlive, IsReady, stream_events}
use osdpmaster.Protocol.Input.Loops.{Filled, readeof_loop-Filled}
use osdpmaster.Protocol.Input.Soh.{IsQuiet, readsoh-Filled}

-- A byte of the buffer within a front that is known.
pub front_byte :
    (n i : ℕ) (buf front : Bytes) → take n buf ≡ front → i < n → get_or buf i 0 ≡ get_or front i 0
front_byte n i buf front e lt = sym (get_or-take n buf i 0 lt) ∙ ap (λ b. get_or b i 0) e

-- What the check says of a message with a CRC, from its bytes.
abbrev pub judged : Bytes → ℕ → ℕ → Reply
judged front lo hi =
    if bit_or lo (hi * 256) == crc16_add crc16_prepare front then size (length front) else error crc

verify-judged :
    (front : Bytes) (lo hi n : ℕ) (q : Protocol)
    → take n q.in_buffer ≡ front ++ (lo ∷ hi ∷ [])
    → n ≡ length front + 2
    → 5 ≤ length front
    → has_crc (get_or front 4 0) ≡ true
    → verify n q ≡ judged front lo hi
unfolding verify
verify-judged front lo hi n q held len long flag =
    let m = front ++ (lo ∷ hi ∷ []) in
    let ctrl : get_or q.in_buffer 4 0 ≡ get_or front 4 0 =
      front_byte n 4 q.in_buffer m held (omega arith)
      ∙ get_or-append front (lo ∷ hi ∷ []) 4 0 (omega arith) in
    let low : get_or q.in_buffer (n - 2) 0 ≡ lo =
      front_byte n (n - 2) q.in_buffer m held (omega arith)
      ∙ get_or-behind front (lo ∷ hi ∷ []) (n - 2) 0 0 (omega arith) in
    let high : get_or q.in_buffer (n - 2 + 1) 0 ≡ hi =
      front_byte n (n - 2 + 1) q.in_buffer m held (omega arith)
      ∙ get_or-behind front (lo ∷ hi ∷ []) (n - 2 + 1) 1 0 (omega arith) in
    let body : take (n - 2) q.in_buffer ≡ front =
      sym (take-take (n - 2) n q.in_buffer (omega arith))
      ∙ ap (take (n - 2)) held
      ∙ take-append (n - 2) front (lo ∷ hi ∷ []) (omega arith) in
    let e : n - 2 ≡ length front = omega arith in rw (ctrl, flag, low, high, body, e)

-- The whole of `readcook`: a message of `front` and the two bytes of its CRC is read whole, behind
-- whatever came before SOH, and judged.
pub record Heard (front : Bytes) (lo hi : ℕ) (rest : Bytes) (r : Run Protocol Reply) : Type 0 where
  pub after : Protocol
  pub returns : r ≡ ok (judged front lo hi) after
  pub unread : after.pending ++ stream_events after.rx ≡ rest
  pub held : take (length front + 2) after.in_buffer ≡ front ++ (lo ∷ hi ∷ [])

-- The message is for this device: it is a master, or the address is its own or a common one.
abbrev pub IsHeard : ℕ → ℕ → Type 0
IsHeard me addr =
    (not (me == 0xFF) && (not (addr == me) && (not (addr == 0x7D) && not (addr == 0x7F)))) ≡ false

module _ (a : ℕ) (c : ℕ → Timespec) (d : Timespec) (limit : ℕ)
    (early : (n : ℕ) → n < limit → IsEarly d (c n)) (addr l0 l1 ctrl : ℕ) (body : Bytes) (lo hi : ℕ)
    (rest : Bytes) (mine : IsHeard a addr) (flag : has_crc ctrl ≡ true)
    (len : bit_or l0 (l1 * 256) ≡ 5 + length body + 2) (room : length body ≤ 259) where
  abbrev header : Bytes
  header = ch_soh ∷ addr ∷ l0 ∷ l1 ∷ ctrl ∷ []

  abbrev front : Bytes
  front = ch_soh ∷ addr ∷ l0 ∷ l1 ∷ ctrl ∷ body

  -- What `read_body` returns behind a header.
  record Body (r : Run Protocol Reply) : Type 0 where
    after : Protocol
    returns : r ≡ ok (judged front lo hi) after
    ready : IsReady a c d limit rest after
    held : take (length front + 2) after.in_buffer ≡ front ++ (lo ∷ hi ∷ [])

  read_body-Body :
      (q : Protocol)
      → IsReady a c d limit ((body ++ (lo ∷ hi ∷ [])) ++ rest) q
      → take 5 q.in_buffer ≡ header
      → Body (read_body 5 q)
  unfolding read_body readeof
  read_body-Body q v h =
      rw (passing, len_eq)
        (rw (tests.0, tests.1, f.returns)
          (record {
            after = f.after;
            returns =
                ap (λ r. ok r f.after)
                  (verify-judged front lo hi (5 + length body + 2) f.after f.filled (omega arith)
                    (omega arith) flag);
            ready = f.ready;
            held = ap (λ n. take n f.after.in_buffer) (omega arith) ∙ f.filled;
          }))
    where
      passing : passes_by q ≡ false
      passing = rw (v.same_addr, front_byte 5 1 q.in_buffer _ h (omega arith)) mine

      len_eq : in_len q ≡ 5 + length body + 2
      len_eq =
          ap₂ (λ x y. bit_or x (y * 256)) (front_byte 5 2 q.in_buffer _ h (omega arith))
            (front_byte 5 3 q.in_buffer _ h (omega arith))
          ∙ len

      tests :
          (leb (5 + length body + 2) 5 ≡ false)
          × (ltb (slave_buff_size - 5) (5 + length body + 2) ≡ false)
      tests = (ground arith, ground arith)

      f :
          Filled a c d limit early
            (5 + length body + 2)
            (header ++ (body ++ (lo ∷ hi ∷ [])))
            rest
            (readeof_loop (work q + 1) (5 + length body + 2) 5 q)
      f =
          readeof_loop-Filled a c d limit early (work q + 1) (5 + length body + 2) 5 header
            (body ++ (lo ∷ hi ∷ [])) rest q v h (omega (arith, length-append body (lo ∷ hi ∷ [])))
            (omega (arith, length-append body (lo ∷ hi ∷ []))) (omega arith) (omega arith)

-- The state in which `readcook` begins to read, and the deadline that it sets.
abbrev pub read_deadline : Protocol → Timespec
read_deadline p = deadline_after 1000000 p.config.timeout (p.clock p.tick)

-- A line that is alive, brings `bs`, and is read before the deadline: every reading of the clock that
-- the script can ask for comes before it.
pub record Brings (bs : Bytes) (p : Protocol) : Type 0 where
  pub alive : IsAlive p.rx
  pub unread : p.pending ++ stream_events p.rx ≡ bs
  pub buffer : HasBuffer p
  pub in_time : (n : ℕ) → n < p.tick + 1 + work p → IsEarly (read_deadline p) (p.clock n)

pub work-deadline :
    (p : Protocol) (t : ℕ) (d : Timespec) → work (record p { tick = t; deadline = d }) ≡ work p
unfolding work
work-deadline p t d = refl

-- `readcook` on a line that brings in time, however they are cut into arrivals, noise without SOH, a
-- message with a CRC whose length field tells its length (at most 266 bytes) and that is meant for this
-- device, and more. It returns the size of the message without its CRC if the two last bytes are the
-- CRC of the others, and the CRC error otherwise. The buffer begins with the message, and what follows
-- it is left unread.
pub readcook-Heard :
    (p : Protocol) (junk : Bytes) (addr l0 l1 ctrl : ℕ) (body : Bytes) (lo hi : ℕ) (rest : Bytes)
    → Brings (junk ++ ((ch_soh ∷ addr ∷ l0 ∷ l1 ∷ ctrl ∷ body) ++ (lo ∷ hi ∷ rest))) p
    → IsQuiet junk
    → IsHeard p.my_addr addr
    → has_crc ctrl ≡ true
    → bit_or l0 (l1 * 256) ≡ 5 + length body + 2
    → length body ≤ 259
    → Heard (ch_soh ∷ addr ∷ l0 ∷ l1 ∷ ctrl ∷ body) lo hi rest (readcook p)
unfolding readcook clock_gettime
readcook-Heard p junk addr l0 l1 ctrl body lo hi rest v quiet mine flag len room =
    let five = ch_soh ∷ addr ∷ l0 ∷ l1 ∷ ctrl ∷ [] in
    let begun : Protocol = record p { tick = p.tick + 1; deadline = read_deadline p } in
    let limit = p.tick + 1 + work p in
    let tail = (body ++ (lo ∷ hi ∷ [])) ++ rest in
    let s =
      readsoh-Filled p.my_addr p.clock (read_deadline p) limit v.in_time junk
        (addr ∷ l0 ∷ l1 ∷ ctrl ∷ []) tail begun
        (record {
          same_addr = refl;
          same_clock = refl;
          same_deadline = refl;
          alive = v.alive;
          soon = omega (arith, work-deadline p (p.tick + 1) (read_deadline p));
          unread =
              v.unread
              ∙ ap (λ b. junk ++ (five ++ b)) (sym (append_assoc body (lo ∷ hi ∷ []) rest));
          buffer = v.buffer;
        })
        quiet refl in
    let b =
      read_body-Body p.my_addr p.clock (read_deadline p) limit v.in_time addr l0 l1 ctrl body lo hi
        rest mine flag len room s.after s.ready s.filled in
    let (stamp, stamped) = readstamp_lem b.after in
    rw (s.returns, b.returns, stamped)
      (record {
        after = record b.after { next_write = stamp; tick = b.after.tick + 1 };
        returns = refl;
        unread = b.ready.unread;
        held = b.held;
      })
