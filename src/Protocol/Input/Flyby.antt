-- ===== src/Protocol/Input/Flyby.antt =====
-- `flyby`: a message for another device is read past, however long it is, and its CRC is compared.
use osdpmaster.Prelude.{
  ℕ, zero, suc, ◌+◌, ◌-◌, ◌*◌, ◌<◌, ◌≡◌, refl, sym, ap, ap₂, ◌∙◌, true, false, [], ◌∷◌, ◌++◌, not,
  ◌&&◌, arith, ltb, ◌==◌, if◌then◌else◌, take, length, get_or, Bytes, length-append, cut_twice,
  bit_or, Bool-cases, inl, inr,
}
use osdpmaster.Run.{Run, ok}
use osdpmaster.Timespec.{Timespec}
use osdpmaster.Crc.{crc16_prepare, crc16_add, crc16_digest, crc16_add-append}
use osdpmaster.Protocol.{Protocol, Reply, error, crc, flyby, slave_buff_size, ch_soh, clock_gettime}
use osdpmaster.Protocol.Input.{
  work, flyby_end, flyby_loop, fly_past, read_body, readcook, has_crc, in_len, passes_by,
}
use osdpmaster.Protocol.Input.Safe.{readstamp_lem}
use osdpmaster.Protocol.Input.Reads.{IsEarly, IsReady, read_some-Took, stream_events}
use osdpmaster.Protocol.Input.Loops.{fill-Filled}
use osdpmaster.Protocol.Input.Soh.{IsQuiet, readsoh-Filled}
use osdpmaster.Protocol.Input.Frames.{front_byte, Brings, read_deadline, work-deadline}

-- The message is for another device: this one is no master, and the address is not its own or a common one.
abbrev pub IsForeign : ℕ → ℕ → Type 0
IsForeign me addr =
    (not (me == 0xFF) && (not (addr == me) && (not (addr == 0x7D) && not (addr == 0x7F)))) ≡ true

-- What `flyby` says of a message with a CRC: it has passed, or it is damaged.
abbrev verdict : ℕ → ℕ → ℕ → Reply
verdict acc lo hi = if crc16_digest acc == bit_or lo (hi * 256) then error flyby else error crc

abbrev pub passed : Bytes → ℕ → ℕ → Reply
passed front lo hi = verdict (crc16_add crc16_prepare front) lo hi

module _ (a : ℕ) (c : ℕ → Timespec) (d : Timespec) (limit : ℕ)
    (early : (n : ℕ) → n < limit → IsEarly d (c n)) where
  -- A run that returns `reply` with `rest` unread.
  record Flown (reply : Reply) (rest : Bytes) (r : Run Protocol Reply) : Type 0 where
    pub after : Protocol
    pub returns : r ≡ ok reply after
    pub ready : IsReady a c d limit rest after

  Flown-same :
      (acc acc' lo hi : ℕ) (ys : Bytes) (r : Run Protocol Reply)
      → acc ≡ acc'
      → Flown (verdict acc lo hi) ys r
      → Flown (verdict acc' lo hi) ys r
  Flown-same acc acc' lo hi ys r e f = record {
    after = f.after;
    returns = f.returns ∙ ap (λ x. ok (verdict x lo hi) f.after) e;
    ready = f.ready;
  }

  flyby_end-Flown :
      (acc lo hi : ℕ) (ys : Bytes) (p : Protocol)
      → IsReady a c d limit (lo ∷ hi ∷ ys) p
      → Flown (verdict acc lo hi) ys (flyby_end true acc p)
  unfolding flyby_end
  flyby_end-Flown acc lo hi ys p v =
      let f =
        fill-Filled a c d limit early (work p + 1) 2 0 [] (lo ∷ hi ∷ []) ys p v refl (omega arith)
          (omega arith) (omega arith) in
      let low : get_or f.after.in_buffer 0 0 ≡ lo =
        front_byte 2 0 f.after.in_buffer (lo ∷ hi ∷ []) f.filled (omega arith) in
      let high : get_or f.after.in_buffer 1 0 ≡ hi =
        front_byte 2 1 f.after.in_buffer (lo ∷ hi ∷ []) f.filled (omega arith) in
      rw (f.returns, low, high)
        (elim (Bool-cases (crc16_digest acc == bit_or lo (hi * 256))) [
          | inl good ↦ rw good (record { after = f.after; returns = refl; ready = f.ready })
          | inr bad ↦ rw bad (record { after = f.after; returns = refl; ready = f.ready })
        ])

  flyby_loop-Flown :
      (fuel acc gone total lo hi : ℕ) (xs ys : Bytes) (p : Protocol)
      → IsReady a c d limit (xs ++ (lo ∷ hi ∷ ys)) p
      → gone + length xs ≡ total
      → work p < fuel
      → Flown (verdict (crc16_add acc xs) lo hi) ys (flyby_loop fuel true acc gone total p)
  unfolding flyby_loop
  flyby_loop-Flown zero acc gone total lo hi xs ys p v len enough = absurd (omega arith)
  flyby_loop-Flown (suc fuel) acc gone total lo hi [] ys p v len enough =
      let done : ltb gone total ≡ false = ground arith in
      rw done (unfold crc16_add in flyby_end-Flown acc lo hi ys p v)
  flyby_loop-Flown (suc fuel) acc gone total lo hi (x ∷ xs) ys p v len enough =
      let more : ltb gone total ≡ true = ground arith in
      let count = if ltb slave_buff_size (total - gone) then slave_buff_size else total - gone in
      let t =
        read_some-Took a c d limit early 0 count (ground arith) (ground arith) p v (omega arith) in
      let (ws, xs_cut, rest_cut) =
        cut_twice t.got t.rest (x ∷ xs) (lo ∷ hi ∷ ys) (sym t.cut) (ground (arith, t.not_more)) in
      let f =
        flyby_loop-Flown fuel (crc16_add acc t.got) (gone + (0 + length t.got)) total lo hi ws ys
          t.after (rw (← rest_cut) t.ready)
          (omega (arith, ap length xs_cut, length-append t.got ws)) (omega (arith, t.less)) in
      let split_up : crc16_add (crc16_add acc t.got) ws ≡ crc16_add acc (x ∷ xs) =
        sym (ap (crc16_add acc) xs_cut ∙ crc16_add-append acc t.got ws) in
      rw (more, t.returns, t.front) (Flown-same _ _ lo hi ys _ split_up f)

  -- The message behind its header.
  read_body-Flown :
      (addr l0 l1 ctrl lo hi : ℕ) (body rest : Bytes) (q : Protocol)
      → IsReady a c d limit (body ++ (lo ∷ hi ∷ rest)) q
      → take 5 q.in_buffer ≡ ch_soh ∷ addr ∷ l0 ∷ l1 ∷ ctrl ∷ []
      → IsForeign a addr
      → has_crc ctrl ≡ true
      → bit_or l0 (l1 * 256) ≡ 5 + length body + 2
      → Flown (passed (ch_soh ∷ addr ∷ l0 ∷ l1 ∷ ctrl ∷ body) lo hi) rest (read_body 5 q)
  unfolding read_body fly_past
  read_body-Flown addr l0 l1 ctrl lo hi body rest q v h foreign flag len =
      let header = ch_soh ∷ addr ∷ l0 ∷ l1 ∷ ctrl ∷ [] in
      let passing : passes_by q ≡ true =
        rw (v.same_addr, front_byte 5 1 q.in_buffer header h (omega arith)) foreign in
      let control : has_crc (get_or q.in_buffer 4 0) ≡ true =
        rw (front_byte 5 4 q.in_buffer header h (omega arith)) flag in
      let len_eq : in_len q ≡ 5 + length body + 2 =
        ap₂ (λ x y. bit_or x (y * 256)) (front_byte 5 2 q.in_buffer header h (omega arith))
          (front_byte 5 3 q.in_buffer header h (omega arith))
        ∙ len in
      rw (passing, control, len_eq, h)
        (Flown-same _ _ lo hi rest _ (sym (crc16_add-append crc16_prepare header body)) (
          flyby_loop-Flown (work q + 1) (crc16_add crc16_prepare header) 5 (5 + length body + 2 - 2)
            lo hi body rest q v (omega arith) (omega arith)))

-- A message for another device has passed.
pub record Passed (reply : Reply) (rest : Bytes) (r : Run Protocol Reply) : Type 0 where
  pub after : Protocol
  pub returns : r ≡ ok reply after
  pub unread : after.pending ++ stream_events after.rx ≡ rest

-- `readcook` of a device that is no master, on a line that brings in time, however they are cut into
-- arrivals, noise without SOH, a message with a CRC for another device whose length field tells its
-- length, and more. However long the message is, all of it is read and nothing behind it; the reply says
-- that it has passed if its two last bytes are the CRC of the others, and is the CRC error if they are not.
pub readcook-Passed :
    (p : Protocol) (junk : Bytes) (addr l0 l1 ctrl : ℕ) (body : Bytes) (lo hi : ℕ) (rest : Bytes)
    → Brings (junk ++ ((ch_soh ∷ addr ∷ l0 ∷ l1 ∷ ctrl ∷ body) ++ (lo ∷ hi ∷ rest))) p
    → IsQuiet junk
    → IsForeign p.my_addr addr
    → has_crc ctrl ≡ true
    → bit_or l0 (l1 * 256) ≡ 5 + length body + 2
    → Passed (passed (ch_soh ∷ addr ∷ l0 ∷ l1 ∷ ctrl ∷ body) lo hi) rest (readcook p)
unfolding readcook clock_gettime
readcook-Passed p junk addr l0 l1 ctrl body lo hi rest v quiet foreign flag len =
    let begun : Protocol = record p { tick = p.tick + 1; deadline = read_deadline p } in
    let limit = p.tick + 1 + work p in
    let s =
      readsoh-Filled p.my_addr p.clock (read_deadline p) limit v.in_time junk
        (addr ∷ l0 ∷ l1 ∷ ctrl ∷ []) (body ++ (lo ∷ hi ∷ rest)) begun
        (record {
          same_addr = refl;
          same_clock = refl;
          same_deadline = refl;
          alive = v.alive;
          soon = omega (arith, work-deadline p (p.tick + 1) (read_deadline p));
          unread = v.unread;
          buffer = v.buffer;
        })
        quiet refl in
    let b =
      read_body-Flown p.my_addr p.clock (read_deadline p) limit v.in_time addr l0 l1 ctrl lo hi body
        rest s.after s.ready s.filled foreign flag len in
    let (stamp, stamped) = readstamp_lem b.after in
    rw (s.returns, b.returns, stamped)
      (record {
        after = record b.after { next_write = stamp; tick = b.after.tick + 1 };
        returns = refl;
        unread = b.ready.unread;
      })
