-- ===== src/Protocol/RoundTrip.antt =====
-- `writecook` at one end of the line and `readcook` at the other.
use osdpmaster.Prelude.{
  ℕ, ◌+◌, ◌*◌, ◌/◌, ◌≤◌, ◌<◌, ◌≡◌, refl, sym, ap, ◌∙◌, true, [], ◌∷◌, ◌++◌, arith, ==_refl, ne→==,
  length, replicate, take, take-take, take-append, Bytes, length-append, append_assoc, bit_and,
  bit_or, two_bytes, all_below, all_below-elim, All, IsByte, zero, suc,
}
use osdpmaster.Run.{Run, ok}
use osdpmaster.Crc.{crc16_prepare, crc16_add, crc16_add-lt}
use osdpmaster.Crc.Detect.{crc16_add_injective}
use osdpmaster.Protocol.{Protocol, Reply, size, error, crc, slave_buff_size, ch_soh}
use osdpmaster.Protocol.Input.{readcook, has_crc}
use osdpmaster.Protocol.Input.Reads.{stream_events}
use osdpmaster.Protocol.Input.Soh.{IsQuiet}
use osdpmaster.Protocol.Input.Frames.{Brings, IsHeard, Heard, judged, readcook-Heard}
use osdpmaster.Protocol.Output.{writecook, wrapped, frame, envelope}
use osdpmaster.Protocol.Output.Events.{HasOutBuffer, Takes}
use osdpmaster.Protocol.Output.Sends.{writecook_lem}

flag_table : all_below 256 (λ s. has_crc (bit_or s 0x04)) ≡ true
unfolding all_below
flag_table = refl

-- Every message that is written says that it has a CRC.
frame_flag : (seq : ℕ) → seq < 256 → has_crc (bit_or seq 0x04) ≡ true
frame_flag seq h = all_below-elim (λ s. has_crc (bit_or s 0x04)) flag_table seq h

-- The sync bytes are no SOH.
replicate-IsQuiet : (n : ℕ) → IsQuiet (replicate n 0xFF)
replicate-IsQuiet zero = tt
replicate-IsQuiet (suc n) = (refl, replicate-IsQuiet n)

-- What has been received of a message: `readcook` returns its size, leaves what follows unread, and
-- the buffer begins with it.
pub record Received (message rest : Bytes) (r : Run Protocol Reply) : Type 0 where
  pub after : Protocol
  pub returns : r ≡ ok (size (length message)) after
  pub unread : after.pending ++ stream_events after.rx ≡ rest
  pub held : take (length message) after.in_buffer ≡ message

-- The two bytes that end a message are its CRC.
abbrev low_crc : Bytes → ℕ
low_crc m = bit_and (crc16_add crc16_prepare m) 0xFF

abbrev high_crc : Bytes → ℕ
high_crc m = bit_and (crc16_add crc16_prepare m / 256) 0xFF

trailer_crc : (m : Bytes) → bit_or (low_crc m) (high_crc m * 256) ≡ crc16_add crc16_prepare m
trailer_crc m = two_bytes (crc16_add crc16_prepare m) (crc16_add-lt crc16_prepare m (omega arith))

judged_right : (m : Bytes) → judged m (low_crc m) (high_crc m) ≡ size (length m)
judged_right m = rw (trailer_crc m, ==_refl (crc16_add crc16_prepare m))

-- The length field, low byte first.
length_field :
    (n : ℕ)
    → n ≤ 259
    → bit_or (bit_and (n + 7) 0xff) (bit_and ((n + 7) / 256) 0xff * 256) ≡ 5 + n + 2
length_field n h = two_bytes (n + 7) (omega arith) ∙ omega arith

-- A line with bytes that are equal to others brings those.
Brings-eq : {bs cs : Bytes} (p : Protocol) → bs ≡ cs → Brings bs p → Brings cs p
Brings-eq p e v = record {
  alive = v.alive;
  unread = v.unread ∙ e;
  buffer = v.buffer;
  in_time = v.in_time;
}

readcook-frame :
    (p : Protocol) (junk : Bytes) (addr seq : ℕ) (payload rest : Bytes)
    → Brings (junk ++ (frame addr seq payload ++ rest)) p
    → IsQuiet junk
    → IsHeard p.my_addr (bit_and addr 0x7F)
    → seq < 256
    → length payload ≤ 259
    → Received (envelope addr seq payload) rest (readcook p)
unfolding frame envelope
readcook-frame p junk addr seq payload rest v quiet mine small room =
    let m = envelope addr seq payload in
    let h =
      readcook-Heard p junk (bit_and addr 0x7F) (bit_and (length payload + 7) 0xff)
        (bit_and ((length payload + 7) / 256) 0xff) (bit_or seq 0x04) payload (low_crc m)
        (high_crc m) rest
        (Brings-eq p (ap (◌++◌ junk) (append_assoc m (low_crc m ∷ high_crc m ∷ []) rest)) v) quiet
        mine (frame_flag seq small) (length_field (length payload) room) room in
    record {
      after = h.after;
      returns = h.returns ∙ ap (λ r. ok r h.after) (judged_right m);
      unread = h.unread;
      held =
          sym (take-take (length m) (length m + 2) h.after.in_buffer (omega arith))
          ∙ ap (take (length m)) h.held
          ∙ take-append (length m) m (low_crc m ∷ high_crc m ∷ []) refl;
    }

regroup :
    (lead trail a q : ℕ) (m r : Bytes)
    → wrapped lead trail a q m ++ r
      ≡ replicate lead 0xFF ++ (frame a q m ++ (replicate trail 0xFF ++ r))
unfolding wrapped
regroup lead trail a q m r =
    append_assoc (replicate lead 0xFF) (frame a q m ++ replicate trail 0xFF) r
    ∙ ap (◌++◌ (replicate lead 0xFF)) (append_assoc (frame a q m) (replicate trail 0xFF) r)

-- The round trip of a message of up to 259 bytes of payload, with a control value below 256, that fits
-- the transmit buffer. The sender has sent nothing before, and its line takes the message, in whatever
-- pieces. The reader is a master or is addressed, and its line brings in time what was sent and then
-- more, in whatever pieces. Then `writecook` returns the number of bytes sent, and `readcook` the size
-- of the message without its CRC; the reader's buffer begins with that message, and the sync bytes
-- behind it and all that follows are left unread.
pub readcook-writecook :
    (s p : Protocol) (addr seq : ℕ) (payload rest : Bytes)
    → HasOutBuffer s
    → s.sent ≡ []
    → let out = wrapped s.config.lead s.config.trail addr seq payload in
      length out ≤ slave_buff_size
      → Takes s.tx (length out)
      → Brings (out ++ rest) p
      → IsHeard p.my_addr (bit_and addr 0x7F)
      → seq < 256
      → length payload ≤ 259
      → (s' : Protocol) × (writecook addr seq payload s ≡ ok (length out) s')
        × (s'.sent ≡ out)
        × Received (envelope addr seq payload) (replicate s.config.trail 0xFF ++ rest) (readcook p)
readcook-writecook s p addr seq payload rest buf fresh fits takes brings mine small room =
    let out = wrapped s.config.lead s.config.trail addr seq payload in
    let d = writecook_lem addr seq payload s buf fits takes in
    (
      d.after,
      d.returns,
      d.line ∙ ap (λ b. b ++ out) fresh,
      readcook-frame p (replicate s.config.lead 0xFF) addr seq payload
          (replicate s.config.trail 0xFF ++ rest)
          (Brings-eq p (regroup s.config.lead s.config.trail addr seq payload rest) brings)
          (replicate-IsQuiet s.config.lead) mine small room,
    )

-- A message of `writecook`, of up to 259 bytes of payload and for this reader, comes in time, behind
-- noise without SOH. If two adjacent bytes of its payload, one at least, have changed on the way, then
-- `readcook` refuses it with the CRC error, and what follows it is left unread.
pub readcook_corrupted :
    (p : Protocol) (junk : Bytes) (addr seq : ℕ) (before after : Bytes) (a b a' b' : ℕ)
    (rest : Bytes)
    → let sent = envelope addr seq (before ++ (a ∷ b ∷ after)) in
      let payload = before ++ (a' ∷ b' ∷ after) in
      Brings
        (junk
          ++ (envelope addr seq payload
              ++ (bit_and (crc16_add crc16_prepare sent) 0xFF
                  ∷ bit_and (crc16_add crc16_prepare sent / 256) 0xFF
                  ∷ rest)))
        p
      → IsQuiet junk
      → IsHeard p.my_addr (bit_and addr 0x7F)
      → seq < 256
      → length payload ≤ 259
      → All IsByte (a ∷ b ∷ a' ∷ b' ∷ after)
      → ((a ≡ a') × (b ≡ b') → ⊥)
      → (q : Protocol) × (readcook p ≡ ok (error crc) q) × (q.pending ++ stream_events q.rx ≡ rest)
unfolding envelope
readcook_corrupted p junk addr seq before after a b a' b' rest v quiet mine small room bytes
      changed =
    (h.after, h.returns ∙ ap (λ r. ok r h.after) wrong, h.unread)
  where
    got : Bytes
    got = before ++ (a' ∷ b' ∷ after)

    same_length : length (before ++ (a ∷ b ∷ after)) ≡ length got
    same_length =
        omega (arith, length-append before (a ∷ b ∷ after), length-append before (a' ∷ b' ∷ after))

    lead_in : Bytes
    lead_in =
        ch_soh
        ∷ bit_and addr 0x7F
        ∷ bit_and (length got + 7) 0xff
        ∷ bit_and ((length got + 7) / 256) 0xff
        ∷ bit_or seq 0x04
        ∷ before

    m : Bytes
    m = lead_in ++ (a ∷ b ∷ after)

    m-sent : envelope addr seq (before ++ (a ∷ b ∷ after)) ≡ m
    m-sent = rw same_length

    h : Heard (lead_in ++ (a' ∷ b' ∷ after)) (low_crc m) (high_crc m) rest (readcook p)
    h =
        readcook-Heard p junk (bit_and addr 0x7F) (bit_and (length got + 7) 0xff)
          (bit_and ((length got + 7) / 256) 0xff) (bit_or seq 0x04) got (low_crc m) (high_crc m)
          rest (rw (← m-sent) v) quiet mine (frame_flag seq small) (length_field (length got) room)
          room

    wrong : judged (lead_in ++ (a' ∷ b' ∷ after)) (low_crc m) (high_crc m) ≡ error crc
    wrong = rw (
      trailer_crc m,
      ne→== (crc16_add crc16_prepare m) (crc16_add crc16_prepare (lead_in ++ (a' ∷ b' ∷ after)))
          (λ e.
            changed
              (crc16_add_injective crc16_prepare lead_in after a b a' b' (omega arith) bytes e)),
    )
