-- ===== src/Tests/Sending.antt =====
-- The theorems on sending, at a poll of the device at address 1.
use osdpmaster.Prelude.{◌≡◌, refl, [], ◌∷◌, Bytes, length, replicate, arith, ◌↔◌, ◌<◌, ◌+◌}
use osdpmaster.Run.{fault}
use osdpmaster.Protocol.{Protocol, accepted, interrupted, would_block, slave_buff_size, splice}
use osdpmaster.Protocol.Output.{writecook, wrapped, frame, envelope}
use osdpmaster.Protocol.Output.Sends.{Done, writecook_lem}
use osdpmaster.Protocol.Output.Bounds.{writecook_overrun}
use osdpmaster.Tests.Wire.{blank}

-- A line that takes three bytes, then is interrupted and busy, then takes the rest.
abbrev pub sender : Protocol
sender = record blank { tx = accepted 3 ∷ interrupted ∷ would_block ∷ accepted 9 ∷ [] }

abbrev sent_before : Protocol
sent_before = record sender { out_len = 2; sent = 7 ∷ [] }

-- A payload as long as the buffer.
abbrev long_payload : Bytes
long_payload = replicate 271 0x60

writecook_lem_example :
    Done
      (wrapped 0 0 1 0 (0x60 ∷ []))
      []
      (splice sender.out_buffer 0 (wrapped 0 0 1 0 (0x60 ∷ [])))
      (length (wrapped 0 0 1 0 (0x60 ∷ [])))
      (length (wrapped 0 0 1 0 (0x60 ∷ [])))
      (writecook 1 0 (0x60 ∷ []) sender)
unfolding wrapped frame envelope
writecook_lem_example = writecook_lem 1 0 (0x60 ∷ []) sender refl (omega arith) refl

writecook_overrun_example :
    (writecook 1 0 long_payload sender ≡ fault)
    ↔ (slave_buff_size < 0 + (length long_payload + 7) + 0)
writecook_overrun_example = writecook_overrun 1 0 long_payload sender
