-- ===== src/Protocol/Output/Bounds.antt =====
-- The length of a message in the transmit buffer, and the buffer's end.
use osdpmaster.Prelude.{
  ℕ, ◌+◌, ◌/◌, ◌%◌, ◌≤◌, ◌<◌, ◌≡◌, ◌≢◌, ◌↔◌, replicate, length-replicate, bit_and, refl, [], ◌∷◌,
  ◌++◌, arith, leb, Bool-cases, length, Bytes, length-append, inl, inr,
}
use osdpmaster.Run.{fault}
use osdpmaster.Protocol.{Protocol, slave_buff_size}
use osdpmaster.Protocol.Output.{write, transmit, wrapped, writecook}
use osdpmaster.Crc.{crc16_prepare, crc16_add}
use osdpmaster.Protocol.Output.{frame, envelope}
use osdpmaster.Protocol.Output.Events.{write_events-Sent}
use osdpmaster.Protocol.Output.Sends.{delaywait-Waited}

pub length-wrapped :
    (lead trail addr seq : ℕ) (payload : Bytes)
    → length (wrapped lead trail addr seq payload) ≡ lead + (length payload + 7) + trail
unfolding wrapped frame envelope
length-wrapped lead trail addr seq payload = omega (
  arith,
  length-append (replicate lead 0xFF) (frame addr seq payload ++ replicate trail 0xFF),
  length-append (frame addr seq payload) (replicate trail 0xFF),
  length-append (envelope addr seq payload) (
      bit_and (crc16_add crc16_prepare (envelope addr seq payload)) 0xFF
      ∷ bit_and (crc16_add crc16_prepare (envelope addr seq payload) / 256) 0xFF
      ∷ []),
  length-replicate {A = ℕ} lead 0xFF,
  length-replicate {A = ℕ} trail 0xFF,
)

-- A send from a buffer of the given size never reads behind it.
transmit-defined : (n : ℕ) (p : Protocol) → n ≤ slave_buff_size → transmit n p ≢ fault
unfolding transmit write
transmit-defined n p room bad =
    let w = delaywait-Waited p in
    let e : n % 65536 ≡ n = omega arith in
    let q : Protocol = record w.after { out_len = n } in
    rw (rw (w.returns, e) at bad) at (write_events-Sent q.tx 0 n q (omega arith) room)

-- `writecook` overruns the transmit buffer exactly if the sync bytes, the payload and the 7 bytes of
-- header and CRC are together more than the 271 bytes of the buffer, whatever the line does.
pub writecook_overrun :
    (addr seq : ℕ) (payload : Bytes) (p : Protocol)
    → (writecook addr seq payload p ≡ fault)
      ↔ (slave_buff_size < p.config.lead + (length payload + 7) + p.config.trail)
unfolding writecook
writecook_overrun addr seq payload p =
    let out = wrapped p.config.lead p.config.trail addr seq payload in
    let size = length-wrapped p.config.lead p.config.trail addr seq payload in
    elim (Bool-cases (leb (length out) slave_buff_size)) [
      | inl fits ↦ (
        (λ bad. absurd (transmit-defined (length out) _ (ground arith) (rw fits at bad))),
        (λ long. absurd (ground (arith, size, fits))),
      )
      | inr over ↦ ((λ _. ground (arith, size, over)), (λ _. rw over refl))
    ]
