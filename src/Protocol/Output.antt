-- ===== src/Protocol/Output.antt =====
-- osdpprotocol.cpp, the sending side: `writecook`, both functions `write`, and `resend`.
pub mod Events
pub mod Sends
pub mod Bounds
pub mod Defined
use osdpmaster.Prelude.{
  ℕ, zero, suc, ◌+◌, ◌-◌, ◌/◌, ◌%◌, Bool, true, false, List, [], ◌∷◌, ◌++◌, leb, ltb, if◌then◌else◌,
  take, drop, length, replicate, Bytes, bit_and, bit_or, min,
}
use osdpmaster.Run.{
  Run, Cmd, ok, throw, starved, fault, write_failed, pure, and_then, ◌>>=◌, ◌>>◌, get, modify,
}
use osdpmaster.Crc.{crc16_prepare, crc16_add, crc16_digest}
use osdpmaster.Protocol.{
  Protocol, TxEvent, accepted, interrupted, would_block, failed, Wait, polled, slave_buff_size,
  ch_soh, splice, delaywait,
}

-- A wait until the descriptor is writable.
abbrev pub wait_writable : Protocol → Protocol
wait_writable p = record p { waits = p.waits ++ polled 1000 ∷ [] }

-- `i` bytes of the buffer go out.
abbrev pub send : ℕ → ℕ → Protocol → Protocol
send i offset p = record p { sent = p.sent ++ take i (drop offset p.out_buffer) }

-- `while(offset < size)` of `write(buffer, size)`. The bytes are those of `m_out_buffer`. A write of
-- no bytes is a refusal, and what lies behind the buffer's end must not be sent.
unfoldable pub write_events : List TxEvent → ℕ → ℕ → Protocol → Run Protocol ℕ
write_events [] offset size p = if leb size offset then ok size (record p { tx = [] }) else starved
write_events (accepted zero ∷ es) offset size p =
    if leb size offset
    then ok size (record p { tx = accepted zero ∷ es })
    else write_events es offset size (wait_writable p)
write_events (accepted (suc n) ∷ es) offset size p =
    let i = min (suc n) (size - offset) in
    let rest = write_events es (offset + i) size (send i offset p) in
    let checked = if leb (offset + i) slave_buff_size then rest else fault in
    if leb size offset then ok size (record p { tx = accepted (suc n) ∷ es }) else checked
write_events (interrupted ∷ es) offset size p =
    if leb size offset
    then ok size (record p { tx = interrupted ∷ es })
    else write_events es offset size p
write_events (would_block ∷ es) offset size p =
    if leb size offset
    then ok size (record p { tx = would_block ∷ es })
    else write_events es offset size (wait_writable p)
write_events (failed ∷ es) offset size p =
    if leb size offset
    then ok size (record p { tx = failed ∷ es })
    else throw write_failed (record p { tx = es })

-- `write(buffer, size)`: `xlog`, which does nothing in this class, is the only use of `buffer`.
unfoldable pub write : Bytes → ℕ → Cmd Protocol ℕ
write buffer size p = write_events p.tx 0 size p

-- `write(size)`: `m_out_len` is a uint16_t.
unfoldable pub write_out : ℕ → Cmd Protocol ℕ
write_out size p = write p.out_buffer size (record p { out_len = size % 65536 })

-- The envelope of `writecook` up to its CRC: SOH, address, length with low byte first, control.
unfoldable pub envelope : ℕ → ℕ → Bytes → Bytes
envelope addr seq payload =
    let fullsize = length payload + 7 in
    ch_soh
    ∷ bit_and addr 0x7F
    ∷ bit_and fullsize 0xff
    ∷ bit_and (fullsize / 256) 0xff
    ∷ bit_or seq 0x04
    ∷ payload

-- The message with its CRC, low byte first.
unfoldable pub frame : ℕ → ℕ → Bytes → Bytes
frame addr seq payload =
    let icrc = crc16_digest (crc16_add crc16_prepare (envelope addr seq payload)) in
    envelope addr seq payload ++ (bit_and icrc 0xFF ∷ bit_and (icrc / 256) 0xFF ∷ [])

-- All that is written to `m_out_buffer`: sync bytes before and after.
unfoldable pub wrapped : ℕ → ℕ → ℕ → ℕ → Bytes → Bytes
wrapped lead trail addr seq payload =
    replicate lead 0xFF ++ (frame addr seq payload ++ replicate trail 0xFF)

-- The end of `writecook`: the bytes in the buffer are sent when they are due.
unfoldable pub transmit : ℕ → Cmd Protocol ℕ
transmit n = do
  delaywait
  modify (λ q. record q { out_len = n % 65536 })
  q ← get
  write q.out_buffer q.out_len

-- `writecook`; `size` is the payload's length, and `seq` is at most 3. The source does not compare
-- the message with the buffer's size, so a message that is longer overruns it.
unfoldable pub writecook : ℕ → ℕ → Bytes → Cmd Protocol ℕ
writecook addr seq payload p =
    let out = wrapped p.config.lead p.config.trail addr seq payload in
    let filled = record p { out_buffer = splice p.out_buffer 0 out } in
    if leb (length out) slave_buff_size then transmit (length out) filled else fault

unfoldable pub send_again : Cmd Protocol ℕ
send_again = do delaywait; q ← get; write_out q.out_len

-- `resend`: the last message once more, if there was one.
unfoldable pub resend : Cmd Protocol ℕ
resend p = if leb p.out_len 0 then ok 0 p else send_again p
