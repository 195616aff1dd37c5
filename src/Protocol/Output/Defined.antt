-- ===== src/Protocol/Output/Defined.antt =====
-- A message that fits the transmit buffer is sent without undefined behaviour, and the receive buffer
-- and the configuration stay as they are.
use osdpmaster.Prelude.{
  ℕ, zero, suc, ◌+◌, ◌-◌, ◌%◌, ◌≤◌, ◌≡◌, true, List, [], ◌∷◌, ◌&&◌, ◌==◌, arith, leb, min,
  Bool-cases, inl, inr, length, Bytes,
}
use osdpmaster.Run.{Stays, Stays-and_then}
use osdpmaster.Protocol.{
  Protocol, TxEvent, accepted, interrupted, would_block, failed, slave_buff_size, delaywait,
  readstamp, clock_gettime, flush_input,
}
use osdpmaster.Protocol.Input.Keeps.{IsLine}
use osdpmaster.Protocol.Output.{
  write_events, write, transmit, wrapped, writecook, send, wait_writable,
}
use osdpmaster.Protocol.Output.Bounds.{length-wrapped}

module _ (lead trail : ℕ) where
  abbrev Line : Protocol → Type 0
  Line p = IsLine lead trail p.in_buffer p.config

  -- The payload fits the transmit buffer with its envelope and the sync characters.
  abbrev pub Fits : Bytes → Type 0
  Fits payload = lead + (length payload + 7) + trail ≤ slave_buff_size

  write_events-Stays :
      (es : List TxEvent) (offset size : ℕ) (p : Protocol)
      → offset ≤ size
      → size ≤ slave_buff_size
      → Line p
      → Stays ⊥ Line (write_events es offset size p)
  unfolding write_events
  write_events-Stays [] offset size p le room v = elim (Bool-cases (leb size offset)) [
    | inl done ↦ rw done v
    | inr more ↦ rw more tt
  ]
  write_events-Stays (accepted zero ∷ es) offset size p le room v =
      elim (Bool-cases (leb size offset)) [
        | inl done ↦ rw done v
        | inr more ↦ rw more (write_events-Stays es offset size (wait_writable p) le room v)
      ]
  write_events-Stays (accepted (suc n) ∷ es) offset size p le room v =
      let i = min (suc n) (size - offset) in
      elim (Bool-cases (leb size offset)) [
        | inl done ↦ rw done v
        | inr more ↦
            let inside : leb (offset + i) slave_buff_size ≡ true = ground arith in
            rw (more, inside)
              (write_events-Stays es (offset + i) size (send i offset p) (omega arith) room v)
      ]
  write_events-Stays (interrupted ∷ es) offset size p le room v =
      elim (Bool-cases (leb size offset)) [
        | inl done ↦ rw done v
        | inr more ↦ rw more (write_events-Stays es offset size p le room v)
      ]
  write_events-Stays (would_block ∷ es) offset size p le room v =
      elim (Bool-cases (leb size offset)) [
        | inl done ↦ rw done v
        | inr more ↦ rw more (write_events-Stays es offset size (wait_writable p) le room v)
      ]
  write_events-Stays (failed ∷ es) offset size p le room v = elim (Bool-cases (leb size offset)) [
    | inl done ↦ rw done v
    | inr more ↦ rw more v
  ]

  delaywait-Stays : (p : Protocol) → Line p → Stays ⊥ Line (delaywait p)
  unfolding delaywait readstamp clock_gettime
  delaywait-Stays p v = elim (Bool-cases (p.next_write.tv_sec == 0 && p.next_write.tv_nsec == 0)) [
    | inl unset ↦ rw unset v
    | inr is_set ↦ rw is_set v
  ]

  transmit-Stays :
      (n : ℕ) (p : Protocol) → n ≤ slave_buff_size → Line p → Stays ⊥ Line (transmit n p)
  unfolding transmit write
  transmit-Stays n p room v =
      let e : n % 65536 ≡ n = omega arith in
      Stays-and_then ⊥ Line (delaywait p) _ (delaywait-Stays p v) (λ u q w.
        rw e (write_events-Stays q.tx 0 n (record q { out_len = n }) (omega arith) room w))

  pub writecook-Stays :
      (addr seq : ℕ) (payload : Bytes) (p : Protocol)
      → Fits payload
      → Line p
      → Stays ⊥ Line (writecook addr seq payload p)
  unfolding writecook
  writecook-Stays addr seq payload p fits v =
      let out = wrapped p.config.lead p.config.trail addr seq payload in
      let size = length-wrapped p.config.lead p.config.trail addr seq payload in
      let room : length out ≤ slave_buff_size = omega (arith, fits, size, v.before, v.behind) in
      let test : leb (length out) slave_buff_size ≡ true = ground arith in
      rw test (transmit-Stays (length out) _ room v)

  pub flush_input-Stays : (p : Protocol) → Line p → Stays ⊥ Line (flush_input p)
  unfolding flush_input
  flush_input-Stays p v = elim (Bool-cases (p.flush_succeeds p.tick)) [
    | inl fine ↦ rw fine v
    | inr bad ↦ rw bad v
  ]

  pub clock_gettime-Stays : (p : Protocol) → Line p → Stays ⊥ Line (clock_gettime p)
  unfolding clock_gettime
  clock_gettime-Stays p v = v
