-- ===== src/Bus/Invariant/Poll.antt =====
-- Every call of `slave_poll` leaves the bus sound.
use osdpmaster.Prelude.{
  ℕ, ◌+◌, ◌<◌, ◌≡◌, Bool, true, false, not, ◌&&◌, ◌||◌, ◌==◌, if◌then◌else◌, ltb, length, get_elem?,
  Bytes, arith, Bool-cases, Option-cases, inl, inr, bit_and, bit_and_3,
}
use osdpmaster.Run.{Cmd, pure, ◌>>◌, Keeps, Keeps-and_then}
use osdpmaster.Protocol.{Reply, ProtoError, crc, timeout, size, error, clock_gettime}
use osdpmaster.Protocol.Input.{readcook, in_addr, in_ctrl}
use osdpmaster.Slave.{Slave, next_seq, nak, offline, is_empty}
use osdpmaster.Slave.Retries.{IsValid}
use osdpmaster.Bus.{
  Bus, Polled, didnt_poll, osdp_nak, osdp_busy, in_function, in_seq, on_line, update_slave,
  at_slave, pollable, select, advance, send_to, poll_offline, due_again, outgoing, refuse_reply,
  follow_seq, count_error, accept_reply, take_reply, miss_reply, await_reply, poll_online, poll_at,
  slave_poll,
}
use osdpmaster.Bus.Invariant.{
  IsSound, on_line-IsSound, update_slave-IsSound, at_slave-IsSound, with_slave-IsSound, select-lt,
}
use osdpmaster.Bus.Invariant.Steps.{
  send_to-IsSound, poll_offline-IsSound, nak-IsValid, accept_reply-IsSound, next_seq-lt,
  refuse_reply-IsSound,
}

followed : (b : Bool) (m n : ℕ) → m < 4 → n < 4 → (if b then m else n) < 4
followed true m n h k = h
followed false m n h k = k

module _ (uuid_unparse : Bytes → Bytes) (align : ℕ) where
  abbrev Sound : Bus → Type 0
  Sound b = IsSound uuid_unparse align b

  follow_seq-IsValid :
      (seq : ℕ) (s : Slave)
      → seq < 4
      → IsValid uuid_unparse align s
      → IsValid uuid_unparse align (follow_seq seq s)
  follow_seq-IsValid seq s low valid = record {
    retries = valid.retries;
    tx = valid.tx;
    rx =
        followed (s.rxseq == 0 || seq == 0) (next_seq seq) s.rxseq
          (next_seq-lt uuid_unparse align seq low) valid.rx;
    address = valid.address;
    name = valid.name;
  }

  -- The reply of the slave itself.
  follow_reply-IsSound :
      (i : ℕ) (sent_msg : Bool) (n : ℕ) (b : Bus)
      → Sound b
      → Keeps Sound (
          (update_slave i (follow_seq (in_seq b.proto))
              >> (if in_function b.proto == osdp_nak || in_function b.proto == osdp_busy
                  then refuse_reply i (in_function b.proto) (in_seq b.proto)
                  else accept_reply uuid_unparse align i sent_msg n))
            b)
  follow_reply-IsSound i sent_msg n b v =
      let seq = in_seq b.proto in
      let low : seq < 4 = bit_and_3 (in_ctrl b.proto) in
      Keeps-and_then Sound (update_slave i (follow_seq seq) b) _
        (update_slave-IsSound uuid_unparse align i (follow_seq seq) b
          (λ s valid. follow_seq-IsValid seq s low valid) v)
        (λ u c w.
          elim (Bool-cases (in_function b.proto == osdp_nak || in_function b.proto == osdp_busy)) [
            | inl refused ↦
                rw refused
                  (refuse_reply-IsSound uuid_unparse align i (in_function b.proto) seq c low w)
            | inr accepted ↦ rw accepted (accept_reply-IsSound uuid_unparse align i sent_msg n c w)
          ])

  take_reply-IsSound :
      (i : ℕ) (sent_msg : Bool) (n : ℕ) (b : Bus)
      → Sound b
      → Keeps Sound (take_reply uuid_unparse align i sent_msg n b)
  unfolding take_reply
  take_reply-IsSound i sent_msg n b v =
      with_slave-IsSound uuid_unparse align (get_elem? b.slaves i) _ b (λ s.
        elim (Bool-cases (bit_and (in_addr b.proto) 0x7F == s.addr)) [
          | inl own ↦ rw own (follow_reply-IsSound i sent_msg n b v)
          | inr other ↦ rw other v
        ])

  count_error-IsSound : (e : ProtoError) (b : Bus) → Sound b → Sound (count_error e b)
  unfolding count_error
  count_error-IsSound crc b v = record { slaves = v.slaves; place = v.place }
  count_error-IsSound timeout b v = record { slaves = v.slaves; place = v.place }
  count_error-IsSound _ b v = v

  counted-IsSound :
      (r : Reply) (b : Bus) → Sound b → Sound (elim r [ size n ↦ b | error e ↦ count_error e b ])
  counted-IsSound (size n) b v = v
  counted-IsSound (error e) b v = count_error-IsSound e b v

  miss_reply-IsSound :
      (i : ℕ) (r : Reply) (b : Bus) → Sound b → Keeps Sound (miss_reply uuid_unparse align i r b)
  unfolding miss_reply
  miss_reply-IsSound i r b v =
      Keeps-and_then Sound (at_slave i (nak uuid_unparse align) b) _
        (at_slave-IsSound uuid_unparse align i (nak uuid_unparse align) b
          (nak-IsValid uuid_unparse align) v)
        (λ u c w. counted-IsSound r c w)

  answer_IsSound :
      (i : ℕ) (sent_msg : Bool) (r : Reply) (c : Bus)
      → Sound c
      → Keeps Sound (
          (elim r as (λ x. Cmd Bus Polled) [
            | size n ↦
                if ltb 0 n
                then take_reply uuid_unparse align i sent_msg n
                else miss_reply uuid_unparse align i (size n)
            | error e ↦ miss_reply uuid_unparse align i (error e)
          ])
            c)
  answer_IsSound i sent_msg (error e) c w = miss_reply-IsSound i (error e) c w
  answer_IsSound i sent_msg (size n) c w = elim (Bool-cases (ltb 0 n)) [
    | inl some_bytes ↦ rw some_bytes (take_reply-IsSound i sent_msg n c w)
    | inr no_bytes ↦ rw no_bytes (miss_reply-IsSound i (size n) c w)
  ]

  await_reply-IsSound :
      (i : ℕ) (sent_msg : Bool) (b : Bus)
      → Sound b
      → Keeps Sound (await_reply uuid_unparse align i sent_msg b)
  unfolding await_reply
  await_reply-IsSound i sent_msg b v =
      Keeps-and_then Sound (on_line readcook b) _ (on_line-IsSound uuid_unparse align readcook b v)
        (answer_IsSound i sent_msg)

  due_again-IsSound : (s : Slave) (b : Bus) → Sound b → Keeps Sound (due_again s b)
  due_again-IsSound s b v = elim (Bool-cases (ltb 0 s.retry && ltb s.retry 32768)) [
    | inl waits ↦ rw waits (
        Keeps-and_then Sound (on_line clock_gettime b) _
          (on_line-IsSound uuid_unparse align clock_gettime b v) (λ now c w. w))
    | inr goes ↦ rw goes v
  ]

  poll_online-IsSound :
      (i : ℕ) (s : Slave) (b : Bus) → Sound b → Keeps Sound (poll_online uuid_unparse align i s b)
  unfolding poll_online
  poll_online-IsSound i s b v =
      Keeps-and_then Sound (due_again s b) _ (due_again-IsSound s b v) (λ due c w. polled due c w)
    where
      polled :
          (due : Bool) (c : Bus)
          → Sound c
          → Keeps Sound (
              (if due
                  then (send_to s (outgoing s)
                      >> await_reply uuid_unparse align i (not (is_empty s.msglist)))
                  else pure didnt_poll)
                c)
      polled true c w =
          Keeps-and_then Sound (send_to s (outgoing s) c) _
            (send_to-IsSound uuid_unparse align s (outgoing s) c w)
            (λ u d x. await_reply-IsSound i (not (is_empty s.msglist)) d x)
      polled false c w = w

  poll_at-IsSound :
      (i : ℕ) (s : Slave) (b : Bus) → Sound b → Keeps Sound (poll_at uuid_unparse align i s b)
  unfolding poll_at
  poll_at-IsSound i s b v = elim (Bool-cases (not (pollable align s))) [
    | inl never ↦ rw never v
    | inr can ↦ elim (Bool-cases (offline s)) [
      | inl off ↦
          rw (can, off)
            (Keeps-and_then Sound (poll_offline i b) _
              (poll_offline-IsSound uuid_unparse align i b v) (λ sent c w. asked sent c w))
      | inr on ↦ rw (can, on) (poll_online-IsSound i s b v)
    ]
  ]
    where
      asked :
          (sent : Bool) (c : Bus)
          → Sound c
          → Keeps Sound
              ((if sent then await_reply uuid_unparse align i false else pure didnt_poll) c)
      asked true c w = await_reply-IsSound i false c w
      asked false c w = w

  advance-IsSound : (b : Bus) → Sound b → Keeps Sound (advance align b)
  unfolding advance
  advance-IsSound b v =
      let chosen = select (length b.slaves + 1) align b.slaves b.poll_slave b.poll_slave in
      let there : ltb b.poll_slave (length b.slaves) ≡ true = ground (arith, v.place) in
      rw there (elim (Option-cases chosen) [
        | inl nowhere ↦ rw nowhere tt
        | inr (n, here) ↦ rw here (record {
          slaves = v.slaves;
          place =
              select-lt (length b.slaves + 1) align b.slaves b.poll_slave b.poll_slave n v.place
                here;
        })
      ])

  -- However a call of `slave_poll` ends, by a result or by an exception, and whatever has come over the
  -- line: where every slave is valid and there is a current one, the same holds behind the call.
  pub slave_poll-IsSound : (b : Bus) → Sound b → Keeps Sound (slave_poll uuid_unparse align b)
  unfolding slave_poll
  slave_poll-IsSound b v = Keeps-and_then Sound (advance align b) _ (advance-IsSound b v) (λ i c w.
      with_slave-IsSound uuid_unparse align (get_elem? c.slaves i) _ c
        (λ s. poll_at-IsSound i s c w))
