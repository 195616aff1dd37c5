-- ===== src/Bus/Defined/Poll.antt =====
-- No call of `slave_poll` has undefined behaviour.
use native.Mathlib.Nat.{mod-lt}
use osdpmaster.Prelude.{
  ℕ, ◌+◌, ◌%◌, ◌≤◌, ◌<◌, Bool, true, false, not, ◌&&◌, ◌||◌, ◌==◌, if◌then◌else◌, ltb, length,
  Bytes, arith, Bool-cases, inl, inr, bit_and, bit_and_3,
}
use osdpmaster.Run.{Cmd, pure, ◌>>◌, Stays, Stays-and_then, Stays-mono}
use osdpmaster.Protocol.{
  Reply, ProtoError, crc, timeout, size, error, clock_gettime, slave_buff_size,
}
use osdpmaster.Protocol.Input.{readcook, in_addr, in_ctrl}
use osdpmaster.Protocol.Input.Keeps.{readcook-Stays}
use osdpmaster.Slave.{Slave, nak, offline, is_empty}
use osdpmaster.Bus.{
  Bus, Polled, didnt_poll, osdp_nak, osdp_busy, in_function, in_seq, on_line, update_slave,
  at_slave, pollable, send_to, poll_offline, due_again, outgoing, refuse_reply, follow_seq,
  count_error, accept_reply, take_reply, miss_reply, await_reply, poll_online, poll_at, slave_poll,
}
use osdpmaster.Bus.Select.{advance-round}
use osdpmaster.Bus.Defined.{
  IsOrderly, IsSteady, At, on_line-Stays, with_slave-Stays, at_slave-Stays,
}
use osdpmaster.Bus.Defined.Steps.{
  outgoing-Sends, send_to-Stays, clock-Stays, poll_offline-Stays, nak-Stays, accept_reply-Stays,
  refuse_reply-Stays, follow_seq-Stays,
}

module _ (uuid_unparse : Bytes → Bytes) (align lead trail : ℕ)
    (room : lead + 8 + trail ≤ slave_buff_size) where
  abbrev Orderly : Slave → Type 0
  Orderly s = IsOrderly uuid_unparse align lead trail s

  abbrev Here : ℕ → Bus → Type 0
  Here i b = At uuid_unparse align lead trail i b

  -- The reply of the slave itself.
  follow_reply-Stays :
      (i : ℕ) (sent_msg : Bool) (n : ℕ) (b : Bus)
      → Here i b
      → Stays ⊥ (Here i) (
          (update_slave i (follow_seq (in_seq b.proto))
              >> (if in_function b.proto == osdp_nak || in_function b.proto == osdp_busy
                  then refuse_reply i (in_function b.proto) (in_seq b.proto)
                  else accept_reply uuid_unparse align i sent_msg n))
            b)
  follow_reply-Stays i sent_msg n b v =
      let seq = in_seq b.proto in
      let low : seq < 4 = bit_and_3 (in_ctrl b.proto) in
      Stays-and_then ⊥ (Here i) (update_slave i (follow_seq seq) b) _
        (follow_seq-Stays uuid_unparse align lead trail room i seq b low v)
        (λ u c w.
          elim (Bool-cases (in_function b.proto == osdp_nak || in_function b.proto == osdp_busy)) [
            | inl refused ↦ rw refused (
                refuse_reply-Stays uuid_unparse align lead trail room i (in_function b.proto) seq c
                  low w)
            | inr accepted ↦
                rw accepted (accept_reply-Stays uuid_unparse align lead trail room i sent_msg n c w)
          ])

  take_reply-Stays :
      (i : ℕ) (sent_msg : Bool) (n : ℕ) (b : Bus)
      → Here i b
      → Stays ⊥ (Here i) (take_reply uuid_unparse align i sent_msg n b)
  unfolding take_reply
  take_reply-Stays i sent_msg n b v = with_slave-Stays uuid_unparse align lead trail i _ b v (λ s h.
      elim (Bool-cases (bit_and (in_addr b.proto) 0x7F == s.addr)) [
        | inl own ↦ rw own (follow_reply-Stays i sent_msg n b v)
        | inr other ↦ rw other v
      ])

  count_error-Here : (e : ProtoError) (i : ℕ) (b : Bus) → Here i b → Here i (count_error e b)
  unfolding count_error
  count_error-Here crc i b v =
      (record { slaves = v.0.slaves; place = v.0.place; line = v.0.line }, v.1)
  count_error-Here timeout i b v =
      (record { slaves = v.0.slaves; place = v.0.place; line = v.0.line }, v.1)
  count_error-Here _ i b v = v

  counted :
      (r : Reply) (i : ℕ) (b : Bus)
      → Here i b
      → Here i (elim r [ size n ↦ b | error e ↦ count_error e b ])
  counted (size n) i b v = v
  counted (error e) i b v = count_error-Here e i b v

  miss_reply-Stays :
      (i : ℕ) (r : Reply) (b : Bus)
      → Here i b
      → Stays ⊥ (Here i) (miss_reply uuid_unparse align i r b)
  unfolding miss_reply
  miss_reply-Stays i r b v =
      Stays-and_then ⊥ (Here i) (at_slave i (nak uuid_unparse align) b) _
        (at_slave-Stays uuid_unparse align lead trail i (nak uuid_unparse align) b
          (nak-Stays uuid_unparse align lead trail room) v)
        (λ u c w. counted r i c w)

  answer_Stays :
      (i : ℕ) (sent_msg : Bool) (r : Reply) (c : Bus)
      → Here i c
      → Stays ⊥ (Here i) (
          (elim r as (λ x. Cmd Bus Polled) [
            | size n ↦
                if ltb 0 n
                then take_reply uuid_unparse align i sent_msg n
                else miss_reply uuid_unparse align i (size n)
            | error e ↦ miss_reply uuid_unparse align i (error e)
          ])
            c)
  answer_Stays i sent_msg (error e) c w = miss_reply-Stays i (error e) c w
  answer_Stays i sent_msg (size n) c w = elim (Bool-cases (ltb 0 n)) [
    | inl some_bytes ↦ rw some_bytes (take_reply-Stays i sent_msg n c w)
    | inr no_bytes ↦ rw no_bytes (miss_reply-Stays i (size n) c w)
  ]

  await_reply-Stays :
      (i : ℕ) (sent_msg : Bool) (b : Bus)
      → Here i b
      → Stays ⊥ (Here i) (await_reply uuid_unparse align i sent_msg b)
  unfolding await_reply
  await_reply-Stays i sent_msg b v =
      Stays-and_then ⊥ (Here i) (on_line readcook b) _
        (on_line-Stays uuid_unparse align lead trail i readcook b (readcook-Stays lead trail) v)
        (answer_Stays i sent_msg)

  due_again-Stays : (i : ℕ) (s : Slave) (b : Bus) → Here i b → Stays ⊥ (Here i) (due_again s b)
  due_again-Stays i s b v = elim (Bool-cases (ltb 0 s.retry && ltb s.retry 32768)) [
    | inl waits ↦ rw waits (
        Stays-and_then ⊥ (Here i) (on_line clock_gettime b) _
          (clock-Stays uuid_unparse align lead trail room i b v) (λ now c w. w))
    | inr goes ↦ rw goes v
  ]

  poll_online-Stays :
      (i : ℕ) (s : Slave) (b : Bus)
      → Orderly s
      → Here i b
      → Stays ⊥ (Here i) (poll_online uuid_unparse align i s b)
  unfolding poll_online
  poll_online-Stays i s b h v =
      Stays-and_then ⊥ (Here i) (due_again s b) _ (due_again-Stays i s b v) polled
    where
      polled :
          (due : Bool) (c : Bus)
          → Here i c
          → Stays ⊥ (Here i) (
              (if due
                  then (send_to s (outgoing s)
                      >> await_reply uuid_unparse align i (not (is_empty s.msglist)))
                  else pure didnt_poll)
                c)
      polled true c w =
          Stays-and_then ⊥ (Here i) (send_to s (outgoing s) c) _
            (send_to-Stays uuid_unparse align lead trail room i s (outgoing s) c
              (outgoing-Sends uuid_unparse align lead trail room s h) w)
            (λ u d x. await_reply-Stays i (not (is_empty s.msglist)) d x)
      polled false c w = w

  poll_at-Stays :
      (i : ℕ) (s : Slave) (b : Bus)
      → Orderly s
      → Here i b
      → Stays ⊥ (Here i) (poll_at uuid_unparse align i s b)
  unfolding poll_at
  poll_at-Stays i s b h v = elim (Bool-cases (not (pollable align s))) [
    | inl never ↦ rw never v
    | inr can ↦ elim (Bool-cases (offline s)) [
      | inl off ↦
          rw (can, off)
            (Stays-and_then ⊥ (Here i) (poll_offline i b) _
              (poll_offline-Stays uuid_unparse align lead trail room i b v) asked)
      | inr on ↦ rw (can, on) (poll_online-Stays i s b h v)
    ]
  ]
    where
      asked :
          (sent : Bool) (c : Bus)
          → Here i c
          → Stays ⊥
              (Here i)
              ((if sent then await_reply uuid_unparse align i false else pure didnt_poll) c)
      asked true c w = await_reply-Stays i false c w
      asked false c w = w

  abbrev Steady : Bus → Type 0
  Steady b = IsSteady uuid_unparse align lead trail b

  pub slave_poll-Stays : (b : Bus) → Steady b → Stays ⊥ Steady (slave_poll uuid_unparse align b)
  unfolding slave_poll
  slave_poll-Stays b v =
      let (k, pos, le, chosen, found, skipped) = advance-round align b v.place in
      let n = (b.poll_slave + k) % length b.slaves in
      let inside : n < length b.slaves = mod-lt (b.poll_slave + k) (omega (arith, v.place)) in
      let c : Bus = record b { poll_slave = n } in
      let here : Here n c = (record { slaves = v.slaves; place = inside; line = v.line }, inside) in
      rw chosen (
        Stays-mono ⊥ ⊥ (Here n) Steady _
          (with_slave-Stays uuid_unparse align lead trail n (poll_at uuid_unparse align n) c here
            (λ s h. poll_at-Stays n s c h here))
          (λ bad. bad) (λ d w. w.0))
