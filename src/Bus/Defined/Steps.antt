-- ===== src/Bus/Defined/Steps.antt =====
-- What is sent to a slave, and what is made of its reply, stays defined.
use osdpmaster.Prelude.{
  ℕ, ◌+◌, ◌≤◌, ◌<◌, Bool, true, false, List, [], ◌∷◌, ◌++◌, ◌==◌, ◌||◌, if◌then◌else◌, Bytes, arith,
  Bool-cases, inl, inr, All, leb,
}
use osdpmaster.Run.{pure, ◌>>◌, Stays, Stays-and_then}
use osdpmaster.Timespec.{Timespec, timespec}
use osdpmaster.Protocol.{clock_gettime, flush_input, slave_buff_size}
use osdpmaster.Protocol.Output.{writecook}
use osdpmaster.Protocol.Output.Defined.{writecook-Stays, flush_input-Stays, clock_gettime-Stays}
use osdpmaster.Slave.{
  Slave, Site, next_seq, purge, pop, ack, nak, is_empty, first_of_queue, rest_of_queue, retry_max,
}
use osdpmaster.Slave.Retries.{ack_lem, nak_lem}
use osdpmaster.Blob.Calls.{content_start-some}
use osdpmaster.Bus.{
  Bus, osdp_poll, osdp_ack, osdp_nak, in_function, incoming, on_line, update_slave, at_slave,
  send_to, poll_offline, before, outgoing, refuse_reply, follow_seq, accept_reply,
}
use osdpmaster.Bus.Invariant.Steps.{next_seq-lt}
use osdpmaster.Bus.Defined.{
  IsOrderly, At, on_line-Stays, with_slave-Stays, update_slave-Stays, at_slave-Stays,
  IsOrderly-with, Sends,
}

-- The rest of a queue, and its first message, are of the queue.
All-rest : (P : Bytes → Type 0) (q : List Bytes) → All P q → All P (rest_of_queue q)
All-rest P [] h = h
All-rest P (m ∷ ms) h = h.1

outgoing_all :
    (P : Bytes → Type 0) (q : List Bytes)
    → All P q
    → P (osdp_poll ∷ [])
    → P (if is_empty q then osdp_poll ∷ [] else first_of_queue q)
outgoing_all P [] h p = p
outgoing_all P (m ∷ ms) h p = h.0

chosen-lt : (b : Bool) (m n : ℕ) → m < 4 → n < 4 → (if b then m else n) < 4
chosen-lt true m n h k = h
chosen-lt false m n h k = k

module _ (uuid_unparse : Bytes → Bytes) (align lead trail : ℕ)
    (room : lead + 8 + trail ≤ slave_buff_size) where
  abbrev Orderly : Slave → Type 0
  Orderly s = IsOrderly uuid_unparse align lead trail s

  abbrev Here : ℕ → Bus → Type 0
  Here i b = At uuid_unparse align lead trail i b

  poll-Sends : Sends lead trail (osdp_poll ∷ [])
  poll-Sends = (omega arith, omega (arith, room))

  pub outgoing-Sends : (s : Slave) → Orderly s → Sends lead trail (outgoing s)
  outgoing-Sends s h = outgoing_all (Sends lead trail) s.msglist h.queue poll-Sends

  pub send_to-Stays :
      (i : ℕ) (s : Slave) (msg : Bytes) (b : Bus)
      → Sends lead trail msg
      → Here i b
      → Stays ⊥ (Here i) (send_to s msg b)
  unfolding send_to
  send_to-Stays i s msg b fits v =
      Stays-and_then ⊥ (Here i) (on_line flush_input b) _
        (on_line-Stays uuid_unparse align lead trail i flush_input b (flush_input-Stays lead trail)
          v)
        (λ u c w. rw (content_start-some msg c fits.0) (
          Stays-and_then ⊥ (Here i) (on_line (writecook s.addr s.txseq msg) c) _
            (on_line-Stays uuid_unparse align lead trail i (writecook s.addr s.txseq msg) c
              (λ p. writecook-Stays lead trail s.addr s.txseq msg p fits.1) w)
            (λ n d x. x)))

  pub clock-Stays : (i : ℕ) (b : Bus) → Here i b → Stays ⊥ (Here i) (on_line clock_gettime b)
  clock-Stays i b v =
      on_line-Stays uuid_unparse align lead trail i clock_gettime b (clock_gettime-Stays lead trail)
        v

  -- An offline slave is polled if its time has come.
  poll_due-Stays :
      (i : ℕ) (now : Timespec) (s : Slave) (b : Bus)
      → Here i b
      → Stays ⊥ (Here i) (
          (if before now s.next_assign then pure false else (do
            update_slave i (λ t. record t { next_assign = timespec (now.tv_sec + 5) now.tv_nsec })
            send_to s (osdp_poll ∷ [])
            pure true))
            b)
  poll_due-Stays i now s b v = elim (Bool-cases (before now s.next_assign)) [
    | inl early ↦ rw early v
    | inr due ↦ rw due (
        Stays-and_then ⊥ (Here i) _ _
          (update_slave-Stays uuid_unparse align lead trail i
            (λ t. record t { next_assign = timespec (now.tv_sec + 5) now.tv_nsec }) b
            (λ t h. IsOrderly-with uuid_unparse align lead trail t t.msglist _ t.enabled h h.queue)
            v)
          (λ u c w.
            Stays-and_then ⊥ (Here i) (send_to s (osdp_poll ∷ []) c) _
              (send_to-Stays i s _ c poll-Sends w) (λ x d y. y)))
  ]

  pub poll_offline-Stays : (i : ℕ) (b : Bus) → Here i b → Stays ⊥ (Here i) (poll_offline i b)
  unfolding poll_offline purge
  poll_offline-Stays i b v =
      Stays-and_then ⊥ (Here i) (update_slave i purge b) _
        (update_slave-Stays uuid_unparse align lead trail i purge b
          (λ s h. IsOrderly-with uuid_unparse align lead trail s [] s.next_assign s.enabled h tt) v)
        (λ u c w.
          Stays-and_then ⊥ (Here i) (on_line clock_gettime c) _ (clock-Stays i c w) (λ now d x.
            with_slave-Stays uuid_unparse align lead trail i _ d x
              (λ s h. poll_due-Stays i now s d x)))

  ack-Stays :
      (w : Site) → Orderly w.slave → Stays ⊥ (λ x. Orderly x.slave) (ack uuid_unparse align w)
  ack-Stays w h =
      let l = ack_lem uuid_unparse align w h.valid in
      rw l.0 (record { valid = l.2; queue = h.queue })

  counted :
      (s : Slave) (t : Timespec)
      → s.retry ≤ retry_max
      → Orderly s
      → Orderly (record s { retry = s.retry + 1; next_poll = t })
  counted s t le h = record {
    valid = record {
      retries = omega arith;
      tx = h.valid.tx;
      rx = h.valid.rx;
      address = h.valid.address;
      name = h.valid.name;
    };
    queue = h.queue;
  }

  pub nak-Stays :
      (w : Site) → Orderly w.slave → Stays ⊥ (λ x. Orderly x.slave) (nak uuid_unparse align w)
  nak-Stays w h =
      rw (nak_lem uuid_unparse align w h.valid) (elim (Bool-cases (leb retry_max w.slave.retry)) [
        | inl off ↦ rw off h
        | inr on ↦ elim (Bool-cases (w.slave.retry == 9)) [
          | inl last ↦ rw (on, last) (counted w.slave w.slave.next_poll (ground arith) h)
          | inr other ↦ rw (on, other) (counted w.slave _ (ground arith) h)
        ]
      ])

  pop_sent-Stays :
      (i : ℕ) (sent_msg : Bool) (b : Bus)
      → Here i b
      → Stays ⊥ (Here i) ((if sent_msg then update_slave i pop else pure tt) b)
  pop_sent-Stays i true b v =
      update_slave-Stays uuid_unparse align lead trail i pop b
        (λ s h.
          IsOrderly-with uuid_unparse align lead trail s (rest_of_queue s.msglist) s.next_assign
            s.enabled h (All-rest _ s.msglist h.queue))
        v
  pop_sent-Stays i false b v = v

  told :
      (acked : Bool) (i n : ℕ) (b : Bus)
      → Here i b
      → Here i
          (if acked then b else record b { published = b.published ++ incoming n b.proto ∷ [] })
  told true i n b v = v
  told false i n b v = (record { slaves = v.0.slaves; place = v.0.place; line = v.0.line }, v.1)

  pub accept_reply-Stays :
      (i : ℕ) (sent_msg : Bool) (n : ℕ) (b : Bus)
      → Here i b
      → Stays ⊥ (Here i) (accept_reply uuid_unparse align i sent_msg n b)
  unfolding accept_reply
  accept_reply-Stays i sent_msg n b v =
      Stays-and_then ⊥ (Here i) (at_slave i (ack uuid_unparse align) b) _
        (at_slave-Stays uuid_unparse align lead trail i (ack uuid_unparse align) b ack-Stays v)
        (λ u c w.
          Stays-and_then ⊥ (Here i) ((if sent_msg then update_slave i pop else pure tt) c) _
            (pop_sent-Stays i sent_msg c w)
            (λ x d y. told (in_function d.proto == osdp_ack) i n d y))

  numbered :
      (s : Slave) (tx rx : ℕ)
      → tx < 4
      → rx < 4
      → Orderly s
      → Orderly (record s { txseq = tx; rxseq = rx })
  numbered s tx rx low low' h = record {
    valid = record {
      retries = h.valid.retries;
      tx = low;
      rx = low';
      address = h.valid.address;
      name = h.valid.name;
    };
    queue = h.queue;
  }

  pub refuse_reply-Stays :
      (i code seq : ℕ) (b : Bus) → seq < 4 → Here i b → Stays ⊥ (Here i) (refuse_reply i code seq b)
  unfolding refuse_reply
  refuse_reply-Stays i code seq b low v =
      Stays-and_then ⊥ (Here i) _ _
        (update_slave-Stays uuid_unparse align lead trail i
          (λ s. record s { txseq = if code == osdp_nak then 0 else s.txseq; rxseq = next_seq seq })
          b
          (λ s h.
            numbered s _ _ (chosen-lt (code == osdp_nak) 0 s.txseq (omega arith) h.valid.tx)
              (next_seq-lt uuid_unparse align seq low) h)
          v)
        (λ u c w. w)

  pub follow_seq-Stays :
      (i seq : ℕ) (b : Bus)
      → seq < 4
      → Here i b
      → Stays ⊥ (Here i) (update_slave i (follow_seq seq) b)
  follow_seq-Stays i seq b low v =
      update_slave-Stays uuid_unparse align lead trail i (follow_seq seq) b
        (λ s h.
          numbered s s.txseq _ h.valid.tx
            (chosen-lt (s.rxseq == 0 || seq == 0) (next_seq seq) s.rxseq
              (next_seq-lt uuid_unparse align seq low) h.valid.rx)
            h)
        v
