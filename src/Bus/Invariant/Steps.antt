-- ===== src/Bus/Invariant/Steps.antt =====
-- What is sent to a slave, and what is made of its reply, leaves the bus sound.
use osdpmaster.Prelude.{
  ℕ, ◌+◌, ◌≤◌, ◌<◌, Bool, true, false, ◌==◌, [], ◌∷◌, ◌++◌, if◌then◌else◌, leb, get_elem?, Bytes,
  arith, Bool-cases, inl, inr,
}
use osdpmaster.Run.{pure, ◌>>◌, Keeps, Keeps-and_then}
use osdpmaster.Timespec.{Timespec, timespec}
use osdpmaster.Protocol.{clock_gettime, flush_input}
use osdpmaster.Protocol.Output.{writecook}
use osdpmaster.Slave.{Slave, Site, next_seq, purge, pop, ack, nak, retry_max}
use osdpmaster.Slave.Retries.{IsValid, ack_lem, nak_lem, next_seq_cycle}
use osdpmaster.Blob.{content_start}
use osdpmaster.Bus.{
  Bus, osdp_poll, osdp_ack, osdp_nak, in_function, incoming, on_line, update_slave, at_slave,
  send_to, poll_offline, before, refuse_reply, accept_reply,
}
use osdpmaster.Bus.Invariant.{
  IsSound, on_line-IsSound, update_slave-IsSound, at_slave-IsSound, with_slave-IsSound,
}

zero_or_lt : (b : Bool) (n : ℕ) → n < 4 → (if b then 0 else n) < 4
zero_or_lt true n h = omega arith
zero_or_lt false n h = h

pub content_start-Keeps :
    {S : Type 0} (P : S → Type 0) (bs : Bytes) (s : S) → P s → Keeps P (content_start bs s)
unfolding content_start
content_start-Keeps P [] s h = tt
content_start-Keeps P (b ∷ bs) s h = h

module _ (uuid_unparse : Bytes → Bytes) (align : ℕ) where
  abbrev Sound : Bus → Type 0
  Sound b = IsSound uuid_unparse align b

  pub send_to-IsSound :
      (s : Slave) (msg : Bytes) (b : Bus) → Sound b → Keeps Sound (send_to s msg b)
  unfolding send_to
  send_to-IsSound s msg b v =
      Keeps-and_then Sound (on_line flush_input b) _
        (on_line-IsSound uuid_unparse align flush_input b v)
        (λ u c w.
          Keeps-and_then Sound (content_start msg c) _ (content_start-Keeps Sound msg c w) (λ a d y.
            Keeps-and_then Sound (on_line (writecook s.addr s.txseq msg) d) _
              (on_line-IsSound uuid_unparse align (writecook s.addr s.txseq msg) d y) (λ n e x. x)))

  -- An offline slave is polled if its time has come.
  poll_due-IsSound :
      (i : ℕ) (now : Timespec) (s : Slave) (b : Bus)
      → Sound b
      → Keeps Sound (
          (if before now s.next_assign then pure false else (do
            update_slave i (λ t. record t { next_assign = timespec (now.tv_sec + 5) now.tv_nsec })
            send_to s (osdp_poll ∷ [])
            pure true))
            b)
  poll_due-IsSound i now s b v = elim (Bool-cases (before now s.next_assign)) [
    | inl early ↦ rw early v
    | inr due ↦ rw due (
        Keeps-and_then Sound _ _
          (update_slave-IsSound uuid_unparse align i
            (λ t. record t { next_assign = timespec (now.tv_sec + 5) now.tv_nsec }) b
            (λ t valid. record {
              retries = valid.retries;
              tx = valid.tx;
              rx = valid.rx;
              address = valid.address;
              name = valid.name;
            })
            v)
          (λ u c w.
            Keeps-and_then Sound (send_to s (osdp_poll ∷ []) c) _ (send_to-IsSound s _ c w)
              (λ x d y. y)))
  ]

  pub poll_offline-IsSound : (i : ℕ) (b : Bus) → Sound b → Keeps Sound (poll_offline i b)
  unfolding poll_offline purge
  poll_offline-IsSound i b v =
      Keeps-and_then Sound (update_slave i purge b) _
        (update_slave-IsSound uuid_unparse align i purge b
          (λ s valid. record {
            retries = valid.retries;
            tx = valid.tx;
            rx = valid.rx;
            address = valid.address;
            name = valid.name;
          })
          v)
        (λ u c w.
          Keeps-and_then Sound (on_line clock_gettime c) _
            (on_line-IsSound uuid_unparse align clock_gettime c w)
            (λ now d x.
              with_slave-IsSound uuid_unparse align (get_elem? d.slaves i) _ d
                (λ s. poll_due-IsSound i now s d x)))

  pub ack-IsValid :
      (w : Site)
      → IsValid uuid_unparse align w.slave
      → Keeps (λ x. IsValid uuid_unparse align x.slave) (ack uuid_unparse align w)
  ack-IsValid w valid = let l = ack_lem uuid_unparse align w valid in rw l.0 l.2

  pub nak-IsValid :
      (w : Site)
      → IsValid uuid_unparse align w.slave
      → Keeps (λ x. IsValid uuid_unparse align x.slave) (nak uuid_unparse align w)
  nak-IsValid w valid =
      rw (nak_lem uuid_unparse align w valid) (elim (Bool-cases (leb retry_max w.slave.retry)) [
        | inl off ↦ rw off valid
        | inr on ↦
            let more : w.slave.retry + 1 ≤ retry_max + 1 = ground (arith, valid.retries) in
            elim (Bool-cases (w.slave.retry == 9)) [
              | inl last ↦
                  rw (on, last)
                    (record {
                      retries = more;
                      tx = valid.tx;
                      rx = valid.rx;
                      address = valid.address;
                      name = valid.name;
                    })
              | inr other ↦
                  rw (on, other)
                    (record {
                      retries = more;
                      tx = valid.tx;
                      rx = valid.rx;
                      address = valid.address;
                      name = valid.name;
                    })
            ]
      ])

  pop_sent-IsSound :
      (i : ℕ) (sent_msg : Bool) (b : Bus)
      → Sound b
      → Keeps Sound ((if sent_msg then update_slave i pop else pure tt) b)
  pop_sent-IsSound i true b v =
      update_slave-IsSound uuid_unparse align i pop b
        (λ s valid. record {
          retries = valid.retries;
          tx = valid.tx;
          rx = valid.rx;
          address = valid.address;
          name = valid.name;
        })
        v
  pop_sent-IsSound i false b v = v

  published-IsSound :
      (acked : Bool) (n : ℕ) (b : Bus)
      → Sound b
      → Sound (if acked then b else record b { published = b.published ++ incoming n b.proto ∷ [] })
  published-IsSound true n b v = v
  published-IsSound false n b v = record { slaves = v.slaves; place = v.place }

  pub accept_reply-IsSound :
      (i : ℕ) (sent_msg : Bool) (n : ℕ) (b : Bus)
      → Sound b
      → Keeps Sound (accept_reply uuid_unparse align i sent_msg n b)
  unfolding accept_reply
  accept_reply-IsSound i sent_msg n b v =
      Keeps-and_then Sound (at_slave i (ack uuid_unparse align) b) _
        (at_slave-IsSound uuid_unparse align i (ack uuid_unparse align) b ack-IsValid v)
        (λ u c w.
          Keeps-and_then Sound ((if sent_msg then update_slave i pop else pure tt) c) _
            (pop_sent-IsSound i sent_msg c w)
            (λ x d y. published-IsSound (in_function d.proto == osdp_ack) n d y))

  pub next_seq-lt : (seq : ℕ) → seq < 4 → next_seq seq < 4
  next_seq-lt seq low = let (above, below, moves, cycle) = next_seq_cycle seq low in omega arith

  pub refuse_reply-IsSound :
      (i code seq : ℕ) (b : Bus) → seq < 4 → Sound b → Keeps Sound (refuse_reply i code seq b)
  unfolding refuse_reply
  refuse_reply-IsSound i code seq b low v =
      Keeps-and_then Sound _ _
        (update_slave-IsSound uuid_unparse align i
          (λ s. record s { txseq = if code == osdp_nak then 0 else s.txseq; rxseq = next_seq seq })
          b
          (λ s valid. record {
            retries = valid.retries;
            tx = zero_or_lt (code == osdp_nak) s.txseq valid.tx;
            rx = next_seq-lt seq low;
            address = valid.address;
            name = valid.name;
          })
          v)
        (λ u c w. w)
