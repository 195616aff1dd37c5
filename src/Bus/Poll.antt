-- ===== src/Bus/Poll.antt =====
-- What `slave_poll` makes of a reply: the answers of `take_reply` of `busprotocol`.
use osdpmaster.Prelude.{
  ℕ, ◌≡◌, ◌<◌, bit_and_3, ap, Bool, true, ◌||◌, ◌==◌, List, [], ◌∷◌, ◌++◌, some, arith, Bool-cases,
  inl, inr, get_elem?, set, get_elem?-set_self, set-set, if◌then◌else◌, Bytes, bit_and,
}
use osdpmaster.Run.{Cmd, ok}
use osdpmaster.Protocol.Input.{in_addr, in_ctrl}
use osdpmaster.Slave.{Slave, Site, Publication, next_seq, rest_of_queue, status, offline, pop, ack}
use osdpmaster.Slave.Retries.{IsValid, ack_lem}
use osdpmaster.Bus.{
  Bus, did_poll, osdp_ack, osdp_nak, osdp_busy, in_seq, in_function, incoming, follow_seq,
  take_reply, refuse_reply, accept_reply, update_slave, slave_or_fault, at_slave, back_from_site,
  site_of, from_site,
}

pub update_slave_lem :
    (i : ℕ) (f : Slave → Slave) (b : Bus) (s : Slave)
    → get_elem? b.slaves i ≡ some s
    → update_slave i f b ≡ ok tt (record b { slaves = set b.slaves i (f s) })
unfolding update_slave slave_or_fault
update_slave_lem i f b s here = rw here

pub at_slave_lem :
    (i : ℕ) (m : Cmd Site (Unit {0})) (b : Bus) (s : Slave) (w : Site)
    → get_elem? b.slaves i ≡ some s
    → m (site_of s b) ≡ ok tt w
    → at_slave i m b ≡ ok tt (from_site i w b)
unfolding at_slave slave_or_fault back_from_site
at_slave_lem i m b s w here e = rw (here, e)

module _ (uuid_unparse : Bytes → Bytes) (align i n : ℕ) (sent_msg : Bool) (b : Bus) (s : Slave)
    (here : get_elem? b.slaves i ≡ some s) where
  -- Where a reply comes from, what it says, and its sequence number.
  abbrev pub from : ℕ
  from = bit_and (in_addr b.proto) 0x7F

  abbrev pub code : ℕ
  code = in_function b.proto

  abbrev pub seq : ℕ
  seq = in_seq b.proto

  -- The bus behind a NAK or a BUSY.
  abbrev pub refused : Bus
  refused = record b {
    slaves =
        set b.slaves i
          (record s { txseq = if code == osdp_nak then 0 else s.txseq; rxseq = next_seq seq });
  }

  -- The slave behind any other reply, and what has been published by then.
  abbrev pub answered : Slave
  answered = record s {
    txseq = next_seq s.txseq;
    rxseq = if s.rxseq == 0 || seq == 0 then next_seq seq else s.rxseq;
    retry = 0;
    msglist = if sent_msg then rest_of_queue s.msglist else s.msglist;
  }

  abbrev pub told : List Publication
  told =
      let news =
        if offline s then b.published ++ status uuid_unparse align s true ∷ [] else b.published in
      if code == osdp_ack then news else news ++ incoming n b.proto ∷ []

  abbrev pub accepted : Bus
  accepted = record b { slaves = set b.slaves i answered; published = told }

  refuse_reply_lem :
      let b' : Bus = record b { slaves = set b.slaves i (follow_seq seq s) } in
      refuse_reply i code seq b' ≡ ok did_poll refused
  unfolding refuse_reply
  refuse_reply_lem =
      let e =
        update_slave_lem i
          (λ t. record t { txseq = if code == osdp_nak then 0 else t.txseq; rxseq = next_seq seq })
          (record b { slaves = set b.slaves i (follow_seq seq s) }) (follow_seq seq s)
          (get_elem?-set_self b.slaves i s _ here) in
      rw e (ap (λ l. ok did_poll (record b { slaves = l })) (set-set b.slaves i _ _))

  seq_in_range : seq < 4
  seq_in_range = bit_and_3 (in_ctrl b.proto)

  rx_in_range : s.rxseq < 4 → (follow_seq seq s).rxseq < 4
  unfolding next_seq
  rx_in_range rx = ground (arith, rx, seq_in_range)

  -- The slave and the broker behind `ack`.
  abbrev site : Site
  site = site_of (follow_seq seq s) (record b { slaves = set b.slaves i (follow_seq seq s) })

  abbrev acked : Site
  acked = record site {
    slave = record (follow_seq seq s) { txseq = next_seq s.txseq; retry = 0 };
    published =
        if offline s then b.published ++ status uuid_unparse align s true ∷ [] else b.published;
  }

  ack-site : IsValid uuid_unparse align s → ack uuid_unparse align site ≡ ok tt acked
  unfolding offline status
  ack-site v =
      let v' : IsValid uuid_unparse align site.slave = record {
        retries = v.retries;
        tx = v.tx;
        rx = rx_in_range v.rx;
        address = v.address;
        name = v.name;
      } in
      (ack_lem uuid_unparse align site v').0

  accept_reply_lem :
      IsValid uuid_unparse align s
      → let b' : Bus = record b { slaves = set b.slaves i (follow_seq seq s) } in
        accept_reply uuid_unparse align i sent_msg n b' ≡ ok did_poll accepted
  unfolding accept_reply
  accept_reply_lem v =
      let b' : Bus = record b { slaves = set b.slaves i (follow_seq seq s) } in
      let e =
        at_slave_lem i (ack uuid_unparse align) b' (follow_seq seq s) acked
          (get_elem?-set_self b.slaves i s (follow_seq seq s) here) (ack-site v) in
      let again = set-set b.slaves i (follow_seq seq s) acked.slave in
      elim (Bool-cases sent_msg) [
        | inl sent ↦
            let popped =
              update_slave_lem i pop
                (record b { slaves = set b.slaves i acked.slave; published = acked.published })
                acked.slave (get_elem?-set_self b.slaves i s acked.slave here) in
            let same = set-set b.slaves i acked.slave (pop acked.slave) in
            elim (Bool-cases (code == osdp_ack)) [
              | inl plain ↦ rw (e, sent, again, popped, same, plain)
              | inr more ↦ rw (e, sent, again, popped, same, more)
            ]
        | inr not_sent ↦ elim (Bool-cases (code == osdp_ack)) [
          | inl plain ↦ rw (e, not_sent, again, plain)
          | inr more ↦ rw (e, not_sent, again, more)
        ]
      ]

  -- `slave_poll` on a reply that is no error, to a slave `s` at place `i` whose fields are in range.
  -- A reply from another address changes nothing. NAK and BUSY keep the message in the queue and
  -- publish nothing, and NAK alone sets the slave's sequence number back to 0. Any other reply is an
  -- answer: the slave is online with its next sequence number, the message that was sent leaves the
  -- queue, the broker is told if the slave was offline, and the reply is published unless it is a
  -- plain ACK.
  pub take_reply_lem :
      IsValid uuid_unparse align s
      → take_reply uuid_unparse align i sent_msg n b
        ≡ ok did_poll (
            if from == s.addr
            then (if code == osdp_nak || code == osdp_busy then refused else accepted)
            else b)
  unfolding take_reply slave_or_fault
  take_reply_lem v =
      let e = update_slave_lem i (follow_seq seq) b s here in
      elim (Bool-cases (from == s.addr)) [
        | inr stranger ↦ rw (here, stranger)
        | inl own ↦ elim (Bool-cases (code == osdp_nak || code == osdp_busy)) [
          | inl refusal ↦ rw (here, own, e, refusal) refuse_reply_lem
          | inr answer ↦ rw (here, own, e, answer) (accept_reply_lem v)
        ]
      ]
