-- ===== src/Bus.antt =====
-- osdpmaster.h and `busprotocol::slave_poll` of osdpmaster.cpp: the slaves on the bus, and one poll of
-- the next of them.
--
-- A slave is named by its place in `m_slaves`; the place behind the last is `end()`. The broker is
-- the list of what has been published to it.
pub mod Select
pub mod Poll
pub mod Invariant
pub mod Defined
pub mod Messages
pub mod Setup
use osdpmaster.Prelude.{
  ℕ, zero, suc, ◌+◌, ◌-◌, ◌*◌, ◌%◌, ◌^◌, Bool, true, false, not, ◌&&◌, ◌||◌, ◌==◌, List, [], ◌∷◌,
  ◌++◌, Option, none, some, leb, ltb, if◌then◌else◌, length, get_elem?, get_or, set, take, drop,
  Bytes, codes, decimal, ℤ, sub_ℕ, bit_and,
}
use osdpmaster.Katomic.{katomic_inc}
use osdpmaster.Run.{
  Run, Cmd, ok, throw, starved, fault, out_of_fuel, pure, and_then, ◌>>=◌, ◌>>◌, get, modify,
}
use osdpmaster.Blob.{content_start}
use osdpmaster.Timespec.{Timespec, timespec}
use osdpmaster.Protocol.{
  Protocol, SerialConfig, Reply, size, error, timeout, crc, ProtoError, clock_gettime, flush_input,
}
use osdpmaster.Protocol.Input.{readcook, in_addr, in_ctrl}
use osdpmaster.Protocol.Output.{writecook}
use osdpmaster.Slave.{
  Slave, Site, Publication, defined, offline, purge, next_seq, is_empty, first_of_queue, pop, ack,
  nak, construct, init,
}

pub record Bus : Type 0 where
  pub proto : Protocol
  pub slaves : List Slave
  pub poll_slave : ℕ
  pub msglist : List Bytes
  pub crc_count : ℕ
  pub timeout_count : ℕ
  pub published : List Publication
  pub port2 : Option Bytes

pub data Polled : Type 0 where
  did_poll didnt_poll : Polled

-- OSDP_POLL, and the replies that `slave_poll` tells apart.
abbrev pub osdp_poll : ℕ
osdp_poll = 0x60

abbrev pub osdp_ack : ℕ
osdp_ack = 0x40

abbrev pub osdp_nak : ℕ
osdp_nak = 0x41

abbrev pub osdp_busy : ℕ
osdp_busy = 0x79

-- The constructor of `busprotocol`, over that of `protocol`.
unfoldable pub start_bus : Protocol → Bus
start_bus p = record {
  proto = p;
  slaves = [];
  poll_slave = 0;
  msglist = [];
  crc_count = 0;
  timeout_count = 0;
  published = [];
  port2 = none;
}

-- A call of the serial protocol underneath.
abbrev pub on_line : {A : Type 0} → Cmd Protocol A → Cmd Bus A
on_line m b = elim (m b.proto) [
  | ok a p ↦ ok a (record b { proto = p })
  | throw e p ↦ throw e (record b { proto = p })
  | starved ↦ starved
  | fault ↦ fault
  | out_of_fuel ↦ out_of_fuel
]

-- The slave at a place; there is none behind the last.
unfoldable pub slave_or_fault : {A : Type 0} → Option Slave → (Slave → Cmd Bus A) → Cmd Bus A
slave_or_fault none k b = fault
slave_or_fault (some s) k b = k s b

abbrev pub with_slave : {A : Type 0} → ℕ → (Slave → Cmd Bus A) → Cmd Bus A
with_slave i k b = slave_or_fault (get_elem? b.slaves i) k b

unfoldable pub update_slave : ℕ → (Slave → Slave) → Cmd Bus (Unit {0})
update_slave i f = with_slave i λ s. modify λ b. record b { slaves = set b.slaves i (f s) }

abbrev pub site_of : Slave → Bus → Site
site_of s b = record {
  slave = s;
  clock = b.proto.clock;
  tick = b.proto.tick;
  published = b.published;
}

abbrev pub from_site : ℕ → Site → Bus → Bus
from_site i w b = record b {
  slaves = set b.slaves i w.slave;
  proto = record b.proto { tick = w.tick };
  published = w.published;
}

-- A call of a method of the slave at a place.
unfoldable pub back_from_site : ℕ → Bus → Run Site (Unit {0}) → Run Bus (Unit {0})
back_from_site i b (ok a w) = ok tt (from_site i w b)
back_from_site i b (throw e w) = throw e (from_site i w b)
back_from_site i b starved = starved
back_from_site i b fault = fault
back_from_site i b out_of_fuel = out_of_fuel

unfoldable pub at_slave : ℕ → Cmd Site (Unit {0}) → Cmd Bus (Unit {0})
at_slave i m = with_slave i λ s b. back_from_site i b (m (site_of s b))

-- `a->defined() && a->enabled()`
unfoldable pub pollable : ℕ → Slave → Bool
pollable align s = defined align s && s.enabled

abbrev pub pollable_at : ℕ → List Slave → ℕ → Bool
pollable_at align slaves i = elim (get_elem? slaves i) [ none ↦ false | some s ↦ pollable align s ]

-- `a++`, and back to the start behind the last.
abbrev pub next_place : ℕ → ℕ → ℕ
next_place count a = if a + 1 == count then 0 else a + 1

-- The loop over the places: it stops at the next slave that can be polled, or where it began.
unfoldable pub select : ℕ → ℕ → List Slave → ℕ → ℕ → Option ℕ
select zero align slaves start a = none
select (suc fuel) align slaves start a =
    let n = next_place (length slaves) a in
    let further = select fuel align slaves start n in
    if n == start then some n else if pollable_at align slaves n then some n else further

-- `m_poll_slave = a`; at `end()`, with no slaves, the increment is undefined.
unfoldable pub advance : ℕ → Cmd Bus ℕ
advance align b =
    let chosen = select (length b.slaves + 1) align b.slaves b.poll_slave b.poll_slave in
    if ltb b.poll_slave (length b.slaves)
    then elim chosen [ none ↦ out_of_fuel | some n ↦ ok n (record b { poll_slave = n }) ]
    else fault

-- A time is not yet reached.
abbrev pub before : Timespec → Timespec → Bool
before now due =
    ltb now.tv_sec due.tv_sec || (now.tv_sec == due.tv_sec && ltb now.tv_nsec due.tv_nsec)

-- A message for the slave at a place, behind a flush of stale input; the address of its content is that
-- of its first byte.
unfoldable pub send_to : Slave → Bytes → Cmd Bus (Unit {0})
send_to s msg = do
  on_line flush_input
  content_start msg
  n ← on_line (writecook s.addr s.txseq msg)
  pure tt

-- An offline slave: its queue is dropped, and it is polled once in five seconds. The result says
-- whether a poll was sent.
unfoldable pub poll_offline : ℕ → Cmd Bus Bool
poll_offline i = do
  update_slave i purge
  now ← on_line clock_gettime
  with_slave i λ s. if before now s.next_assign then pure false else (do
    update_slave i (λ t. record t { next_assign = timespec (now.tv_sec + 5) now.tv_nsec })
    send_to s (osdp_poll ∷ [])
    pure true)

-- An online slave that missed a poll waits for its time.
abbrev pub due_again : Slave → Cmd Bus Bool
due_again s b =
    if ltb 0 s.retry && ltb s.retry 32768
    then and_then (on_line clock_gettime b) (λ now b'. ok (not (before now s.next_poll)) b')
    else ok true b

-- What goes to an online slave: the first message of its queue, or a plain poll.
abbrev pub outgoing : Slave → Bytes
outgoing s = if is_empty s.msglist then osdp_poll ∷ [] else first_of_queue s.msglist

-- The publication of a reply: everything from the function byte on.
abbrev pub incoming : ℕ → Protocol → Publication
incoming n p = record {
  topic = codes "osdp/bus1/incoming/" ++ decimal (bit_and (in_addr p) 0x7F);
  len = sub_ℕ n 5;
  payload = take (n - 5) (drop 5 p.in_buffer);
  retain = false;
}

-- The function byte of a reply, and its sequence number.
abbrev pub in_function : Protocol → ℕ
in_function p = get_or p.in_buffer 5 0

abbrev pub in_seq : Protocol → ℕ
in_seq p = bit_and (in_ctrl p) 0x03

-- NAK or BUSY: the message stays in the queue; NAK starts the sequence numbers anew.
unfoldable pub refuse_reply : ℕ → ℕ → ℕ → Cmd Bus Polled
refuse_reply i code seq = do
  update_slave i
      (λ s. record s { txseq = if code == osdp_nak then 0 else s.txseq; rxseq = next_seq seq })
  pure did_poll

-- The sequence number of a reply counts where either side has just started.
abbrev pub follow_seq : ℕ → Slave → Slave
follow_seq seq s = record s { rxseq = if s.rxseq == 0 || seq == 0 then next_seq seq else s.rxseq }

-- A reply that did not come, or came damaged.
unfoldable pub count_error : ProtoError → Bus → Bus
count_error crc b = record b { crc_count = (katomic_inc b.crc_count).0 }
count_error timeout b = record b { timeout_count = (katomic_inc b.timeout_count).0 }
count_error _ b = b

module _ (uuid_unparse : Bytes → Bytes) (align : ℕ) where
  -- A reply that is neither NAK nor BUSY; `sent_msg` says that the first message of the queue was sent.
  unfoldable pub accept_reply : ℕ → Bool → ℕ → Cmd Bus Polled
  accept_reply i sent_msg n = do
    at_slave i (ack uuid_unparse align)
    (if sent_msg then update_slave i pop else pure tt)
    modify (λ b.
        if in_function b.proto == osdp_ack
        then b
        else record b { published = b.published ++ incoming n b.proto ∷ [] })
    pure did_poll

  -- A reply that is no error. One from another address is ignored.
  unfoldable pub take_reply : ℕ → Bool → ℕ → Cmd Bus Polled
  take_reply i sent_msg n = with_slave i λ s b.
      let seq = in_seq b.proto in
      let code = in_function b.proto in
      let answered =
        (update_slave i (follow_seq seq)
            >> (if code == osdp_nak || code == osdp_busy
                then refuse_reply i code seq
                else accept_reply i sent_msg n))
          b in
      if bit_and (in_addr b.proto) 0x7F == s.addr then answered else ok did_poll b

  unfoldable pub miss_reply : ℕ → Reply → Cmd Bus Polled
  miss_reply i r = do
    at_slave i (nak uuid_unparse align)
    modify (λ b. elim r [ size n ↦ b | error e ↦ count_error e b ])
    pure did_poll

  -- What follows a message that was sent.
  unfoldable pub await_reply : ℕ → Bool → Cmd Bus Polled
  await_reply i sent_msg = do
    r ← on_line readcook
    elim r [
      | size n ↦ if ltb 0 n then take_reply i sent_msg n else miss_reply i (size n)
      | error e ↦ miss_reply i (error e)
    ]

  unfoldable pub poll_online : ℕ → Slave → Cmd Bus Polled
  poll_online i s = do
    due ← due_again s
    if due
        then (send_to s (outgoing s) >> await_reply i (not (is_empty s.msglist)))
        else pure didnt_poll

  unfoldable pub poll_at : ℕ → Slave → Cmd Bus Polled
  poll_at i s =
      if not (pollable align s)
      then pure didnt_poll
      else if offline s
      then (poll_offline i >>= λ sent. if sent then await_reply i false else pure didnt_poll)
      else poll_online i s

  -- `slave_poll`
  unfoldable pub slave_poll : Cmd Bus Polled
  slave_poll = do i ← advance align; with_slave i (poll_at i)
