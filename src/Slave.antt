-- ===== src/Slave.antt =====
-- osdpslave.h, osdpslave.cpp and the queue of sync_queue.h that a slave holds: the master's view of
-- one device on the bus.
--
-- A queue is the list of its blobs, oldest first. What a slave's methods touch besides the slave is the
-- clock and the broker, to which messages are published: together they are a `Site`.
pub mod Zero
pub mod Retries
use osdpmaster.Prelude.{
  ℕ, zero, suc, ◌+◌, ◌-◌, ◌*◌, ◌%◌, ◌≡◌, Bool, true, false, not, ◌&&◌, ◌||◌, ◌==◌, List, [], ◌∷◌,
  ◌++◌, leb, ltb, if◌then◌else◌, length, replicate, Bytes, codes, decimal, ℤ, pos,
}
use osdpmaster.Run.{Run, Cmd, ok, fault, pure, and_then, ◌>>=◌, ◌>>◌, get, modify}
use osdpmaster.Timespec.{Timespec, timespec, second}

-- A call of mosquitto_publish: topic, length and bytes of the payload, whether the broker retains it.
pub record Publication : Type 0 where
  pub topic : Bytes
  pub len : ℤ
  pub payload : Bytes
  pub retain : Bool

-- `m_retry` is the bit pattern of an int16_t.
pub record Slave : Type 0 where
  pub retry : ℕ
  pub next_assign : Timespec
  pub next_poll : Timespec
  pub msglist : List Bytes
  pub uuid : Bytes
  pub addr : ℕ
  pub txseq : ℕ
  pub rxseq : ℕ
  pub enabled : Bool
  pub setrtc : Bool

pub record Site : Type 0 where
  pub slave : Slave
  pub clock : ℕ → Timespec
  pub tick : ℕ
  pub published : List Publication

abbrev pub retry_max : ℕ
retry_max = 10

-- `next_seq`, on a uint8_t.
unfoldable pub next_seq : ℕ → ℕ
next_seq seq = if seq == 3 then 1 else (seq + 1) % 256

-- `mem_zero`: single bytes up to an address that is a multiple of 8, then words of four bytes, then
-- single bytes. `align` is the address of the first byte.
unfoldable pub zero_bytes : Bytes → Bool
zero_bytes [] = true
zero_bytes (b ∷ bs) = let rest = zero_bytes bs in if b == 0 then rest else false

unfoldable pub zero_words : Bytes → Bool
unfolding zero_bytes
zero_words (a ∷ b ∷ c ∷ d ∷ bs) =
    let rest = zero_words bs in if a + b * 256 + c * 65536 + d * 16777216 == 0 then rest else false
zero_words bs = zero_bytes bs

unfoldable pub mem_zero : ℕ → Bytes → Bool
unfolding zero_words
mem_zero align [] = zero_words []
mem_zero align (b ∷ bs) =
    let rest = mem_zero (align + 1) bs in
    if align % 8 == 0 then zero_words (b ∷ bs) else if b == 0 then rest else false

-- sizeof(uuid_t)
abbrev pub no_uuid : Bytes
no_uuid = replicate 16 0

-- The constructor; it leaves `m_next_poll` unset.
unfoldable pub construct : Timespec → Slave
construct unset = record {
  retry = retry_max + 1;
  next_assign = timespec 0 0;
  next_poll = unset;
  msglist = [];
  uuid = no_uuid;
  addr = 0xFF;
  txseq = 0;
  rxseq = 0;
  enabled = true;
  setrtc = false;
}

unfoldable pub purge : Slave → Slave
purge s = record s { msglist = [] }

unfoldable pub retire : Slave → Slave
unfolding purge
retire s = record (purge s) { uuid = no_uuid; addr = 0xFF; retry = retry_max + 1 }

unfoldable pub init : Slave → Slave
unfolding purge
init s = record (purge s) { retry = retry_max + 1 }

-- `push`, `front` and `pop`; a `front` of the empty queue is a null blob. A `pop` of it, which
-- is undefined in C++, leaves it empty here; `slave_poll` pops only where it has sent a message.
abbrev pub push : Bytes → Slave → Slave
push msg s = record s { msglist = s.msglist ++ msg ∷ [] }

abbrev pub first_of_queue : List Bytes → Bytes
first_of_queue [] = []
first_of_queue (m ∷ ms) = m

abbrev pub rest_of_queue : List Bytes → List Bytes
rest_of_queue [] = []
rest_of_queue (m ∷ ms) = ms

abbrev pub is_empty : List Bytes → Bool
is_empty [] = true
is_empty (m ∷ ms) = false

abbrev pub pop : Slave → Slave
pop s = record s { msglist = rest_of_queue s.msglist }

-- `enabled(yn)`
abbrev pub set_enabled : Bool → Slave → Slave
set_enabled yn s = record s { enabled = yn }

-- `set_uuid`, with the 16 bytes of a uuid.
abbrev pub set_uuid : Bytes → Slave → Slave
set_uuid u s = record s { uuid = u }

-- `offline`: a comparison of signed numbers.
unfoldable pub offline : Slave → Bool
offline s = leb retry_max s.retry && ltb s.retry 32768

-- `align` is the address of the array of the uuid; the result does not depend on it.
unfoldable pub defined : ℕ → Slave → Bool
defined align s = not (s.addr == 0xFF) || not (mem_zero align s.uuid)

-- `clock_gettime`
unfoldable pub site_clock : Cmd Site Timespec
site_clock w = ok (w.clock w.tick) (record w { tick = w.tick + 1 })

abbrev pub change : (Slave → Slave) → Cmd Site (Unit {0})
change f = modify (λ w. record w { slave = f w.slave })

-- The next try is due 10 ms after a miss.
unfoldable pub ten_ms_after : Timespec → Timespec
ten_ms_after now =
    let n = now.tv_nsec + 10000000 in
    if leb second n then timespec (now.tv_sec + 1) (n - second) else timespec now.tv_sec n

-- libuuid's `uuid_unparse`: the text that it writes, without the zero byte behind it. `align` is
-- where the uuid's array lies.
module _ (uuid_unparse : Bytes → Bytes) (align : ℕ) where
  -- The topic of `declare_online`; the buffer for the text of a uuid holds 36 bytes.
  unfoldable pub status_name : Slave → Bytes
  status_name s = if mem_zero align s.uuid then decimal s.addr else uuid_unparse s.uuid

  unfoldable pub status_value : Slave → Bool → Bytes
  status_value s online =
      if not s.enabled then codes "DISABLED" else if online then codes "ONLINE" else codes "OFFLINE"

  unfoldable pub status : Slave → Bool → Publication
  unfolding status_name status_value
  status s online = record {
    topic = codes "osdpiom/bus1/incoming/" ++ (status_name s ++ codes "/status");
    len = pos (length (status_value s online));
    payload = status_value s online;
    retain = true;
  }

  unfoldable pub declare_online : Bool → Cmd Site (Unit {0})
  declare_online online w =
      if not (mem_zero align w.slave.uuid) && ltb 36 (length (uuid_unparse w.slave.uuid) + 1)
      then fault
      else ok tt (record w { published = w.published ++ status w.slave online ∷ [] })

  -- `ack`: the slave has answered.
  unfoldable pub ack : Cmd Site (Unit {0})
  ack w =
      let w' : Site = record w { slave = record w.slave { txseq = next_seq w.slave.txseq } } in
      let reset = change (λ s. record s { retry = 0 }) in
      if offline w'.slave then (declare_online true >> reset) w' else reset w'

  -- `nak`: the poll has failed.
  unfoldable pub nak : Cmd Site (Unit {0})
  nak w =
      let missed : Site = record w {
        slave = record w.slave { retry = (w.slave.retry + 1) % 65536 };
      } in
      let wait : Cmd Site (Unit {0}) =
        site_clock >>= λ now. change (λ s. record s { next_poll = ten_ms_after now }) in
      if offline w.slave
      then ok tt w
      else if offline missed.slave
      then declare_online false missed
      else wait missed

  unfoldable pub welcome : Cmd Site Bool
  welcome = do change (λ s. record s { txseq = 0; retry = 0 }); declare_online true; pure true
