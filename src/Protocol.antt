-- ===== src/Protocol.antt =====
-- osdpprotocol.h: the state of `class protocol`, and the serial port that it drives.
--
-- The port is a script of what the system calls meet: one event for each `read` that finds no
-- unread bytes, one for each `write`, a stream of clock readings, and a stream that says whether a
-- flush succeeds. What the program asks of the kernel is kept in `waits` and `sent`.
pub mod Input
pub mod Output
pub mod RoundTrip
use osdpmaster.Prelude.{
  ℕ, ◌+◌, ◌*◌, ◌/◌, ◌%◌, ◌-◌, Bool, true, false, ◌&&◌, ◌==◌, List, [], ◌∷◌, ◌++◌, Option, none,
  some, leb, if◌then◌else◌, take, drop, length, replicate, get_or, Bytes,
}
use osdpmaster.Run.{Cmd, ok, throw, flush_failed, ◌>>=◌, ◌>>◌, get, modify}
use osdpmaster.Timespec.{Timespec, timespec, second}

-- `struct serial_config`; the numbers of sync characters are those that the loops over a signed
-- char run through, so a negative one is 0.
pub record SerialConfig : Type 0 where
  pub port : Bytes
  pub baud : ℕ
  pub parity : ℕ
  pub bits : ℕ
  pub stop : ℕ
  pub flow : ℕ
  pub usb : Bool
  pub lead : ℕ
  pub trail : ℕ
  pub timeout : ℕ
  pub delay : ℕ
  pub idle : ℕ

-- The results below zero of `readcook` and the functions under it.
pub data ProtoError : Type 0 where
  timeout overflow noeod escape crc flyby delayed : ProtoError

-- A result of type int: a size, or an error.
pub data Reply : Type 0 where
  size : ℕ → Reply
  error : ProtoError → Reply

-- What a `read` meets when no received bytes are left over: bytes that arrived (none at all where
-- the line is hung up), an interrupt, no data yet, an error.
pub data RxEvent : Type 0 where
  arrived : Bytes → RxEvent
  interrupted no_data failed : RxEvent

-- What a `write` meets: the kernel takes up to so many bytes, or refuses.
pub data TxEvent : Type 0 where
  accepted : ℕ → TxEvent
  interrupted would_block failed : TxEvent

-- What the program has waited for: a `poll` of so many milliseconds, a sleep until a time.
pub data Wait : Type 0 where
  polled : ℕ → Wait
  slept : Timespec → Wait

pub record Protocol : Type 0 where
  pub my_addr : ℕ
  pub config : SerialConfig
  pub in_buffer : Bytes
  pub out_buffer : Bytes
  pub out_len : ℕ
  pub next_write : Timespec
  pub deadline : Timespec
  pub pending : Bytes
  pub rx : List RxEvent
  pub tx : List TxEvent
  pub sent : Bytes
  pub clock : ℕ → Timespec
  pub tick : ℕ
  pub flush_succeeds : ℕ → Bool
  pub waits : List Wait

-- SLAVE_BUFF_SIZE: payload, OSDP_MFGREP, header, CRC, sync, and two.
abbrev pub slave_buff_size : ℕ
slave_buff_size = 256 + 5 + 5 + 2 + 1 + 2

abbrev pub ch_soh : ℕ
ch_soh = 0x53

-- sizeof(struct osdp_common)
abbrev pub header_size : ℕ
header_size = 5

-- What the constructor sets where it is given no configuration; `port` and `usb` stay unset.
abbrev pub default_config : SerialConfig → SerialConfig
default_config unset = record unset {
  baud = 115200;
  parity = b'N';
  bits = 8;
  stop = 1;
  flow = b'n';
  lead = 0;
  trail = 0;
  timeout = 3000;
  delay = 600;
  idle = 30;
}

abbrev pub or_default : Option SerialConfig → SerialConfig → SerialConfig
or_default none unset = default_config unset
or_default (some c) unset = c

-- The constructor, over the port's script and the fields' first contents, of which it leaves the
-- buffers unset.
unfoldable pub construct : Option SerialConfig → Protocol → Protocol
construct c p = record p {
  my_addr = 0xFF;
  config = or_default c p.config;
  out_len = 0;
  next_write = timespec 0 0;
}

-- The bytes of a buffer from an offset on are overwritten.
abbrev pub splice : Bytes → ℕ → Bytes → Bytes
splice buf offset bs = take offset buf ++ (bs ++ drop (offset + length bs) buf)

-- clock_gettime(CLOCK_MONOTONIC)
unfoldable pub clock_gettime : Cmd Protocol Timespec
clock_gettime p = ok (p.clock p.tick) (record p { tick = p.tick + 1 })

-- `readstamp`: the next transmission is due `delay` microseconds from now.
abbrev pub after_delay : ℕ → Timespec → Timespec
after_delay delay t =
    let n = t.tv_nsec + delay * 1000 in
    if leb second n then timespec (t.tv_sec + 1) (n - second) else timespec t.tv_sec n

unfoldable pub readstamp : Cmd Protocol (Unit {0})
readstamp = do
  now ← clock_gettime
  modify (λ p. record p { next_write = after_delay p.config.delay now })

-- `delaywait`: sleep until the next transmission is due.
unfoldable pub delaywait : Cmd Protocol (Unit {0})
delaywait p =
    let sleep =
      modify (λ (q : Protocol). record q { waits = q.waits ++ slept q.next_write ∷ [] }) in
    if p.next_write.tv_sec == 0 && p.next_write.tv_nsec == 0
    then (readstamp >> sleep) p
    else sleep p

-- `flush_input`: what has been received and not read is dropped.
unfoldable pub flush_input : Cmd Protocol (Unit {0})
flush_input p =
    if p.flush_succeeds p.tick then ok tt (record p { pending = [] }) else throw flush_failed p

-- The settings that a caller may change; the result is what was set before.
abbrev pub exchange_timeout : ℕ → Cmd Protocol ℕ
exchange_timeout t p = ok p.config.timeout (record p { config = record p.config { timeout = t } })

abbrev pub exchange_idle : ℕ → Cmd Protocol ℕ
exchange_idle t p = ok p.config.idle (record p { config = record p.config { idle = t } })

abbrev pub exchange_addr : ℕ → Cmd Protocol ℕ
exchange_addr addr p = ok p.my_addr (record p { my_addr = addr })
