-- ===== src/Port.antt =====
-- `prepcom` and `close` of osdpprotocol.cpp: the serial port is opened and set up.
--
-- A Device holds the answers of the operating system (whether the n-th call succeeds, and what is read
-- by it), the descriptors that the process has open, what the port has been set to, and
-- how many seconds have been slept. The masks of
-- termios are their flags by name; those that the source does not touch are in `others`.
pub mod Format
pub mod Calls
pub mod Prepare
use osdpmaster.Prelude.{
  ℕ, zero, suc, ◌+◌, ◌/◌, Bool, true, false, not, ◌||◌, ◌==◌, List, [], ◌∷◌, ◌++◌, Option, none,
  some, if◌then◌else◌, Bytes, bit_or,
}
use osdpmaster.Run.{
  Failure, Run, Cmd, ok, throw, fault, pure, and_then, ◌>>=◌, ◌>>◌, get, modify, undefined_unless,
  open_failed, settings_unread, unknown_flow, unsupported_parity, unsupported_bits,
  unsupported_stop, serial_unread, divisor_refused, speed_refused, settings_failed, rs485_refused,
  flush_failed,
}
use osdpmaster.Protocol.{SerialConfig}

-- CSIZE
pub data CharSize : Type 0 where
  cs5 cs6 cs7 cs8 : CharSize

-- struct termios: flags of c_iflag, CRTSCTS as a mask of c_oflag, and flags of c_cflag, whose bits for
-- the speed are `cbaud`.
pub record Termios : Type 0 where
  pub brkint : Bool
  pub ignbrk : Bool
  pub ignpar : Bool
  pub inpck : Bool
  pub parmrk : Bool
  pub istrip : Bool
  pub out_crtscts : Bool
  pub cread : Bool
  pub clocal : Bool
  pub crtscts : Bool
  pub parenb : Bool
  pub parodd : Bool
  pub cstopb : Bool
  pub csize : CharSize
  pub cbaud : ℕ
  pub vmin : ℕ
  pub vtime : ℕ
  pub others : ℕ

-- struct serial_struct; `spd_cust` where the bits of ASYNC_SPD_MASK are ASYNC_SPD_CUST.
pub record SerialStruct : Type 0 where
  pub spd_cust : Bool
  pub custom_divisor : ℕ
  pub baud_base : ℕ

-- struct serial_rs485
pub record Rs485 : Type 0 where
  pub enabled : Bool
  pub rts_on_send : Bool
  pub rts_after_send : Bool
  pub delay_rts_before_send : ℕ
  pub delay_rts_after_send : ℕ
  pub others : ℕ

-- `port` is the name that the descriptor of `fd` was opened with; what it has been set to since then is
-- `settings`, `serial` and `rs485`.
pub record Device : Type 0 where
  pub answers : ℕ → Bool
  pub termios_at : ℕ → Termios
  pub serial_at : ℕ → SerialStruct
  pub rs485_at : ℕ → Rs485
  pub tick : ℕ
  pub fd : Option ℕ
  pub next_fd : ℕ
  pub open_fds : List ℕ
  pub port : Bytes
  pub settings : Option Termios
  pub serial : Option SerialStruct
  pub rs485 : Option Rs485
  pub slept : ℕ

-- A system call: whether it succeeds, and an exception where it does not.
unfoldable pub answer : Cmd Device Bool
answer d = ok (d.answers d.tick) (record d { tick = d.tick + 1 })

unfoldable pub checked : Failure → Cmd Device (Unit {0})
checked e = do a ← answer; if a then pure tt else throw e

-- `m_fd = open(...)`
abbrev pub opened_as : Bytes → Device → Device
opened_as port d = record d {
  fd = some d.next_fd;
  next_fd = d.next_fd + 1;
  open_fds = d.next_fd ∷ d.open_fds;
  port = port;
  settings = none;
  serial = none;
  rs485 = none;
}

unfoldable pub open_port : Bytes → Cmd Device (Unit {0})
open_port port = do
  a ← answer
  if a then modify (opened_as port) else (modify (λ d. record d { fd = none }) >> throw open_failed)

unfoldable pub tcgetattr : Cmd Device Termios
tcgetattr d = and_then (checked settings_unread d) (λ u. ok (d.termios_at d.tick))

-- The flags that are set for every configuration. CRTSCTS is cleared in c_oflag.
abbrev pub set_raw : Termios → Termios
set_raw t = record t {
  cread = true;
  clocal = true;
  brkint = false;
  ignbrk = false;
  out_crtscts = false;
  vmin = 1;
  vtime = 0;
}

unfoldable pub set_flow : ℕ → Termios → Cmd Device Termios
set_flow flow t =
    if flow == b'n' || flow == b'N'
    then ok t
    else if flow == b'r' || flow == b'R'
    then ok (record t { crtscts = true })
    else throw unknown_flow

unfoldable pub set_parity : ℕ → Termios → Cmd Device Termios
set_parity parity t =
    if parity == b'n' || parity == b'N'
    then ok (record t { ignpar = true; inpck = false; parenb = false })
    else if parity == b'E' || parity == b'e'
    then ok
        (record t { inpck = true; ignpar = true; parmrk = false; parenb = true; parodd = false })
    else if parity == b'O' || parity == b'o'
    then ok (record t { inpck = true; ignpar = true; parmrk = false; parenb = true; parodd = true })
    else throw unsupported_parity

unfoldable pub set_bits : ℕ → Termios → Cmd Device Termios
set_bits bits t =
    if bits == 7
    then ok (record t { csize = cs7; istrip = true })
    else if bits == 8
    then ok (record t { csize = cs8; istrip = false })
    else throw unsupported_bits

unfoldable pub set_stop : ℕ → Termios → Cmd Device Termios
set_stop stop t =
    if stop == 1
    then ok (record t { cstopb = false })
    else if stop == 2
    then ok (record t { cstopb = true })
    else throw unsupported_stop

-- The settings that depend on the format of a character.
unfoldable pub set_format : SerialConfig → Termios → Cmd Device Termios
set_format c t = do
  t1 ← set_flow c.flow t
  t2 ← set_parity c.parity t1
  t3 ← set_bits c.bits t2
  set_stop c.stop t3

-- The rates of the BAUDCASEs.
abbrev pub standard_bauds : List ℕ
standard_bauds =
    50 ∷ 75 ∷ 110 ∷ 134 ∷ 150 ∷ 200 ∷ 300 ∷ 600 ∷ 1200 ∷ 1800 ∷ 2400 ∷ 4800 ∷ 9600 ∷ 19200 ∷ 38400
    ∷ 57600 ∷ 115200 ∷ 230400 ∷ []

abbrev pub one_of : ℕ → List ℕ → Bool
one_of n [] = false
one_of n (m ∷ ms) = n == m || one_of n ms

-- A descriptor is open no more.
abbrev pub without : ℕ → List ℕ → List ℕ
without f [] = []
without f (g ∷ gs) = let rest = without f gs in if f == g then gs else g ∷ rest

-- `close`
unfoldable pub close_fd : Option ℕ → Cmd Device (Unit {0})
close_fd none = pure tt
close_fd (some f) = modify (λ d. record d { open_fds = without f d.open_fds })

unfoldable pub close : Cmd Device (Unit {0})
close = do d ← get; close_fd d.fd; modify (λ e. record e { fd = none })

-- What is read stands for whatever is in the structure where the first call, whose result is not
-- looked at, fails.
unfoldable pub enable_rs485 : Cmd Device (Unit {0})
enable_rs485 d =
    let rs485 = record (d.rs485_at d.tick) {
      enabled = true;
      rts_after_send = false;
      rts_on_send = true;
      delay_rts_before_send = 0;
      delay_rts_after_send = 0;
    } in
    (do ignored ← answer; checked rs485_refused; modify (λ e. record e { rs485 = some rs485 })) d

unfoldable pub set_driver : Bool → Cmd Device (Unit {0})
set_driver usb = if usb then pure tt else enable_rs485

-- What the C library and the headers of the system give: the mask of raw mode, the numbers of the
-- rates, and their place in the settings.
module _ (cfmakeraw : Termios → Termios) (b_rate : ℕ → ℕ)
    (cfsetispeed cfsetospeed : ℕ → Termios → Termios) where
  -- A rate that is not standard is set with a divisor; dividing by a rate of zero is undefined.
  unfoldable pub set_custom : ℕ → Termios → Cmd Device Termios
  set_custom baud t d =
      let nuts = d.serial_at d.tick in
      (do
        checked serial_unread
        undefined_unless (not (baud == 0))
        checked divisor_refused
        modify (λ e. record e {
          serial = some (record nuts { custom_divisor = nuts.baud_base / baud; spd_cust = true });
        })
        pure (record t { cbaud = bit_or t.cbaud (b_rate 38400) }))
        d

  unfoldable pub set_standard : ℕ → Termios → Cmd Device Termios
  set_standard baud t = do
    checked speed_refused
    checked speed_refused
    pure (cfsetospeed (b_rate baud) (cfsetispeed (b_rate baud) t))

  unfoldable pub set_speed : ℕ → Termios → Cmd Device Termios
  set_speed baud t = if one_of baud standard_bauds then set_standard baud t else set_custom baud t

  unfoldable pub prepare : SerialConfig → Cmd Device (Unit {0})
  prepare c = do
    open_port c.port
    t ← tcgetattr
    t1 ← set_format c (set_raw (cfmakeraw t))
    t2 ← set_speed c.baud t1
    checked settings_failed
    modify (λ d. record d { settings = some t2 })
    set_driver c.usb
    checked flush_failed
