-- ===== src/Tests/Ports.antt =====
-- The port and its recovery: tests, and the theorems at concrete states.
use osdpmaster.Prelude.{
  ℕ, ◌≡◌, refl, List, [], ◌∷◌, none, some, Bytes, true, false, arith, codes, leb,
}
use osdpmaster.Run.{Run, ok, throw, out_of_fuel, flush_failed}
use osdpmaster.Protocol.{SerialConfig, clock_gettime, flush_input}
use osdpmaster.Slave.{defined, offline}
use osdpmaster.Bus.{
  Bus, slave_poll, advance, select, pollable, slave_or_fault, poll_at, poll_online, send_to,
}
use osdpmaster.Port.{
  Termios, cs8, Device, prepare, answer, checked, open_port, tcgetattr, set_format, set_flow,
  set_parity, set_bits, set_stop, set_speed, set_standard, set_driver, enable_rs485,
}
use osdpmaster.Port.Calls.{SameFormat}
use osdpmaster.Master.Thread.{busprotocol_run-run}
use osdpmaster.Master.{Master, busprotocol_run, run, prepcom, reopen, poll_round, switch_ports}
use osdpmaster.Master.Reopen.{
  IsReopened, closed, reopen-IsReopened, reopen_unsupported, poll_round-recovers,
}
use osdpmaster.Tests.Wire.{blank}
use osdpmaster.Tests.Devices.{bus, uuid_text}

abbrev pub raw : Termios
raw = record {
  brkint = false;
  ignbrk = false;
  ignpar = false;
  inpck = false;
  parmrk = false;
  istrip = false;
  out_crtscts = false;
  cread = false;
  clocal = false;
  crtscts = true;
  parenb = false;
  parodd = false;
  cstopb = false;
  csize = cs8;
  cbaud = 0;
  vmin = 0;
  vtime = 0;
  others = 0;
}

-- The settings are already raw, and a rate is its own number.
abbrev pub keep : Termios → Termios
keep t = t

abbrev pub rate : ℕ → ℕ
rate n = n

abbrev pub with_rate : ℕ → Termios → Termios
with_rate n t = record t { cbaud = n }

pub keeps : (n : ℕ) (t : Termios) → SameFormat t (with_rate n t)
keeps n t = record {
  crtscts = refl;
  parenb = refl;
  parodd = refl;
  csize = refl;
  istrip = refl;
  cstopb = refl;
  receiver = (refl, refl);
  reads = (refl, refl);
}

abbrev config : SerialConfig
config = record blank.config { port = codes "ttyUSB0"; baud = 9600 }

-- The first two system calls fail.
abbrev pub machine : Device
machine = record {
  answers = λ n. leb 2 n;
  termios_at = λ n. raw;
  serial_at = λ n. record { spd_cust = false; custom_divisor = 0; baud_base = 115200 };
  rs485_at = λ n. record {
    enabled = false;
    rts_on_send = false;
    rts_after_send = true;
    delay_rts_before_send = 5;
    delay_rts_after_send = 5;
    others = 0;
  };
  tick = 0;
  fd = some 3;
  next_fd = 4;
  open_fds = 3 ∷ [];
  port = [];
  settings = none;
  serial = none;
  rs485 = none;
  slept = 0;
}

abbrev master : Master
master = record {
  bus = record bus {
    proto = record blank { config = config; flush_succeeds = λ n. false };
    port2 = some (codes "ttyUSB1");
  };
  device = machine;
}

-- Two failures, with the name of the port exchanged behind each.
abbrev reopened : Run Master (Unit {0}) → List ℕ × Bytes × ℕ
reopened (ok u m) = (m.device.open_fds, m.device.port, m.device.slept)
reopened _ = ([], [], 0)

reopen_run :
    reopened (reopen keep rate with_rate with_rate 3 master) ≡ (4 ∷ 3 ∷ [], codes "ttyUSB0", 10)
unfolding reopen prepcom switch_ports prepare answer checked open_port tcgetattr set_format set_flow
    set_parity set_bits set_stop set_speed set_standard set_driver enable_rs485
reopen_run = refl

reopen-IsReopened_example :
    (n : Master) × (reopen keep rate with_rate with_rate 3 master ≡ ok tt n) × IsReopened master n
reopen-IsReopened_example =
    reopen-IsReopened keep rate with_rate with_rate keeps keeps 3 2 master (refl, refl)
      (λ n le. ground arith) (omega arith)

-- Mark parity.
abbrev marking : Master
marking = record master {
  bus = record master.bus { proto = record blank { config = record config { parity = b'm' } } };
}

reopen_unsupported_example : reopen keep rate with_rate with_rate 7 marking ≡ out_of_fuel
reopen_unsupported_example =
    reopen_unsupported keep rate with_rate with_rate keeps keeps 7 marking refl refl

-- The poll fails at the flush.
abbrev hung : Bus
hung = record master.bus { proto = record master.bus.proto { tick = 1 } }

hung_run : slave_poll uuid_text 0 master.bus ≡ throw flush_failed hung
unfolding slave_poll advance select pollable defined slave_or_fault poll_at offline poll_online
    clock_gettime send_to flush_input
hung_run = refl

poll_round-recovers_example :
    (n : Master) × (poll_round keep rate with_rate with_rate uuid_text 0 3 master ≡ ok tt n)
    × IsReopened (record { bus = hung; device = closed master.device }) n
poll_round-recovers_example =
    poll_round-recovers keep rate with_rate with_rate keeps keeps uuid_text 0 3 2 master
      flush_failed hung hung_run (refl, refl) (λ n le. ground arith) (omega arith)

busprotocol_run-run_example :
    busprotocol_run keep rate with_rate with_rate uuid_text 0 3 4 master
    ≡ run keep rate with_rate with_rate uuid_text 0 3 4 master
busprotocol_run-run_example =
    busprotocol_run-run keep rate with_rate with_rate uuid_text 0 3 4 master
