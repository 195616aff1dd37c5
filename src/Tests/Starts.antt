-- ===== src/Tests/Starts.antt =====
-- The start of the program and its queues: tests, and the theorems at concrete states.
use osdpmaster.Prelude.{
  ℕ, ◌+◌, ◌*◌, ◌/◌, ◌%◌, ◌≡◌, refl, List, [], ◌∷◌, Option, none, some, Bytes, true, Bool, arith,
  codes, map, length, same_text, if◌then◌else◌, get_or,
}
use osdpmaster.Run.{ok, fault}
use osdpmaster.Timespec.{Timespec, timespec, second, IsNormal}
use osdpmaster.Timespec.Order.{nanos}
use osdpmaster.Bus.{Bus}
use osdpmaster.Topic.{join}
use osdpmaster.Master.{Master, reopen}
use osdpmaster.Master.Defined.{Turn, round, message}
use osdpmaster.Queue.{timed_out, failed, wait_loop, wait, empty}
use osdpmaster.Queue.Fifo.{wait_lem}
use osdpmaster.Config.{xparse_config, start_master, add_section, add_sections}
use osdpmaster.Config.Setup.{fresh}
use osdpmaster.Config.Start.{start-IsReopened}
use osdpmaster.Config.Arguments.{called, set_argument, arguments_loop, take_options}
use osdpmaster.Config.Arguments.Options.{options, Taken, take_options-Taken}
use osdpmaster.Config.Logging.{
  Category, error, info, priority_of, console_appender, file_appender, add_item, set_up_log,
}
use osdpmaster.Config.Logging.Items.{
  Setting, to_console, to_file, item_text, IsPlain, set_up_log-appenders,
}
use osdpmaster.Config.Logging.Faults.{add_item-fault}
use osdpmaster.Config.Main.{Program}
use osdpmaster.Prelude.{ℤ, pos, negsuc, ◌↔◌, ◌⊎◌, All}
use osdpmaster.Tests.Wire.{blank}
use osdpmaster.Tests.Devices.{bus, uuid_text}
use osdpmaster.Tests.Ports.{keep, rate, with_rate, keeps, machine}

-- An error of the call, a push, and the end of the time.
wait_run : wait_loop {A = ℕ} ((failed, []) ∷ ((timed_out, 8 ∷ []) ∷ [])) [] ≡ ok true (8 ∷ [])
unfolding wait_loop empty
wait_run = refl

wait_lem_example :
    (until : Timespec) × (wait {A = ℕ} 1500
        (timespec 2 999600000)
        ((failed, []) ∷ ((timed_out, 8 ∷ []) ∷ []))
        []
      ≡ ok (until, true) (8 ∷ []))
    × IsNormal until
    × (nanos until ≡ 2999600000 + 1500 / 1000 * second + 1500 % 1000 * 1000)
unfolding empty
wait_lem_example =
    wait_lem {A = ℕ} 1500 (timespec 2 999600000) ((failed, []) ∷ ((timed_out, 8 ∷ []) ∷ [])) []
      (omega arith) tt

-- A file with a port, a flag and two slaves.
abbrev texts : Bytes → Option Bytes
texts key = if same_text key (codes "port.device") then some (codes "ttyUSB0") else none

abbrev flags : Bytes → Option Bool
flags key = if same_text key (codes "port.usb") then some true else none

abbrev ints : Bytes → ℕ → ℕ
ints key n = n

abbrev letters : Bytes → Bytes → Bytes
letters key text = text

abbrev digit : Bytes → ℕ
digit text = get_or text 0 0 % 48

abbrev sections : List (Bytes × Option Bytes)
sections =
    (codes "port", none)
    ∷ ((codes "slave1", some (codes "1")) ∷ ((codes "slave2", some (codes "7")) ∷ []))

-- A section for a slave without an address.
no_address : add_sections uuid_text 0 digit (timespec 0 0) ((codes "slave3", none) ∷ []) bus ≡ fault
unfolding add_sections add_section same_text
no_address = refl

start-IsReopened_example :
    (b c : Bus) × (n : Master) × (start_master blank (xparse_config texts flags ints letters none)
      ≡ some b)
    × (add_sections uuid_text 0 digit (timespec 0 0) sections b ≡ ok tt c)
    × (reopen keep rate with_rate with_rate 3 (record { bus = c; device = machine }) ≡ ok tt n)
    × (n.device.port ≡ codes "ttyUSB0")
    × (n.bus.slaves ≡ map (fresh digit (timespec 0 0)) (codes "1" ∷ (codes "7" ∷ [])))
unfolding same_text
start-IsReopened_example =
    start-IsReopened texts flags ints letters keep rate with_rate with_rate keeps keeps uuid_text 0
      digit (timespec 0 0) blank (codes "ttyUSB0") true sections 3 2 machine refl refl refl
      (λ key n. refl) (λ key text. refl) (refl, tt) (λ n le. ground arith) (omega arith)

-- A round, a message for the first slave, and another round.
abbrev served : List Turn
served = round ∷ (message (codes "osdp/bus1/outgoing/1") (0x61 ∷ (0 ∷ [])) ∷ (round ∷ []))

-- `osdpmaster -b 9600 x` keeps `x`.
abbrev words : List Bytes
words = codes "-b" ∷ (codes "9600" ∷ (codes "x" ∷ []))

abbrev number : Bytes → ℤ
number text = pos (length text)

take_options_run :
    take_options number (called (codes "osdpmaster" ∷ words))
    ≡ ok tt (record {
      argc = 2;
      argv =
          some (codes "osdpmaster")
          ∷ (some (codes "x") ∷ (none ∷ (some (codes "x") ∷ (none ∷ []))));
      frombaud = pos 4;
    })
unfolding take_options arguments_loop set_argument same_text
take_options_run = refl

take_options-Taken_example :
    Taken number
      (codes "osdpmaster")
      (options number words (negsuc 0))
      (take_options number (called (codes "osdpmaster" ∷ words)))
take_options-Taken_example = take_options-Taken number (codes "osdpmaster") words

abbrev silent_log : Category
silent_log = record { priority = error; appenders = []; logged = [] }

abbrev settings : List Setting
settings = to_console ∷ (to_file (codes "a.log") ∷ [])

settings-IsPlain : All IsPlain settings
settings-IsPlain = (
  tt,
  (
    (
      (refl, (refl, (refl, (refl, (refl, tt))))),
      (refl, (refl, (refl, (refl, (refl, tt))))),
      omega arith,
    ),
    tt,
  ),
)

set_up_log-appenders_example :
    set_up_log 2 (join (b':') (map item_text settings)) silent_log
    ≡ ok tt (record {
      priority = priority_of 2;
      appenders = console_appender ∷ (file_appender (codes "a.log") ∷ []);
      logged = (info, codes "osdpmaster startup") ∷ [];
    })
set_up_log-appenders_example = set_up_log-appenders 2 settings silent_log settings-IsPlain

add_item-fault_example :
    (add_item (codes "file") silent_log ≡ fault)
    ↔ ((codes "file" ≡ []) ⊎ ((codes "file" ≡ codes "file") ⊎ (codes "file" ≡ codes "file=")))
add_item-fault_example = add_item-fault (codes "file") silent_log

-- The settings of the log beside those of the port.
abbrev all_letters : Bytes → Bytes → Bytes
all_letters key text =
    if same_text key (codes "logging.config") then codes "console:file=a.log" else text

abbrev program : Program
program = record {
  arguments = called (codes "osdpmaster" ∷ words);
  session = record { results = λ n. pos n; requests = []; category = silent_log };
  bus = bus;
}
