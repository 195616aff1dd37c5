-- ===== src/Config.antt =====
-- `xparse_config` and the slaves of `main` in osdpmaster.cpp: what is taken from the configuration file.
--
-- The property tree is a library's. Its lookups are parameters: of a text and of a flag, which may be
-- missing, and of a number and of a text with a default.
pub mod Setup
pub mod Start
pub mod Whole
pub mod Arguments
pub mod Logging
pub mod Broker
pub mod Main
use osdpmaster.Prelude.{
  ℕ, zero, suc, ◌%◌, ltb, Bool, true, false, ◌==◌, ◌&&◌, List, [], ◌∷◌, ◌++◌, Option, none, some,
  if◌then◌else◌, Bytes, codes, get_or, take, same_text, length,
}
use osdpmaster.Run.{
  Run, Cmd, ok, throw, fault, starved, out_of_fuel, pure, and_then, ◌>>=◌, ◌>>◌, get, modify,
}
use osdpmaster.Timespec.{Timespec}
use osdpmaster.Protocol.{Protocol, SerialConfig, construct}
use osdpmaster.Slave.{Slave, declare_online}
use osdpmaster.Bus.{Bus, start_bus, at_slave}
use osdpmaster.Bus.Setup.{add_slave}

-- The exceptions: a protocol_exception, and that of the library for a flag that is missing.
pub data Parsed : Type 0 where
  no_device_name no_usb_flag : Parsed
  parsed : SerialConfig → Option Bytes → Parsed

-- `text[0]`, which is the zero byte behind an empty text.
abbrev pub first_char : Bytes → ℕ
first_char text = get_or text 0 0

-- The name of the alternate port, where there is one, replaces the one before.
abbrev pub or_port : Option Bytes → Option Bytes → Option Bytes
or_port none port2 = port2
or_port (some name) port2 = some name

-- `main`: the port2 of the bus, and its settings.
unfoldable pub start_master : Protocol → Parsed → Option Bus
start_master unset no_device_name = none
start_master unset no_usb_flag = none
start_master unset (parsed config port2) =
    some (record (start_bus (construct (some config) unset)) { port2 = port2 })

-- `strncmp(name, "slave", 5) == 0`
abbrev pub names_slave : Bytes → Bool
names_slave name = same_text (take 5 name) (codes "slave")

-- A number as a char holds it: its lowest eight bits. As the bound of a loop a signed char from 128 on
-- is negative, and the loop has no round.
abbrev pub to_char : ℕ → ℕ
to_char n = n % 256

abbrev pub to_count : ℕ → ℕ
to_count n = if ltb (to_char n) 128 then to_char n else 0

module _ (get_optional : Bytes → Option Bytes) (get_flag : Bytes → Option Bool)
    (get_int : Bytes → ℕ → ℕ) (get_text : Bytes → Bytes → Bytes) where
  -- The settings but for the names and the flag. Four of them are fields of type char; no number of the
  -- file is negative.
  unfoldable pub parse_line : Bytes → Bool → SerialConfig
  parse_line port usb = record {
    port = port;
    baud = get_int (codes "port.baud") 57600;
    parity = first_char (get_text (codes "port.parity") (codes "N"));
    bits = to_char (get_int (codes "port.data") 8);
    stop = to_char (get_int (codes "port.stop") 1);
    flow = first_char (get_text (codes "port.flow") (codes "N"));
    usb = usb;
    lead = to_count (get_int (codes "port.lead") 0);
    trail = to_count (get_int (codes "port.trail") 0);
    timeout = get_int (codes "port.timeout") 100000;
    delay = get_int (codes "port.delay") 300;
    idle = get_int (codes "port.idle") 300;
  }

  unfoldable pub parse_with : Option Bytes → Option Bool → Option Bytes → Parsed
  parse_with none usb port2 = no_device_name
  parse_with (some port) none port2 = no_usb_flag
  parse_with (some port) (some usb) port2 =
      parsed (parse_line port usb) (or_port (get_optional (codes "port.device2")) port2)

  unfoldable pub xparse_config : Option Bytes → Parsed
  xparse_config port2 =
      parse_with (get_optional (codes "port.device")) (get_flag (codes "port.usb")) port2

module _ (uuid_unparse : Bytes → Bytes) (align : ℕ) (strtoul : Bytes → ℕ) (unset : Timespec) where
  -- A slave is added and declared offline; without an address `strtoul` is given a null pointer.
  unfoldable pub add_section : Option Bytes → Cmd Bus (Unit {0})
  add_section none b = fault
  add_section (some addr) b =
      at_slave (length b.slaves) (declare_online uuid_unparse align false)
        (add_slave strtoul unset addr b)

  -- The sections of the file with the addresses that they give.
  unfoldable pub add_sections : List (Bytes × Option Bytes) → Cmd Bus (Unit {0})
  add_sections [] b = ok tt b
  add_sections ((name, addr) ∷ ss) b =
      let rest : Cmd Bus (Unit {0}) = add_sections ss in
      if names_slave name then and_then (add_section addr b) (λ u. rest) else rest b
