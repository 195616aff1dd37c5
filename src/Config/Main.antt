-- ===== src/Config/Main.antt =====
-- `main` of osdpmaster.cpp, up to the start of the thread that runs the bus.
pub mod Starts
use osdpmaster.Prelude.{ℕ, Bool, List, [], ◌∷◌, ◌++◌, Option, none, some, Bytes, codes, ℤ, length}
use osdpmaster.Run.{
  Run, Cmd, ok, throw, pure, and_then, ◌>>=◌, ◌>>◌, within, modify, no_port_name, flag_missing,
}
use osdpmaster.Timespec.{Timespec}
use osdpmaster.Protocol.{Protocol, construct}
use osdpmaster.Bus.{Bus, start_bus}
use osdpmaster.Config.{
  Parsed, no_device_name, no_usb_flag, parsed, xparse_config, start_master, add_sections,
}
use osdpmaster.Config.Arguments.{Arguments, take_options}
use osdpmaster.Config.Logging.{Category, set_up_log}
use osdpmaster.Config.Broker.{Session, settings_of, connect_broker, loop_broker}

-- The arguments, the log and the broker's library, and what `proto` points to.
pub record Program : Type 0 where
  pub arguments : Arguments
  pub session : Session
  pub bus : Bus

abbrev pub on_arguments : {A : Type 0} → Cmd Arguments A → Cmd Program A
on_arguments = within (λ w. w.arguments) (λ a w. record w { arguments = a })

abbrev pub on_session : {A : Type 0} → Cmd Session A → Cmd Program A
on_session = within (λ w. w.session) (λ s w. record w { session = s })

abbrev pub on_category : {A : Type 0} → Cmd Category A → Cmd Program A
on_category m = on_session (within (λ s. s.category) (λ c s. record s { category = c }) m)

abbrev pub on_bus : {A : Type 0} → Cmd Bus A → Cmd Program A
on_bus = within (λ w. w.bus) (λ b w. record w { bus = b })

-- The bus of the settings; an exception ends the program, since `main` catches none.
abbrev pub begin_bus : Protocol → Parsed → Cmd Program (Unit {0})
begin_bus unset no_device_name w = throw no_port_name w
begin_bus unset no_usb_flag w = throw flag_missing w
begin_bus unset (parsed config port2) w =
    ok tt (record w { bus = record (start_bus (construct (some config) unset)) { port2 = port2 } })

-- libc's `strtol` and `strtoul`, the lookups of the property tree and its sections, what the broker's
-- library gives, libuuid's `uuid_unparse`, and what is left unset.
module _ (strtol : Bytes → ℤ) (strtoul : Bytes → ℕ) (get_optional : Bytes → Option Bytes)
    (get_flag : Bytes → Option Bool) (get_int : Bytes → ℕ → ℕ) (get_text : Bytes → Bytes → Bytes)
    (sections : List (Bytes × Option Bytes)) (success : ℤ) (strerror : ℤ → Bytes)
    (uuid_unparse : Bytes → Bytes) (align : ℕ) (unset : Timespec) (unset_line : Protocol) where
  unfoldable pub main : Cmd Program (Unit {0})
  main = do
    on_arguments (take_options strtol)
    on_category
        (set_up_log (get_int (codes "logging.level") 0) (get_text (codes "logging.config") []))
    on_session (connect_broker success strerror (settings_of get_text get_int))
    begin_bus unset_line (xparse_config get_optional get_flag get_int get_text none)
    on_bus (add_sections uuid_unparse align strtoul unset sections)
