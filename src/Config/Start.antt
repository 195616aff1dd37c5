-- ===== src/Config/Start.antt =====
-- From the configuration file to an open port: `main` and the first loop of `run` together.
use osdpmaster.Prelude.{
  ℕ, ◌-◌, ◌≤◌, ◌<◌, ◌≡◌, ap, ◌∙◌, Bool, true, List, Option, none, some, Bytes, codes, map, inl, inr,
}
use osdpmaster.Run.{ok}
use osdpmaster.Timespec.{Timespec}
use osdpmaster.Protocol.{Protocol, construct}
use osdpmaster.Bus.{Bus, start_bus}
use osdpmaster.Port.{Device, Termios}
use osdpmaster.Port.Calls.{SameFormat}
use osdpmaster.Master.{Master, reopen}
use osdpmaster.Master.Reopen.{SameNames, reopen-IsReopened}
use osdpmaster.Config.{xparse_config, start_master, add_sections}
use osdpmaster.Config.Setup.{
  fresh, addresses, HasAddresses, xparse_config-IsUsable, add_sections_lem,
}

only_name : (b c : Bus) → b.port2 ≡ none → SameNames b c → c.proto.config.port ≡ b.proto.config.port
only_name b c alone (inl h) = h.0
only_name b c alone (inr (other, set, name, alternate)) = cc

-- The lookups of the property tree, what the system's library gives, and the rest of the outside world.
module _ (get_optional : Bytes → Option Bytes) (get_flag : Bytes → Option Bool)
    (get_int : Bytes → ℕ → ℕ) (get_text : Bytes → Bytes → Bytes) (cfmakeraw : Termios → Termios)
    (b_rate : ℕ → ℕ) (cfsetispeed cfsetospeed : ℕ → Termios → Termios)
    (keeps_in : (n : ℕ) (t : Termios) → SameFormat t (cfsetispeed n t))
    (keeps_out : (n : ℕ) (t : Termios) → SameFormat t (cfsetospeed n t))
    (uuid_unparse : Bytes → Bytes) (align : ℕ) (strtoul : Bytes → ℕ) (unset : Timespec)
    (unset_line : Protocol) where
  -- With a file that names one port, says whether it is on USB and gives no other setting, and whose
  -- sections for slaves all give an address, the program starts: its slaves are those of the file, in this
  -- order, and once every system call from the number `t` on succeeds, the port of the file is open.
  pub start-IsReopened :
      (port : Bytes) (usb : Bool) (ss : List (Bytes × Option Bytes)) (fuel t : ℕ) (d : Device)
      → get_optional (codes "port.device") ≡ some port
      → get_optional (codes "port.device2") ≡ none
      → get_flag (codes "port.usb") ≡ some usb
      → ((key : Bytes) (n : ℕ) → get_int key n ≡ n)
      → ((key text : Bytes) → get_text key text ≡ text)
      → HasAddresses ss
      → ((n : ℕ) → t ≤ n → d.answers n ≡ true)
      → t - d.tick < fuel
      → (b c : Bus) × (n : Master) × (start_master unset_line
            (xparse_config get_optional get_flag get_int get_text none)
          ≡ some b)
        × (add_sections uuid_unparse align strtoul unset ss b ≡ ok tt c)
        × (reopen cfmakeraw b_rate cfsetispeed cfsetospeed fuel (record { bus = c; device = d })
            ≡ ok tt n)
        × (n.device.port ≡ port)
        × (n.bus.slaves ≡ map (fresh strtoul unset) (addresses ss))
  unfolding start_master construct start_bus
  start-IsReopened port usb ss fuel t d named alone flagged ints texts given later enough =
      let (config, parses, usable, name, flag) =
        xparse_config-IsUsable get_optional get_flag get_int get_text port usb named alone flagged
          ints texts in
      let b : Bus = record (start_bus (construct (some config) unset_line)) { port2 = none } in
      let (c, adds, slaves, published, line, alternate) =
        add_sections_lem uuid_unparse align strtoul unset ss b given in
      let same : c.proto.config ≡ config = ap (λ p. p.config) line in
      let (n, opens, r) =
        reopen-IsReopened cfmakeraw b_rate cfsetispeed cfsetospeed keeps_in keeps_out fuel t
          (record { bus = c; device = d }) (rw same usable) later enough in
      (
        b,
        c,
        n,
        rw parses,
        adds,
        opens,
        r.port ∙ only_name c n.bus alternate r.names ∙ ap (λ x. x.port) same ∙ name,
        ap (λ (x : Bus). x.slaves) r.kept ∙ slaves,
      )
