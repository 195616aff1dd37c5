-- ===== src/Port/Prepare.antt =====
-- `prepcom` on any answers of the operating system, and its descriptors.
use osdpmaster.Prelude.{ℕ, ◌≡◌, sym, ◌∙◌, true, false, ◌==◌, none, some, inl, inr}
use osdpmaster.Run.{and_then, Ends, Ends-and_then, settings_unread, flush_failed, settings_failed}
use osdpmaster.Protocol.{SerialConfig}
use osdpmaster.Port.{Termios, Device, checked, tcgetattr, set_raw, set_driver, prepare}
use osdpmaster.Port.Format.{supported, HasFormat, set_format-cases}
use osdpmaster.Port.Calls.{
  SameFormat, IsOpened, IsRefused, HasDriver, HasRate, ticked, checked-cases, IsOpened-ticked,
  IsRefused-ticked, open_port-cases, set_driver-Ends, set_speed-Ends,
}

-- The port has been set up.
pub record IsPrepared (cfmakeraw : Termios → Termios) (b_rate : ℕ → ℕ)
    (cfsetispeed cfsetospeed : ℕ → Termios → Termios) (c : SerialConfig) (d e : Device)
    : Type 0 where
  pub opened : IsOpened c d e
  pub supports : supported c ≡ true
  pub format :
      (t u : Termios) × (e.settings ≡ some u)
      × HasFormat c (set_raw (cfmakeraw t)) u
      × HasRate b_rate cfsetispeed cfsetospeed c.baud u e.serial
  pub driver : HasDriver c.usb e.rs485

HasFormat-same :
    (c : SerialConfig) (t u v : Termios) → HasFormat c t u → SameFormat u v → HasFormat c t v
HasFormat-same c t u v h s = record {
  flow = s.crtscts ∙ h.flow;
  no_parity = s.parenb ∙ h.no_parity;
  parity = λ e. s.parodd ∙ h.parity (sym s.parenb ∙ e);
  size = rw (s.csize, s.istrip) h.size;
  stop = rw s.cstopb h.stop;
  receiver = (s.receiver.0 ∙ h.receiver.0, s.receiver.1 ∙ h.receiver.1);
  reads = (s.reads.0 ∙ h.reads.0, s.reads.1 ∙ h.reads.1);
}

module _ (cfmakeraw : Termios → Termios) (b_rate : ℕ → ℕ)
    (cfsetispeed cfsetospeed : ℕ → Termios → Termios)
    (keeps_in : (n : ℕ) (t : Termios) → SameFormat t (cfsetispeed n t))
    (keeps_out : (n : ℕ) (t : Termios) → SameFormat t (cfsetospeed n t)) (c : SerialConfig)
    (d : Device) where
  abbrev Prepared : Unit {0} → Device → Type 0
  Prepared u e = IsPrepared cfmakeraw b_rate cfsetispeed cfsetospeed c d e

  flush_end :
      (e : Device)
      → IsPrepared cfmakeraw b_rate cfsetispeed cfsetospeed c d e
      → Ends Prepared (IsRefused c d) (checked flush_failed e)
  flush_end e p = elim (checked-cases flush_failed e) [
    | inl went ↦ rw went (record {
      opened = IsOpened-ticked c d e p.opened;
      supports = p.supports;
      format = p.format;
      driver = p.driver;
    })
    | inr (refused, thrown) ↦
        rw thrown (IsRefused-ticked c d e p.opened flush_failed (λ e. cc) refused)
  ]

  -- From the setting of the port on.
  settings_end :
      (t u : Termios) (e : Device)
      → IsOpened c d e
      → supported c ≡ true
      → HasFormat c (set_raw (cfmakeraw t)) u
      → HasRate b_rate cfsetispeed cfsetospeed c.baud u e.serial
      → e.rs485 ≡ none
      → Ends Prepared (IsRefused c d) (
          and_then (checked settings_failed e) (λ x f.
            and_then
              (set_driver c.usb (record f { settings = some u }))
              (λ y. checked flush_failed)))
  settings_end t u e o sup fmt rate no_rs = elim (checked-cases settings_failed e) [
    | inr (refused, thrown) ↦ rw thrown (IsRefused-ticked c d e o settings_failed (λ e. cc) refused)
    | inl went ↦
        let set : Device = record (ticked e) { settings = some u } in
        let later = IsOpened-ticked c d e o in
        let o2 : IsOpened c d set = record {
          fd = o.fd;
          open_fds = o.open_fds;
          port = o.port;
          answers = o.answers;
          tick = later.tick;
          next = o.next;
        } in
        rw went (
          Ends-and_then _ Prepared (IsRefused c d) (set_driver c.usb set) _
            (set_driver-Ends c d c.usb set o2 no_rs)
            (λ x f h. flush_end f (record {
              opened = h.0;
              supports = sup;
              format = (t, u, h.1, fmt, rw h.2 rate);
              driver = h.3;
            })))
  ]

  pub prepare-Ends :
      (c.baud == 0) ≡ false
      → Ends Prepared (IsRefused c d) (prepare cfmakeraw b_rate cfsetispeed cfsetospeed c d)
  unfolding prepare tcgetattr
  prepare-Ends rate = elim (open_port-cases c d) [
    | inr (e, refused, thrown) ↦ rw thrown refused
    | inl (e, o, no_rs, opened) ↦ elim (checked-cases settings_unread e) [
      | inr (refused, thrown) ↦
          rw (opened, thrown) (IsRefused-ticked c d e o settings_unread (λ e. cc) refused)
      | inl went ↦
          let t : Termios = e.termios_at e.tick in
          let o2 = IsOpened-ticked c d e o in
          elim (set_format-cases c (set_raw (cfmakeraw t)) (ticked e)) [
            | inr (f, other, bad, thrown) ↦
                rw (opened, went, thrown)
                  (record {
                    left = inr (other, o.fd, o.open_fds);
                    answers = o.answers;
                    tick = o2.tick;
                    next = o2.next;
                    reason = λ all sup. cc;
                  })
            | inl (u, sup, fmt, set) ↦
                rw (opened, went, set)
                  (Ends-and_then _ Prepared (IsRefused c d) _ _
                    (set_speed-Ends cfmakeraw b_rate cfsetispeed cfsetospeed keeps_in keeps_out c d
                      c.baud u (ticked e) rate o2)
                    (λ v g h.
                      settings_end t v g h.0 sup (HasFormat-same c _ u v fmt h.2) h.3
                        (h.1 ∙ no_rs)))
          ]
    ]
  ]
