-- ===== src/Port/Calls.antt =====
-- The system calls of `prepcom`, on any answers of the operating system.
use osdpmaster.Prelude.{
  ℕ, ◌+◌, ◌/◌, bit_or, ◌≤◌, ◌<◌, ◌≡◌, ◌≢◌, refl, ap, ◌∙◌, Bool, true, false, ◌==◌, ◌∷◌, Option,
  none, some, arith, Bool-cases, inl, inr, ◌⊎◌,
}
use osdpmaster.Run.{
  Failure, ok, throw, Ends, open_failed, speed_refused, serial_unread, divisor_refused,
  rs485_refused,
}
use osdpmaster.Protocol.{SerialConfig}
use osdpmaster.Port.{
  Termios, Rs485, SerialStruct, Device, answer, checked, opened_as, open_port, set_custom,
  set_standard, set_speed, enable_rs485, set_driver, one_of, standard_bauds,
}
use osdpmaster.Port.Format.{supported}

-- The parts of the settings that the format depends on.
pub record SameFormat (t u : Termios) : Type 0 where
  pub crtscts : u.crtscts ≡ t.crtscts
  pub parenb : u.parenb ≡ t.parenb
  pub parodd : u.parodd ≡ t.parodd
  pub csize : u.csize ≡ t.csize
  pub istrip : u.istrip ≡ t.istrip
  pub cstopb : u.cstopb ≡ t.cstopb
  pub receiver : (u.cread ≡ t.cread) × (u.clocal ≡ t.clocal)
  pub reads : (u.vmin ≡ t.vmin) × (u.vtime ≡ t.vtime)

SameFormat-trans : (t u v : Termios) → SameFormat t u → SameFormat u v → SameFormat t v
SameFormat-trans t u v a b = record {
  crtscts = b.crtscts ∙ a.crtscts;
  parenb = b.parenb ∙ a.parenb;
  parodd = b.parodd ∙ a.parodd;
  csize = b.csize ∙ a.csize;
  istrip = b.istrip ∙ a.istrip;
  cstopb = b.cstopb ∙ a.cstopb;
  receiver = (b.receiver.0 ∙ a.receiver.0, b.receiver.1 ∙ a.receiver.1);
  reads = (b.reads.0 ∙ a.reads.0, b.reads.1 ∙ a.reads.1);
}

-- Every system call from here on succeeds.
abbrev pub Succeeds : Device → Type 0
Succeeds d = (n : ℕ) → d.tick ≤ n → d.answers n ≡ true

-- The port has been opened since `d`: there is one more descriptor, and it is the current one.
pub record IsOpened (c : SerialConfig) (d e : Device) : Type 0 where
  pub fd : e.fd ≡ some d.next_fd
  pub open_fds : e.open_fds ≡ d.next_fd ∷ d.open_fds
  pub port : e.port ≡ c.port
  pub answers : e.answers ≡ d.answers
  pub tick : d.tick < e.tick
  pub next : d.next_fd ≤ e.next_fd

-- The RS485 driver of a port that is not on USB is enabled, with the line raised while it sends.
abbrev pub HasDriver : Bool → Option Rs485 → Type 0
HasDriver true set = set ≡ none
HasDriver false set =
    (r : Rs485) × (set ≡ some r)
    × (r.enabled ≡ true)
    × (r.rts_on_send ≡ true)
    × (r.rts_after_send ≡ false)

-- The rate of a port: a standard one is set in both directions; for any other the port has the divisor
-- for it, and the settings ask for the rate that stands for the divisor.
unfoldable pub HasRate :
    (ℕ → ℕ)
    → (ℕ → Termios → Termios)
    → (ℕ → Termios → Termios)
    → ℕ
    → Termios
    → Option SerialStruct
    → Type 0
HasRate b_rate cfsetispeed cfsetospeed baud u serial =
    ((one_of baud standard_bauds ≡ true)
      × (t : Termios) × (u ≡ cfsetospeed (b_rate baud) (cfsetispeed (b_rate baud) t)))
    ⊎ ((one_of baud standard_bauds ≡ false)
        × (t : Termios) × (u.cbaud ≡ bit_or t.cbaud (b_rate 38400))
        × (s : SerialStruct) × (serial ≡ some s)
        × (s.custom_divisor ≡ s.baud_base / baud)
        × (s.spd_cust ≡ true))

-- An exception has been thrown: either the port could not be opened, or it is left open. It is not
-- thrown where the configuration is supported and all calls succeed.
pub record IsRefused (c : SerialConfig) (d : Device) (f : Failure) (e : Device) : Type 0 where
  pub left :
      ((f ≡ open_failed) × (e.fd ≡ none) × (e.open_fds ≡ d.open_fds))
      ⊎ ((f ≢ open_failed) × (e.fd ≡ some d.next_fd) × (e.open_fds ≡ d.next_fd ∷ d.open_fds))
  pub answers : e.answers ≡ d.answers
  pub tick : d.tick < e.tick
  pub next : d.next_fd ≤ e.next_fd
  pub reason : Succeeds d → supported c ≡ true → ⊥

abbrev pub ticked : Device → Device
ticked e = record e { tick = e.tick + 1 }

module _ (c : SerialConfig) (d e : Device) (o : IsOpened c d e) where
  pub IsOpened-ticked : IsOpened c d (ticked e)
  IsOpened-ticked = record {
    fd = o.fd;
    open_fds = o.open_fds;
    port = o.port;
    answers = o.answers;
    tick = omega (arith, o.tick);
    next = o.next;
  }

  -- A call on an open port that fails.
  pub IsRefused-ticked :
      (f : Failure) → f ≢ open_failed → e.answers e.tick ≡ false → IsRefused c d f (ticked e)
  IsRefused-ticked f other refused = record {
    left = inr (other, o.fd, o.open_fds);
    answers = o.answers;
    tick = omega (arith, o.tick);
    next = o.next;
    reason = λ all s.
        let granted : d.answers e.tick ≡ true = all e.tick (omega (arith, o.tick)) in
        let same : e.answers e.tick ≡ d.answers e.tick = ap (λ g. g e.tick) o.answers in cc;
  }

-- A system call either succeeds, and the run goes on, or it throws.
pub checked-cases :
    (f : Failure) (e : Device)
    → (checked f e ≡ ok tt (ticked e))
      ⊎ ((e.answers e.tick ≡ false) × (checked f e ≡ throw f (ticked e)))
unfolding checked answer
checked-cases f e = elim (Bool-cases (e.answers e.tick)) [
  | inl granted ↦ inl (rw granted)
  | inr refused ↦ inr (refused, rw refused)
]

module _ (c : SerialConfig) (d : Device) where
  pub open_port-cases :
      ((e : Device) × IsOpened c d e × (e.rs485 ≡ none) × (open_port c.port d ≡ ok tt e))
      ⊎ ((e : Device) × IsRefused c d open_failed e × (open_port c.port d ≡ throw open_failed e))
  unfolding open_port answer
  open_port-cases = elim (Bool-cases (d.answers d.tick)) [
    | inl granted ↦ inl (
      opened_as c.port (ticked d),
      record {
        fd = refl;
        open_fds = refl;
        port = refl;
        answers = refl;
        tick = omega arith;
        next = omega arith;
      },
      refl,
      rw granted,
    )
    | inr refused ↦ inr (
      record (ticked d) { fd = none },
      record {
        left = inl (refl, refl, refl);
        answers = refl;
        tick = omega arith;
        next = omega arith;
        reason = λ all s. let granted : d.answers d.tick ≡ true = all d.tick (omega arith) in cc;
      },
      rw refused,
    )
  ]

  -- The driver is set.
  pub set_driver-Ends :
      (usb : Bool) (e : Device)
      → IsOpened c d e
      → e.rs485 ≡ none
      → Ends
          (λ u f.
            IsOpened c d f
            × (f.settings ≡ e.settings)
            × (f.serial ≡ e.serial)
            × HasDriver usb f.rs485)
          (IsRefused c d)
          (set_driver usb e)
  unfolding set_driver enable_rs485 answer
  set_driver-Ends true e o no_rs = (o, refl, refl, no_rs)
  set_driver-Ends false e o no_rs =
      let later = IsOpened-ticked c d e o in
      elim (checked-cases rs485_refused (ticked e)) [
        | inl went ↦
            let o2 = IsOpened-ticked c d (ticked e) later in
            rw went (
              record {
                fd = o.fd;
                open_fds = o.open_fds;
                port = o.port;
                answers = o.answers;
                tick = o2.tick;
                next = o.next;
              },
              refl,
              refl,
              (_, refl, refl, refl, refl),
            )
        | inr (refused, thrown) ↦
            rw thrown (IsRefused-ticked c d (ticked e) later rs485_refused (λ e. cc) refused)
      ]

module _ (cfmakeraw : Termios → Termios) (b_rate : ℕ → ℕ)
    (cfsetispeed cfsetospeed : ℕ → Termios → Termios)
    (keeps_in : (n : ℕ) (t : Termios) → SameFormat t (cfsetispeed n t))
    (keeps_out : (n : ℕ) (t : Termios) → SameFormat t (cfsetospeed n t)) (c : SerialConfig)
    (d : Device) where
  set_standard-Ends :
      (baud : ℕ) (t : Termios) (e : Device)
      → one_of baud standard_bauds ≡ true
      → IsOpened c d e
      → Ends
          (λ u f.
            IsOpened c d f
            × (f.rs485 ≡ e.rs485)
            × SameFormat t u
            × HasRate b_rate cfsetispeed cfsetospeed baud u f.serial)
          (IsRefused c d)
          (set_standard cfmakeraw b_rate cfsetispeed cfsetospeed baud t e)
  unfolding set_standard HasRate
  set_standard-Ends baud t e standard o = elim (checked-cases speed_refused e) [
    | inr (refused, thrown) ↦ rw thrown (IsRefused-ticked c d e o speed_refused (λ e. cc) refused)
    | inl went ↦
        let later = IsOpened-ticked c d e o in
        elim (checked-cases speed_refused (ticked e)) [
          | inr (refused, thrown) ↦
              rw (went, thrown)
                (IsRefused-ticked c d (ticked e) later speed_refused (λ e. cc) refused)
          | inl went2 ↦
              rw (went, went2)
                (
                  IsOpened-ticked c d (ticked e) later,
                  refl,
                  SameFormat-trans _ _ _ (keeps_in (b_rate baud) t) (keeps_out (b_rate baud) _),
                  inl (standard, t, refl),
                )
        ]
  ]

  set_custom-Ends :
      (baud : ℕ) (t : Termios) (e : Device)
      → one_of baud standard_bauds ≡ false
      → (baud == 0) ≡ false
      → IsOpened c d e
      → Ends
          (λ u f.
            IsOpened c d f
            × (f.rs485 ≡ e.rs485)
            × SameFormat t u
            × HasRate b_rate cfsetispeed cfsetospeed baud u f.serial)
          (IsRefused c d)
          (set_custom cfmakeraw b_rate cfsetispeed cfsetospeed baud t e)
  unfolding set_custom HasRate
  set_custom-Ends baud t e custom rate o = elim (checked-cases serial_unread e) [
    | inr (refused, thrown) ↦ rw thrown (IsRefused-ticked c d e o serial_unread (λ e. cc) refused)
    | inl went ↦
        let later = IsOpened-ticked c d e o in
        elim (checked-cases divisor_refused (ticked e)) [
          | inr (refused, thrown) ↦
              rw (went, rate, thrown)
                (IsRefused-ticked c d (ticked e) later divisor_refused (λ e. cc) refused)
          | inl went2 ↦
              let o2 = IsOpened-ticked c d (ticked e) later in
              rw (went, rate, went2)
                (
                  record {
                    fd = o.fd;
                    open_fds = o.open_fds;
                    port = o.port;
                    answers = o.answers;
                    tick = o2.tick;
                    next = o.next;
                  },
                  refl,
                  record {
                    crtscts = refl;
                    parenb = refl;
                    parodd = refl;
                    csize = refl;
                    istrip = refl;
                    cstopb = refl;
                    receiver = (refl, refl);
                    reads = (refl, refl);
                  },
                  inr (custom, t, refl, _, refl, refl, refl),
                )
        ]
  ]

  -- The rate of the port is set one way or the other.
  pub set_speed-Ends :
      (baud : ℕ) (t : Termios) (e : Device)
      → (baud == 0) ≡ false
      → IsOpened c d e
      → Ends
          (λ u f.
            IsOpened c d f
            × (f.rs485 ≡ e.rs485)
            × SameFormat t u
            × HasRate b_rate cfsetispeed cfsetospeed baud u f.serial)
          (IsRefused c d)
          (set_speed cfmakeraw b_rate cfsetispeed cfsetospeed baud t e)
  unfolding set_speed
  set_speed-Ends baud t e rate o = elim (Bool-cases (one_of baud standard_bauds)) [
    | inl standard ↦ rw standard (set_standard-Ends baud t e standard o)
    | inr custom ↦ rw custom (set_custom-Ends baud t e custom rate o)
  ]
