-- ===== src/Master/Defined.antt =====
-- The whole program as a sequence of turns, each a round of the loop of `busprotocol::run` or a message of
-- the broker: where the payloads can be sent, it never does anything that C++ leaves undefined.
use osdpmaster.Prelude.{
  ℕ, zero, suc, ◌+◌, ◌≤◌, ◌<◌, ◌≡◌, false, List, [], ◌∷◌, Option-cases, replicate, fun_ext, refl,
  ap, inl, inr, Bytes, length, All,
}
use osdpmaster.Run.{
  Run, Cmd, ok, throw, starved, fault, out_of_fuel, and_then, pure, Ends, Stays, Stays-and_then,
  Stays-catch,
}
use osdpmaster.Protocol.{SerialConfig, slave_buff_size}
use osdpmaster.Topic.{split}
use osdpmaster.Bus.{Bus, slave_poll}
use osdpmaster.Bus.Messages.{is_command, message_callback}
use osdpmaster.Bus.Defined.{IsSteady, Sends}
use osdpmaster.Bus.Defined.Poll.{slave_poll-Stays}
use osdpmaster.Bus.Defined.Messages.{message_callback-Stays}
use osdpmaster.Port.{Device, Termios, prepare}
use osdpmaster.Port.Calls.{SameFormat, IsRefused}
use osdpmaster.Port.Prepare.{IsPrepared, prepare-Ends}
use osdpmaster.Master.{
  Master, with_device, with_bus, switch_ports, prepcom, reopen, poll_round, poll_rounds, run,
}
use osdpmaster.Master.Reopen.{close_lem}

-- What the threads of the program do in turn: a round of the loop, or a message of the broker with its
-- topic and payload.
pub data Turn : Type 0 where
  round : Turn
  message : Bytes → Bytes → Turn

-- A message that is addressed to a slave, is no command, and can be sent to it.
abbrev pub IsSendable : ℕ → ℕ → Turn → Type 0
IsSendable lead trail round = Unit {0}
IsSendable lead trail (message topic payload) =
    (3 < length (split (b'/') 0 topic))
    × (is_command (split (b'/') 0 topic) ≡ false)
    × Sends lead trail payload

module _ (cfmakeraw : Termios → Termios) (b_rate : ℕ → ℕ)
    (cfsetispeed cfsetospeed : ℕ → Termios → Termios) (uuid_unparse : Bytes → Bytes) (align : ℕ)
    (strtoul : Bytes → ℕ) where
  unfoldable pub turn : ℕ → Turn → Cmd Master (Unit {0})
  turn fuel round m = poll_round cfmakeraw b_rate cfsetispeed cfsetospeed uuid_unparse align fuel m
  turn fuel (message topic payload) m =
      and_then (with_bus m.device (message_callback uuid_unparse align strtoul topic payload m.bus))
        (λ d. pure tt)

  unfoldable pub turns : ℕ → List Turn → Cmd Master (Unit {0})
  turns fuel [] m = ok tt m
  turns fuel (t ∷ ts) m = and_then (turn fuel t m) (λ u. turns fuel ts)

  unfoldable pub serve : ℕ → List Turn → Cmd Master (Unit {0})
  serve fuel ts m =
      and_then (reopen cfmakeraw b_rate cfsetispeed cfsetospeed fuel m) (λ u. turns fuel ts)

  -- Rounds alone are those of `run`.
  turns-poll_rounds :
      (fuel n : ℕ)
      → turns fuel (replicate n round)
        ≡ poll_rounds cfmakeraw b_rate cfsetispeed cfsetospeed uuid_unparse align fuel n
  unfolding turns poll_rounds turn
  turns-poll_rounds fuel zero = refl
  turns-poll_rounds fuel (suc n) = fun_ext (λ m.
      ap
        (λ k.
          and_then (poll_round cfmakeraw b_rate cfsetispeed cfsetospeed uuid_unparse align fuel m)
            (λ u. k))
        (turns-poll_rounds fuel n))

  pub serve-run :
      (fuel n : ℕ) (m : Master)
      → serve fuel (replicate n round) m
        ≡ run cfmakeraw b_rate cfsetispeed cfsetospeed uuid_unparse align fuel n m
  unfolding serve run
  serve-run fuel n m =
      ap (λ k. and_then (reopen cfmakeraw b_rate cfsetispeed cfsetospeed fuel m) (λ u. k))
        (turns-poll_rounds fuel n)

  module _ (lead trail : ℕ) (room : lead + 8 + trail ≤ slave_buff_size)
      (keeps_in : (n : ℕ) (t : Termios) → SameFormat t (cfsetispeed n t))
      (keeps_out : (n : ℕ) (t : Termios) → SameFormat t (cfsetospeed n t)) where
    abbrev SteadyBus : Bus → Type 0
    SteadyBus b = IsSteady uuid_unparse align lead trail b

    abbrev Steady : Master → Type 0
    Steady m = SteadyBus m.bus

    prepared :
        (m : Master) (c : SerialConfig) (r : Run Device (Unit {0}))
        → Steady m
        → Ends
            (λ u d. IsPrepared cfmakeraw b_rate cfsetispeed cfsetospeed c m.device d)
            (IsRefused c m.device)
            r
        → Stays Unit Steady (with_device m.bus r)
    prepared m c (ok u d) v h = v
    prepared m c (throw e d) v h = v
    prepared m c starved v h = tt
    prepared m c fault v h = h
    prepared m c out_of_fuel v h = tt

    on_bus :
        {A : Type 0} (d : Device) (r : Run Bus A)
        → Stays ⊥ SteadyBus r
        → Stays Unit Steady (with_bus d r)
    on_bus d (ok a b) h = h
    on_bus d (throw e b) h = h
    on_bus d starved h = h
    on_bus d fault h = h
    on_bus d out_of_fuel h = tt

    switch_ports-Steady : (b : Bus) → SteadyBus b → SteadyBus (switch_ports b)
    unfolding switch_ports
    switch_ports-Steady b v = elim (Option-cases b.port2) [
      | inl none_set ↦ rw none_set (record { slaves = v.slaves; place = v.place; line = v.line })
      | inr (other, set) ↦ rw set (record {
        slaves = v.slaves;
        place = v.place;
        line = record {
          buffer = v.line.buffer;
          before = v.line.before;
          behind = v.line.behind;
          rate = v.line.rate;
        };
      })
    ]

    reopen-Stays :
        (fuel : ℕ) (m : Master)
        → Steady m
        → Stays Unit Steady (reopen cfmakeraw b_rate cfsetispeed cfsetospeed fuel m)
    unfolding reopen prepcom
    reopen-Stays zero m v = tt
    reopen-Stays (suc fuel) m v =
        let c = m.bus.proto.config in
        Stays-catch Unit Steady _ _
          (Stays-and_then Unit Steady
            (with_device m.bus (prepare cfmakeraw b_rate cfsetispeed cfsetospeed c m.device)) _
            (prepared m c _ v (
              prepare-Ends cfmakeraw b_rate cfsetispeed cfsetospeed keeps_in keeps_out c m.device
                v.line.rate))
            (λ u n w. record { slaves = w.slaves; place = w.place; line = w.line }))
          (λ e n w. reopen-Stays fuel _ (switch_ports-Steady n.bus w))

    poll_round-Stays :
        (fuel : ℕ) (m : Master)
        → Steady m
        → Stays Unit Steady
            (poll_round cfmakeraw b_rate cfsetispeed cfsetospeed uuid_unparse align fuel m)
    unfolding poll_round
    poll_round-Stays fuel m v =
        Stays-catch Unit Steady _ _
          (Stays-and_then Unit Steady (with_bus m.device (slave_poll uuid_unparse align m.bus)) _
            (on_bus m.device _ (slave_poll-Stays uuid_unparse align lead trail room m.bus v))
            (λ p n w. w))
          (λ e n w. rw (close_lem n.device) (reopen-Stays fuel _ w))

    turn-Stays :
        (fuel : ℕ) (t : Turn) (m : Master)
        → IsSendable lead trail t
        → Steady m
        → Stays Unit Steady (turn fuel t m)
    unfolding turn
    turn-Stays fuel round m h v = poll_round-Stays fuel m v
    turn-Stays fuel (message topic payload) m h v =
        Stays-and_then Unit Steady
          (with_bus m.device (message_callback uuid_unparse align strtoul topic payload m.bus)) _
          (on_bus m.device _ (
            message_callback-Stays uuid_unparse align lead trail strtoul topic payload m.bus h.0 h.1
              h.2 v))
          (λ d n w. w)

    turns-Stays :
        (fuel : ℕ) (ts : List Turn) (m : Master)
        → All (IsSendable lead trail) ts
        → Steady m
        → Stays Unit Steady (turns fuel ts m)
    unfolding turns
    turns-Stays fuel [] m h v = v
    turns-Stays fuel (t ∷ ts) m h v =
        Stays-and_then Unit Steady (turn fuel t m) _ (turn-Stays fuel t m h.0 v)
          (λ u n w. turns-Stays fuel ts n h.1 w)

    -- Once the port is open, rounds of the loop and messages of the broker follow each other in any order:
    -- where every message has four components in its topic or more, is no command, and has a payload that
    -- is not empty and fits the transmit buffer, and the bus is in order at first, nothing undefined is ever done, whatever comes over the
    -- line and whatever the system calls answer, and the bus is in order wherever the program stops.
    pub serve-Stays :
        (fuel : ℕ) (ts : List Turn) (m : Master)
        → All (IsSendable lead trail) ts
        → Steady m
        → Stays Unit Steady (serve fuel ts m)
    unfolding serve
    serve-Stays fuel ts m h v =
        Stays-and_then Unit Steady (reopen cfmakeraw b_rate cfsetispeed cfsetospeed fuel m) _
          (reopen-Stays fuel m v) (λ u n w. turns-Stays fuel ts n h w)
