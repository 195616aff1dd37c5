-- ===== src/Master/Invariant.antt =====
-- The program as a machine of rounds and messages, and what holds in every state that it reaches.
use osdpmaster.Prelude.{ℕ, zero, suc, ◌≡◌, Option-cases, inl, inr, Bytes}
use osdpmaster.Run.{
  Run, ok, throw, starved, fault, out_of_fuel, and_then, pure, Keeps, Keeps-and_then, Keeps-catch,
  Keeps-ok,
}
use osdpmaster.Bus.{Bus, slave_poll}
use osdpmaster.Bus.Messages.{Delivery, message_callback}
use osdpmaster.Bus.Invariant.{IsSound}
use osdpmaster.Bus.Invariant.Poll.{slave_poll-IsSound}
use osdpmaster.Bus.Invariant.Messages.{message_callback-IsSound}
use osdpmaster.Port.{Device, Termios, prepare, close}
use osdpmaster.Master.{Master, with_device, with_bus, switch_ports, prepcom, reopen, poll_round}

module _ (cfmakeraw : Termios → Termios) (b_rate : ℕ → ℕ)
    (cfsetispeed cfsetospeed : ℕ → Termios → Termios) (uuid_unparse : Bytes → Bytes) (align : ℕ)
    (strtoul : Bytes → ℕ) where
  abbrev SoundBus : Bus → Type 0
  SoundBus b = IsSound uuid_unparse align b

  abbrev Sound : Master → Type 0
  Sound m = IsSound uuid_unparse align m.bus

  with_device-IsSound :
      {A : Type 0} (b : Bus) (r : Run Device A) → SoundBus b → Keeps Sound (with_device b r)
  with_device-IsSound b (ok a d) v = v
  with_device-IsSound b (throw e d) v = v
  with_device-IsSound b starved v = tt
  with_device-IsSound b fault v = tt
  with_device-IsSound b out_of_fuel v = tt

  with_bus-IsSound :
      {A : Type 0} (d : Device) (r : Run Bus A) → Keeps SoundBus r → Keeps Sound (with_bus d r)
  with_bus-IsSound d (ok a b) h = h
  with_bus-IsSound d (throw e b) h = h
  with_bus-IsSound d starved h = h
  with_bus-IsSound d fault h = h
  with_bus-IsSound d out_of_fuel h = h

  switch_ports-IsSound : (b : Bus) → SoundBus b → SoundBus (switch_ports b)
  unfolding switch_ports
  switch_ports-IsSound b v = elim (Option-cases b.port2) [
    | inl none_set ↦ rw none_set (record { slaves = v.slaves; place = v.place })
    | inr (other, set) ↦ rw set (record { slaves = v.slaves; place = v.place })
  ]

  reopen-IsSound :
      (fuel : ℕ) (m : Master)
      → Sound m
      → Keeps Sound (reopen cfmakeraw b_rate cfsetispeed cfsetospeed fuel m)
  unfolding reopen prepcom
  reopen-IsSound zero m v = tt
  reopen-IsSound (suc fuel) m v =
      Keeps-catch Sound
        (and_then
          (with_device m.bus
            (prepare cfmakeraw b_rate cfsetispeed cfsetospeed m.bus.proto.config m.device))
          _)
        _
        (Keeps-and_then Sound
          (with_device m.bus
            (prepare cfmakeraw b_rate cfsetispeed cfsetospeed m.bus.proto.config m.device))
          _ (with_device-IsSound m.bus _ v)
          (λ u n w. record { slaves = w.slaves; place = w.place }))
        (λ e n w. reopen-IsSound fuel _ (switch_ports-IsSound n.bus w))

  poll_round-IsSound :
      (fuel : ℕ) (m : Master)
      → Sound m
      → Keeps Sound (poll_round cfmakeraw b_rate cfsetispeed cfsetospeed uuid_unparse align fuel m)
  unfolding poll_round
  poll_round-IsSound fuel m v =
      Keeps-catch Sound
        (and_then (with_bus m.device (slave_poll uuid_unparse align m.bus)) (λ polled. pure tt)) _
        (Keeps-and_then Sound (with_bus m.device (slave_poll uuid_unparse align m.bus)) _
          (with_bus-IsSound m.device _ (slave_poll-IsSound uuid_unparse align m.bus v))
          (λ p n w. w))
        (λ e n w.
          Keeps-and_then Sound (with_device n.bus (close n.device)) _
            (with_device-IsSound n.bus _ w) (λ u o x. reopen-IsSound fuel o x))

  -- The states that rounds of the loop, with what they recover from, and messages of the broker lead to
  -- in any order, each taken as a whole.
  pub data Reaches (m : Master) : Master → Type 0 where
    begin : Reaches m m
    round :
        {n o : Master}
        → Reaches m n
        → (fuel : ℕ)
        → poll_round cfmakeraw b_rate cfsetispeed cfsetospeed uuid_unparse align fuel n ≡ ok tt o
        → Reaches m o
    message :
        {n : Master} {b : Bus}
        → Reaches m n
        → (topic payload : Bytes) (d : Delivery)
        → message_callback uuid_unparse align strtoul topic payload n.bus ≡ ok d b
        → Reaches m (record n { bus = b })

  -- In every state that rounds of the loop and messages of the broker lead to, in any order, from one
  -- where every slave is valid and there is a current one, the same holds: retries and sequence numbers
  -- stay within their bounds, and the next poll does not step over the end of an empty list.
  pub Reaches-IsSound : {m n : Master} → Sound m → Reaches m n → Sound n
  Reaches-IsSound v begin = v
  Reaches-IsSound v (round {n} r fuel e) =
      Keeps-ok Sound _ tt _ (poll_round-IsSound fuel n (Reaches-IsSound v r)) e
  Reaches-IsSound v (message {n} r topic payload d e) =
      Keeps-ok SoundBus _ d _
        (message_callback-IsSound uuid_unparse align strtoul topic payload n.bus
          (Reaches-IsSound v r))
        e
