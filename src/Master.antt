-- ===== src/Master.antt =====
-- `busprotocol::run` of osdpmaster.cpp: the port is opened, under its alternate name in turn, and the
-- slaves are polled until there is an exception; then the port is opened again. What is logged is left
-- out.
pub mod Reopen
pub mod Invariant
pub mod Defined
pub mod Thread
use osdpmaster.Prelude.{ℕ, zero, suc, ◌+◌, Option, none, some, Bytes}
use osdpmaster.Run.{
  Failure, Run, Cmd, ok, throw, starved, fault, out_of_fuel, pure, and_then, catch, ◌>>=◌, ◌>>◌,
  modify,
}
use osdpmaster.Timespec.{timespec}
use osdpmaster.Protocol.{Protocol, SerialConfig}
use osdpmaster.Bus.{Bus, slave_poll}
use osdpmaster.Port.{Device, Termios, prepare, close}

pub record Master : Type 0 where
  pub bus : Bus
  pub device : Device

-- A run on a part of the state.
abbrev pub with_device : {A : Type 0} → Bus → Run Device A → Run Master A
with_device b (ok a d) = ok a (record { bus = b; device = d })
with_device b (throw e d) = throw e (record { bus = b; device = d })
with_device b starved = starved
with_device b fault = fault
with_device b out_of_fuel = out_of_fuel

abbrev pub with_bus : {A : Type 0} → Device → Run Bus A → Run Master A
with_bus d (ok a b) = ok a (record { bus = b; device = d })
with_bus d (throw e b) = throw e (record { bus = b; device = d })
with_bus d starved = starved
with_bus d fault = fault
with_bus d out_of_fuel = out_of_fuel

-- The names of the port and of its alternate change places, if there is an alternate.
abbrev pub exchange : Option Bytes → Bus → Bus
exchange none b = b
exchange (some other) b = record b {
  proto = record b.proto { config = record b.proto.config { port = other } };
  port2 = some b.proto.config.port;
}

unfoldable pub switch_ports : Bus → Bus
switch_ports b = exchange b.port2 b

abbrev pub sleep : ℕ → Device → Device
sleep seconds d = record d { slept = d.slept + seconds }

-- `memset(&m_next_write, 0, ...)`
abbrev pub clear_next_write : Bus → Bus
clear_next_write b = record b { proto = record b.proto { next_write = timespec 0 0 } }

module _ (cfmakeraw : Termios → Termios) (b_rate : ℕ → ℕ)
    (cfsetispeed cfsetospeed : ℕ → Termios → Termios) where
  unfoldable pub prepcom : Cmd Master (Unit {0})
  prepcom m =
      and_then
        (with_device m.bus
          (prepare cfmakeraw b_rate cfsetispeed cfsetospeed m.bus.proto.config m.device))
        (λ u. modify (λ n. record n { bus = clear_next_write n.bus }))

  -- The loop that tries to open the port.
  unfoldable pub reopen : ℕ → Cmd Master (Unit {0})
  reopen zero m = out_of_fuel
  reopen (suc fuel) m =
      catch (prepcom m)
        (λ e n. reopen fuel (record { bus = switch_ports n.bus; device = sleep 5 n.device }))

  module _ (uuid_unparse : Bytes → Bytes) (align : ℕ) where
    -- A round of the second loop.
    unfoldable pub poll_round : ℕ → Cmd Master (Unit {0})
    poll_round fuel m =
        catch
          (and_then (with_bus m.device (slave_poll uuid_unparse align m.bus)) (λ polled. pure tt))
          (λ e n. and_then (with_device n.bus (close n.device)) (λ u. reopen fuel))

    -- `run`, for so many rounds of its endless loop.
    unfoldable pub poll_rounds : ℕ → ℕ → Cmd Master (Unit {0})
    poll_rounds fuel zero m = ok tt m
    poll_rounds fuel (suc n) m = and_then (poll_round fuel m) (λ u. poll_rounds fuel n)

    unfoldable pub run : ℕ → ℕ → Cmd Master (Unit {0})
    run fuel n m = and_then (reopen fuel m) (λ u. poll_rounds fuel n)

    -- `busprotocol_run`, the body of the thread; what an exception says goes to the standard error.
    unfoldable pub busprotocol_run : ℕ → ℕ → Cmd Master (Unit {0})
    busprotocol_run fuel n m = catch (run fuel n m) (λ e. pure tt)
