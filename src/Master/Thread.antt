-- ===== src/Master/Thread.antt =====
-- The thread of the bus never ends by an exception.
use osdpmaster.Prelude.{ℕ, zero, suc, ◌≡◌, refl, Bytes}
use osdpmaster.Run.{
  Failure, Run, Cmd, ok, throw, starved, fault, out_of_fuel, and_then, catch, pure,
}
use osdpmaster.Bus.{slave_poll}
use osdpmaster.Port.{Termios}
use osdpmaster.Master.{
  Master, with_bus, prepcom, reopen, poll_round, poll_rounds, run, busprotocol_run,
}
use osdpmaster.Master.Reopen.{close_lem}

-- A run that does not throw.
abbrev IsCaught : {S A : Type 0} → Run S A → Type 0
IsCaught (ok a s) = Unit {0}
IsCaught (throw e s) = ⊥
IsCaught starved = Unit {0}
IsCaught fault = Unit {0}
IsCaught out_of_fuel = Unit {0}

catch-IsCaught :
    {S A : Type 0} (r : Run S A) (k : Failure → Cmd S A)
    → ((e : Failure) (s : S) → IsCaught (k e s))
    → IsCaught (catch r k)
catch-IsCaught (ok a s) k h = tt
catch-IsCaught (throw e s) k h = h e s
catch-IsCaught starved k h = tt
catch-IsCaught fault k h = tt
catch-IsCaught out_of_fuel k h = tt

and_then-IsCaught :
    {S A B : Type 0} (r : Run S A) (k : A → Cmd S B)
    → IsCaught r
    → ((a : A) (s : S) → IsCaught (k a s))
    → IsCaught (and_then r k)
and_then-IsCaught (ok a s) k h next = next a s
and_then-IsCaught (throw e s) k h next = h
and_then-IsCaught starved k h next = tt
and_then-IsCaught fault k h next = tt
and_then-IsCaught out_of_fuel k h next = tt

catch_nothing : {S A : Type 0} (r : Run S A) (k : Failure → Cmd S A) → IsCaught r → catch r k ≡ r
catch_nothing (ok a s) k h = refl
catch_nothing (throw e s) k h = absurd h
catch_nothing starved k h = refl
catch_nothing fault k h = refl
catch_nothing out_of_fuel k h = refl

module _ (cfmakeraw : Termios → Termios) (b_rate : ℕ → ℕ)
    (cfsetispeed cfsetospeed : ℕ → Termios → Termios) (uuid_unparse : Bytes → Bytes)
    (align : ℕ) where
  reopen-IsCaught :
      (fuel : ℕ) (m : Master) → IsCaught (reopen cfmakeraw b_rate cfsetispeed cfsetospeed fuel m)
  unfolding reopen
  reopen-IsCaught zero m = tt
  reopen-IsCaught (suc fuel) m =
      catch-IsCaught (prepcom cfmakeraw b_rate cfsetispeed cfsetospeed m) _
        (λ e n. reopen-IsCaught fuel _)

  poll_round-IsCaught :
      (fuel : ℕ) (m : Master)
      → IsCaught (poll_round cfmakeraw b_rate cfsetispeed cfsetospeed uuid_unparse align fuel m)
  unfolding poll_round
  poll_round-IsCaught fuel m =
      catch-IsCaught
        (and_then (with_bus m.device (slave_poll uuid_unparse align m.bus)) (λ polled. pure tt)) _
        (λ e n. rw (close_lem n.device) (reopen-IsCaught fuel _))

  poll_rounds-IsCaught :
      (fuel n : ℕ) (m : Master)
      → IsCaught (poll_rounds cfmakeraw b_rate cfsetispeed cfsetospeed uuid_unparse align fuel n m)
  unfolding poll_rounds
  poll_rounds-IsCaught fuel zero m = tt
  poll_rounds-IsCaught fuel (suc n) m =
      and_then-IsCaught
        (poll_round cfmakeraw b_rate cfsetispeed cfsetospeed uuid_unparse align fuel m) _
        (poll_round-IsCaught fuel m) (λ u o. poll_rounds-IsCaught fuel n o)

  -- No exception of the serial protocol reaches the thread's own handler, in any number of rounds and
  -- whatever the line and the system calls bring: the loops of `run` recover from each, so the handler
  -- changes nothing and never ends the thread.
  pub busprotocol_run-run :
      (fuel n : ℕ) (m : Master)
      → busprotocol_run cfmakeraw b_rate cfsetispeed cfsetospeed uuid_unparse align fuel n m
        ≡ run cfmakeraw b_rate cfsetispeed cfsetospeed uuid_unparse align fuel n m
  unfolding busprotocol_run run
  busprotocol_run-run fuel n m =
      catch_nothing (and_then (reopen cfmakeraw b_rate cfsetispeed cfsetospeed fuel m) _) _ (
        and_then-IsCaught (reopen cfmakeraw b_rate cfsetispeed cfsetospeed fuel m) _
          (reopen-IsCaught fuel m) (λ u o. poll_rounds-IsCaught fuel n o))
