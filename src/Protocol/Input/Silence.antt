-- ===== src/Protocol/Input/Silence.antt =====
-- `readcook` and `waitidle` return, where the line falls silent.
use osdpmaster.Prelude.{ℕ, ◌+◌, ◌<◌, ◌≡◌, List, ◌++◌, replicate}
use osdpmaster.Run.{
  Run, Cmd, ok, throw, starved, fault, out_of_fuel, and_then, read_failed, Failure, Safe,
}
use osdpmaster.Run
use osdpmaster.Timespec.{Timespec}
use osdpmaster.Protocol.{
  Protocol, Reply, size, error, RxEvent, no_data, slave_buff_size, readstamp, clock_gettime,
}
use osdpmaster.Protocol.Input.{on_size, readsoh, read_body, readcook, deadline_after}
use osdpmaster.Protocol.Input.Bounds
use osdpmaster.Protocol.Input.Bounds.{HasBuffer}
use osdpmaster.Protocol.Input.Safe.{readcook-Safe, readstamp_lem}
use osdpmaster.Protocol.Input.Idle.{Idle}
use osdpmaster.Protocol.Input.Fed.{
  FallsSilent, Fed, Fed-Ends, Silent, readsoh_loop-Fed, read_body-Fed,
}

-- What follows a run that gives a size or an error and is not cut off.
stamped :
    (r : Run Protocol Reply)
    → Fed Silent r
    → Fed (λ q. Unit {0}) (and_then r (λ a s. and_then (readstamp s) (λ u t. ok a t)))
stamped (ok (size n) q) h = let (t, e) = readstamp_lem q in rw e tt
stamped (ok (error k) q) h = let (t, e) = readstamp_lem q in rw e tt
stamped (throw e s) h = h
stamped starved h = h
stamped fault h = tt
stamped out_of_fuel h = tt

-- The rest of a reply, behind its start.
body_behind :
    (r : Run Protocol Reply)
    → Fed Silent r
    → Fed
        (λ q. Unit {0})
        (and_then r
          (λ n q. and_then (on_size n read_body q) (λ a s. and_then (readstamp s) (λ u t. ok a t))))
body_behind (ok (size n) q) h = stamped (read_body n q) (read_body-Fed n q h)
body_behind (ok (error k) q) h = stamped (ok (error k) q) tt
body_behind (throw e s) h = h
body_behind starved h = h
body_behind fault h = tt
body_behind out_of_fuel h = tt

-- Where a poll to come finds no data after the deadline that `readcook` sets, or a read fails before,
-- `readcook` returns, whatever comes until then: with an error or a size of at least 4 and at most that of
-- the buffer; it throws only the exception of a failed read.
pub readcook-Ends :
    (p : Protocol)
    → HasBuffer p
    → FallsSilent p.clock
        (deadline_after 1000000 p.config.timeout (p.clock p.tick))
        (p.tick + 1)
        p.rx
    → Run.Ends (Bounds.Ends 4 slave_buff_size) (λ e q. e ≡ read_failed) (readcook p)
readcook-Ends p buf h = Fed-Ends _ (λ q. Unit {0}) (readcook p) (readcook-Safe p buf) fed
  where
    fed : Fed (λ q. Unit {0}) (readcook p)
    fed =
        unfold readcook in
        unfold clock_gettime in unfold readsoh in body_behind _ (readsoh_loop-Fed _ _ h)

-- The idle time from any reading of the clock on is over within `k` polls in a row that find no data.
abbrev pub IsOutlasted : ℕ → (ℕ → Timespec) → ℕ → Type 0
IsOutlasted idle clock k =
    (n m : ℕ)
    → n < m
    → FallsSilent clock (deadline_after 100000 idle (clock n)) m (replicate k no_data)

-- At last only silence comes: `k` polls without data.
record Quiets (clock : ℕ → Timespec) (idle k : ℕ) (p : Protocol) : Type 0 where
  before : List RxEvent
  rest : p.rx ≡ before ++ replicate k no_data
  same_clock : p.clock ≡ clock
  same_idle : p.config.idle ≡ idle
