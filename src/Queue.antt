-- ===== src/Queue.antt =====
-- sync_queue.h: a queue with many writers and one reader, as the list of its elements. Each operation is
-- what one thread does to the list, `push` and `pop` under the lock and `front` without it; the lock itself
-- is not modelled.
pub mod Fifo
use osdpmaster.Prelude.{
  ℕ, zero, suc, ◌+◌, ◌-◌, ◌*◌, ◌/◌, ◌%◌, Bool, true, false, not, List, [], ◌∷◌, ◌++◌, if◌then◌else◌,
  leb, length,
}
use osdpmaster.Run.{Run, Cmd, ok, fault, starved, and_then}
use osdpmaster.Timespec.{Timespec, timespec, second}

-- What `pthread_cond_timedwait` returns: 0, ETIMEDOUT or another error.
pub data Woken : Type 0 where
  signalled timed_out failed : Woken

module _ {A : Type 0} where
  unfoldable pub empty : List A → Bool
  empty [] = true
  empty (a ∷ q) = false

  unfoldable pub size : List A → ℕ
  size q = length q

  -- `front` and `pop` of an empty queue are undefined.
  unfoldable pub front : Cmd (List A) A
  front [] = fault
  front (a ∷ q) = ok a (a ∷ q)

  unfoldable pub push : A → Cmd (List A) (Unit {0})
  push v q = ok tt (q ++ v ∷ [])

  unfoldable pub pop : Cmd (List A) (Unit {0})
  pop [] = fault
  pop (a ∷ q) = ok tt q

  -- The loop of `wait`. While the thread sleeps it does not hold the lock, and others push elements.
  unfoldable pub wait_loop : List (Woken × List A) → Cmd (List A) Bool
  wait_loop [] q = starved
  wait_loop ((signalled, pushed) ∷ es) q = ok (not (empty (q ++ pushed))) (q ++ pushed)
  wait_loop ((timed_out, pushed) ∷ es) q = ok (not (empty (q ++ pushed))) (q ++ pushed)
  wait_loop ((failed, pushed) ∷ es) q = wait_loop es (q ++ pushed)

-- Until when `wait` sleeps: milliseconds from now, as the source adds them.
unfoldable pub wait_until : ℕ → Timespec → Timespec
wait_until ms now =
    let s = now.tv_sec + ms / 1000 in
    let n = now.tv_nsec + ms % 1000 * 1000 in
    if leb second n then timespec (s + 1) (n - second) else timespec s n

-- `wait`, from a reading of the clock: until when the thread may sleep, and whether there is an element.
unfoldable pub wait :
    {A : Type 0} → ℕ → Timespec → List (Woken × List A) → Cmd (List A) (Timespec × Bool)
wait ms now es q = and_then (wait_loop es q) (λ found. ok (wait_until ms now, found))
