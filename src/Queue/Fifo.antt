-- ===== src/Queue/Fifo.antt =====
-- What `wait` gives, and how long it sleeps.
use osdpmaster.Prelude.{
  ℕ, ◌+◌, ◌*◌, ◌/◌, ◌%◌, ◌≡◌, refl, ap, not, List, [], ◌∷◌, ◌++◌, append_assoc, arith,
}
use osdpmaster.Run.{ok}
use osdpmaster.Timespec.{Timespec, second, IsNormal}
use osdpmaster.Timespec.Order.{nanos}
use osdpmaster.Queue.{Woken, signalled, timed_out, failed, empty, wait_loop, wait_until, wait}

module _ {A : Type 0} where
  -- What is pushed while the reader sleeps.
  abbrev pub pushed_until : List (Woken × List A) → List A
  pushed_until [] = []
  pushed_until ((signalled, p) ∷ es) = p
  pushed_until ((timed_out, p) ∷ es) = p
  pushed_until ((failed, p) ∷ es) = p ++ pushed_until es

  -- The thread is woken, or the time is over, some time.
  abbrev pub IsEnded : List (Woken × List A) → Type 0
  IsEnded [] = ⊥
  IsEnded ((signalled, p) ∷ es) = Unit {0}
  IsEnded ((timed_out, p) ∷ es) = Unit {0}
  IsEnded ((failed, p) ∷ es) = IsEnded es

  wait_loop_lem :
      (es : List (Woken × List A)) (q : List A)
      → IsEnded es
      → wait_loop es q ≡ ok (not (empty (q ++ pushed_until es))) (q ++ pushed_until es)
  unfolding wait_loop
  wait_loop_lem [] q h = absurd h
  wait_loop_lem ((signalled, p) ∷ es) q h = refl
  wait_loop_lem ((timed_out, p) ∷ es) q h = refl
  wait_loop_lem ((failed, p) ∷ es) q h =
      rw (wait_loop_lem es (q ++ p) h)
        (ap (λ xs. ok (not (empty xs)) xs) (append_assoc q p (pushed_until es)))

wait_until-nanos :
    (ms : ℕ) (now : Timespec)
    → IsNormal now
    → IsNormal (wait_until ms now)
      × (nanos (wait_until ms now) ≡ nanos now + ms / 1000 * second + ms % 1000 * 1000)
unfolding wait_until
wait_until-nanos ms now h = (ground arith, ground arith)

-- `wait` comes to an end if the thread is woken or its time is over, and then says whether the queue holds
-- anything, what was pushed in the meantime included; other errors of the call only lead to another round.
-- From a normal time, the time until which it sleeps is normal and lies behind it by the whole seconds of
-- the interval and a thousandth of its rest.
pub wait_lem :
    {A : Type 0} (ms : ℕ) (now : Timespec) (es : List (Woken × List A)) (q : List A)
    → IsNormal now
    → IsEnded es
    → (until : Timespec) × (wait ms now es q
        ≡ ok (until, not (empty (q ++ pushed_until es))) (q ++ pushed_until es))
      × IsNormal until
      × (nanos until ≡ nanos now + ms / 1000 * second + ms % 1000 * 1000)
unfolding wait
wait_lem ms now es q h ended =
    let (normal, later) = wait_until-nanos ms now h in
    (wait_until ms now, rw (wait_loop_lem es q ended), normal, later)
