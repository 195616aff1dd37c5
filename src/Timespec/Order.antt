-- ===== src/Timespec/Order.antt =====
-- The orders on times against the order of their nanoseconds, and the arithmetic of timespec.h.
use osdpmaster.Prelude.{
  ℕ, ◌+◌, ◌-◌, ◌*◌, ◌/◌, ◌%◌, ◌≤◌, ◌≡◌, ◌↔◌, arith, ltb, leb, ◌==◌, pos, negsuc, if◌then◌else◌,
}
use osdpmaster.Timespec.{
  Timespec, second, IsNormal, protocol_lt, protocol_le, ts_le, ts_ge, ts_lt, ts_gt, ts_eq, ts_sub,
  to_ms, add_ms,
}

-- A time in nanoseconds.
abbrev pub nanos : Timespec → ℕ
nanos t = t.tv_sec * second + t.tv_nsec

-- On normal times each of the five comparisons of timespec.h, and both orders of osdpprotocol.cpp, is
-- that of the nanoseconds.
pub comparisons_by_nanos :
    (l r : Timespec)
    → IsNormal l
    → IsNormal r
    → (ts_lt l r ≡ ltb (nanos l) (nanos r))
      × (ts_gt l r ≡ ltb (nanos r) (nanos l))
      × (ts_le l r ≡ leb (nanos l) (nanos r))
      × (ts_ge l r ≡ leb (nanos r) (nanos l))
      × (ts_eq l r ≡ (nanos l == nanos r))
      × (protocol_lt l r ≡ ltb (nanos l) (nanos r))
      × (protocol_le l r ≡ leb (nanos l) (nanos r))
unfolding ts_lt ts_gt ts_le ts_ge ts_eq protocol_lt protocol_le
comparisons_by_nanos l r h k = (
  ground arith,
  ground arith,
  ground arith,
  ground arith,
  ground arith,
  ground arith,
  ground arith,
)

-- The difference of normal times in milliseconds is the floor of the difference in nanoseconds; where
-- the first time is the earlier one this is at least one millisecond below zero.
pub to_ms-ts_sub :
    (l r : Timespec)
    → IsNormal l
    → IsNormal r
    → to_ms (ts_sub l r) ≡ (
        if ltb (nanos l) (nanos r)
        then negsuc ((nanos r - nanos l - 1) / 1000000)
        else pos ((nanos l - nanos r) / 1000000))
unfolding ts_sub to_ms
to_ms-ts_sub l r h k = ground arith

-- Adding milliseconds to a normal time adds so many nanoseconds. The nanoseconds of the result are at
-- most a second, and a whole second exactly if those of the time and of the milliseconds below a second
-- add up to one: there the result is not normal, as the test is `>`.
pub add_ms-nanos :
    (t : Timespec) (ms : ℕ)
    → IsNormal t
    → (nanos (add_ms t ms) ≡ nanos t + ms * 1000000)
      × ((add_ms t ms).tv_nsec ≤ second)
      × (((add_ms t ms).tv_nsec ≡ second) ↔ (t.tv_nsec + ms % 1000 * 1000000 ≡ second))
unfolding add_ms
add_ms-nanos t ms h = (ground arith, ground arith, (ground arith, ground arith))
