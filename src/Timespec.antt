-- ===== src/Timespec.antt =====
-- timespec.h, and the two orders of osdpprotocol.cpp. A reading of the monotonic clock is never
-- negative, so its fields are natural numbers; a difference of two readings has signed fields.
pub mod Order
use osdpmaster.Prelude.{
  ℕ, ◌+◌, ◌-◌, ◌*◌, ◌/◌, ◌%◌, ◌<◌, Bool, true, false, not, ◌&&◌, ltb, leb, ◌==◌, if◌then◌else◌, ℤ,
  pos, negsuc, sub_ℕ, add_nat, sub_nat, ◌+ℤ◌, mul_nat, div_nat, is_negative,
}

pub record Timespec : Type 0 where
  pub tv_sec : ℕ
  pub tv_nsec : ℕ

abbrev pub timespec : ℕ → ℕ → Timespec
timespec s n = record { tv_sec = s; tv_nsec = n }

abbrev pub second : ℕ
second = 1000000000

-- The nanoseconds are below a second.
abbrev pub IsNormal : Timespec → Type 0
IsNormal t = t.tv_nsec < second

-- `operator<` and `operator<=` of osdpprotocol.cpp.
unfoldable pub protocol_lt : Timespec → Timespec → Bool
protocol_lt l r =
    if ltb l.tv_sec r.tv_sec
    then true
    else if ltb r.tv_sec l.tv_sec
    then false
    else ltb l.tv_nsec r.tv_nsec

unfoldable pub protocol_le : Timespec → Timespec → Bool
protocol_le l r =
    if ltb l.tv_sec r.tv_sec
    then true
    else if ltb r.tv_sec l.tv_sec
    then false
    else leb l.tv_nsec r.tv_nsec

-- The comparisons of timespec.h; `<` and `>` are defined by negation there.
unfoldable pub ts_le : Timespec → Timespec → Bool
ts_le l r =
    if ltb l.tv_sec r.tv_sec
    then true
    else if ltb r.tv_sec l.tv_sec
    then false
    else leb l.tv_nsec r.tv_nsec

unfoldable pub ts_ge : Timespec → Timespec → Bool
ts_ge l r =
    if ltb l.tv_sec r.tv_sec
    then false
    else if ltb r.tv_sec l.tv_sec
    then true
    else leb r.tv_nsec l.tv_nsec

unfoldable pub ts_lt : Timespec → Timespec → Bool
unfolding ts_ge
ts_lt l r = not (ts_ge l r)

unfoldable pub ts_gt : Timespec → Timespec → Bool
unfolding ts_le
ts_gt l r = not (ts_le l r)

unfoldable pub ts_eq : Timespec → Timespec → Bool
ts_eq l r = l.tv_sec == r.tv_sec && l.tv_nsec == r.tv_nsec

-- A difference of two readings.
pub record Span : Type 0 where
  pub sec : ℤ
  pub nsec : ℤ

-- One second is borrowed where the nanoseconds fall below zero.
abbrev borrow : Span → Span
borrow d =
    if is_negative d.nsec then record { sec = sub_nat d.sec 1; nsec = add_nat d.nsec second } else d

-- `operator-=` and `operator-`.
unfoldable pub ts_sub : Timespec → Timespec → Span
ts_sub later earlier =
    borrow (record {
      sec = sub_ℕ later.tv_sec earlier.tv_sec;
      nsec = sub_ℕ later.tv_nsec earlier.tv_nsec;
    })

-- `to_ms`
unfoldable pub to_ms : Span → ℤ
to_ms d = mul_nat d.sec 1000 +ℤ div_nat d.nsec 1000000

-- `operator+=`: milliseconds are added. The test is `>`, as in the source.
unfoldable pub add_ms : Timespec → ℕ → Timespec
add_ms t interval =
    let s = t.tv_sec + interval / 1000 in
    let n = t.tv_nsec + interval % 1000 * 1000000 in
    if ltb second n then timespec (s + 1) (n - second) else timespec s n
