-- ===== src/Katomic.antt =====
-- katomic.h: the atomic counters, of type int, as bit patterns of 32 bits. Each operation is one step.
use osdpmaster.Prelude.{ℕ, ◌+◌, ◌-◌, ◌%◌, ◌^◌, Bool, ◌==◌}

-- The new value of the counter, and the result of `katomic_add`: the old one.
abbrev pub katomic_add : ℕ → ℕ → ℕ × ℕ
katomic_add c incr = ((c + incr) % 2 ^ 32, c)

abbrev pub katomic_inc : ℕ → ℕ × ℕ
katomic_inc c = katomic_add c 1

-- The new value, and whether it is zero.
abbrev pub katomic_dec_test : ℕ → ℕ × Bool
katomic_dec_test c = ((c + 2 ^ 32 - 1) % 2 ^ 32, (c + 2 ^ 32 - 1) % 2 ^ 32 == 0)
