-- ===== src/Prelude/Tables.antt =====
-- Statements over a small range, checked at every value by evaluation.
use Prim.Native.Nat.{ℕ, zero, suc, ◌<◌}
use mathlib.Core.Path.{◌≡◌, refl}
use mathlib.Core.Bool.{Bool, true, ◌&&◌}
use native.Mathlib.Omega.{arith}
use osdpmaster.Prelude.Tests.{◌==◌, ==_iff, Bool-cases}
use mathlib.Core.Logic.{inl, inr}

unfoldable pub all_below : ℕ → (ℕ → Bool) → Bool
all_below zero test = true
all_below (suc last) test = all_below last test && test last

pub all_below-elim :
    {limit : ℕ} (test : ℕ → Bool)
    → all_below limit test ≡ true
    → (i : ℕ) → i < limit
    → test i ≡ true
unfolding all_below
all_below-elim {limit = zero} test h i inside = absurd (omega arith)
all_below-elim {limit = suc last} test h i inside =
    let both : (all_below last test ≡ true) × (test last ≡ true) = ground arith in
    elim (Bool-cases (i == last)) [
      | inl at_last ↦ let e : i ≡ last = ground arith in rw e both.1
      | inr before ↦ all_below-elim {limit = last} test both.0 i (ground arith)
    ]

pub all_below_intro :
    (limit : ℕ) (test : ℕ → Bool)
    → ((i : ℕ) → i < limit → test i ≡ true)
    → all_below limit test ≡ true
unfolding all_below
all_below_intro zero test h = refl
all_below_intro (suc last) test h =
    rw (all_below_intro last test (λ i inside. h i (omega arith)), h last (omega arith))

-- Two functions that agree at every value below `n`.
pub agree_below :
    (n : ℕ) (f g : ℕ → ℕ) → all_below n (λ x. f x == g x) ≡ true → (x : ℕ) → x < n → f x ≡ g x
agree_below n f g t x h = (==_iff _ _).0 (all_below-elim (λ y. f y == g y) t x h)
