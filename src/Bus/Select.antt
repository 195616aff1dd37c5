-- ===== src/Bus/Select.antt =====
-- The choice of the next slave by `slave_poll`: round robin over the slaves that can be polled.
use native.Mathlib.Nat.{mod-lt, mod-eq_of_lt, mod_self, mod-add-mod, add-mod_right, mod-eq-sub-mod}
use osdpmaster.Prelude.{
  ℕ, zero, suc, ◌+◌, ◌-◌, ◌%◌, ◌≤◌, ◌<◌, ◌≡◌, ◌≢◌, sym, ap, ◌∙◌, Bool, true, false, ◌==◌, List,
  some, arith, ltb, Bool-cases, ==_refl, ne→==, inl, inr, ◌⊎◌, length, not, all_below,
  all_below_intro,
}
use osdpmaster.Run.{ok}
use osdpmaster.Slave.{Slave}
use osdpmaster.Bus.{Bus, select, next_place, pollable_at, advance}

next_place-mod : (count a : ℕ) → a < count → next_place count a ≡ (a + 1) % count
next_place-mod count a h = elim (Bool-cases (a + 1 == count)) [
  | inl last ↦ let e : a + 1 ≡ count = ground arith in rw (last, e) (sym (mod_self count))
  | inr inner ↦ let lt : a + 1 < count = ground arith in rw inner (sym (mod-eq_of_lt lt))
]

module _ (align : ℕ) (slaves : List Slave) (start : ℕ) (begun : start < length slaves) where
  -- The place `j` steps on.
  abbrev pub place : ℕ → ℕ
  place j = (start + j) % length slaves

  place-next : (j : ℕ) → next_place (length slaves) (place j) ≡ place (suc j)
  place-next j =
      next_place-mod (length slaves) (place j) (mod-lt (start + j) (omega arith))
      ∙ mod-add-mod (start + j) (length slaves) 1
      ∙ ap (λ (t : ℕ). t % length slaves) (omega arith)

  place-round : place (length slaves) ≡ start
  place-round = add-mod_right start (length slaves) ∙ mod-eq_of_lt begun

  place-ne : (j : ℕ) → 0 < j → j < length slaves → place j ≢ start
  place-ne j pos lt e = elim (Bool-cases (ltb (start + j) (length slaves))) [
    | inl inside ↦
        let h : start + j < length slaves = ground arith in
        absurd (omega (arith, mod-eq_of_lt h, e))
    | inr over ↦
        let h : length slaves ≤ start + j = ground arith in
        let l : start + j - length slaves < length slaves = omega arith in
        absurd (omega (arith, mod-eq-sub-mod h, mod-eq_of_lt l, e))
  ]

  -- The search from `j` steps on ends `k` steps on: there a slave can be polled, or the round is
  -- complete; none in between can be.
  abbrev Ends : ℕ → ℕ → Type 0
  Ends j fuel =
      (k : ℕ) × (j < k)
      × (k ≤ length slaves)
      × (select fuel align slaves start (place j) ≡ some (place k))
      × (k < length slaves → pollable_at align slaves (place k) ≡ true)
      × ((i : ℕ) → j < i → i < k → pollable_at align slaves (place i) ≡ false)

  select-Ends : (fuel j : ℕ) → j < length slaves → length slaves ≤ j + fuel → Ends j fuel
  unfolding select
  select-Ends zero j lt enough = absurd (omega arith)
  select-Ends (suc fuel) j lt enough =
      rw (place-next j) (elim (Bool-cases (suc j == length slaves)) [
        | inl round ↦
            let e : suc j ≡ length slaves = ground arith in
            let back : place (suc j) ≡ start = ap place e ∙ place-round in
            let test : (place (suc j) == start) ≡ true = rw back (==_refl start) in
            (
              suc j,
              omega arith,
              omega arith,
              rw test,
              λ h. absurd (omega arith),
              λ i a b. absurd (omega arith),
            )
        | inr inner ↦
            let less : suc j < length slaves = ground arith in
            let test : (place (suc j) == start) ≡ false =
              ne→== (place (suc j)) start (place-ne (suc j) (omega arith) less) in
            elim (Bool-cases (pollable_at align slaves (place (suc j)))) [
              | inl found ↦ (
                suc j,
                omega arith,
                omega arith,
                rw (test, found),
                λ h. found,
                λ i a b. absurd (omega arith),
              )
              | inr skipped ↦
                  let (k, a, b, s, t, u) = select-Ends fuel (suc j) less (omega arith) in
                  (
                    k,
                    omega arith,
                    b,
                    rw (test, skipped) s,
                    t,
                    λ i lo hi. elim (Bool-cases (i == suc j)) [
                      | inl here ↦ let e : i ≡ suc j = ground arith in rw e skipped
                      | inr there ↦ u i (ground arith) hi
                    ],
                  )
            ]
      ])

  place_zero : place 0 ≡ start
  place_zero = ap (λ (t : ℕ). t % length slaves) (omega arith) ∙ mod-eq_of_lt begun

advance-some :
    (align n : ℕ) (b : Bus)
    → b.poll_slave < length b.slaves
    → select (length b.slaves + 1) align b.slaves b.poll_slave b.poll_slave ≡ some n
    → advance align b ≡ ok n (record b { poll_slave = n })
unfolding advance
advance-some align n b begun e =
    let current : ltb b.poll_slave (length b.slaves) ≡ true = ground arith in rw (current, e)

-- `slave_poll` moves on to the first slave behind the current one, in the cyclic order of the list,
-- that is defined and enabled, within one round: none that it skips can be polled. If no other can be,
-- it comes back to the current one. It always finds a place, provided that there is a current slave.
pub advance-round :
    (align : ℕ) (b : Bus) (begun : b.poll_slave < length b.slaves)
    → let can : ℕ → Bool = λ j. pollable_at align b.slaves ((b.poll_slave + j) % length b.slaves) in
      (k : ℕ) × (0 < k)
      × (k ≤ length b.slaves)
      × (advance align b
          ≡ ok
              ((b.poll_slave + k) % length b.slaves)
              (record b { poll_slave = (b.poll_slave + k) % length b.slaves }))
      × ((k ≡ length b.slaves) ⊎ (can k ≡ true))
      × (all_below (k - 1) (λ j. not (can (j + 1))) ≡ true)
advance-round align b begun =
    let start = place_zero align b.slaves b.poll_slave begun in
    let (k, pos, le, chosen, found, skipped) =
      select-Ends align b.slaves b.poll_slave begun (length b.slaves + 1) 0 (omega arith)
        (omega arith) in
    let found_or_back : (k ≡ length b.slaves)
        ⊎ (pollable_at align b.slaves ((b.poll_slave + k) % length b.slaves) ≡ true) =
      elim (Bool-cases (ltb k (length b.slaves))) [
        | inl less ↦ inr (found (ground arith))
        | inr all ↦ inl (ground arith)
      ] in
    (
      k,
      pos,
      le,
      advance-some align _ b begun
          (ap (select (length b.slaves + 1) align b.slaves b.poll_slave) (sym start) ∙ chosen),
      found_or_back,
      all_below_intro (k - 1) _ (λ j lt. ap not (skipped (j + 1) (omega arith) (omega arith))),
    )
