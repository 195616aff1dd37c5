-- ===== src/Protocol/Input/Loops.antt =====
-- The loops over `read_some` on a line that is alive: `fill` and the loop of `readeof` bring in
-- exactly the bytes that they are asked for, and `readsoh` skips what comes before SOH.
use osdpmaster.Prelude.{
  ℕ, zero, suc, ◌+◌, ◌-◌, ◌≤◌, ◌<◌, ◌≡◌, refl, sym, ap, ◌∙◌, true, false, [], ◌∷◌, ◌++◌, arith, ltb,
  leb, Bool-cases, take, length, Bytes, length-append, append_assoc, append-nil, cut_twice, inl,
  inr,
}
use osdpmaster.Run.{Run, ok}
use osdpmaster.Timespec.{Timespec}
use osdpmaster.Protocol.{Protocol, Reply, size, slave_buff_size}
use osdpmaster.Protocol.Input.{read_some, work, fill, readeof_loop}
use osdpmaster.Protocol.Input.Reads.{IsEarly, IsReady, Took, read_some-Took}

module _ (a : ℕ) (c : ℕ → Timespec) (d : Timespec) (limit : ℕ)
    (early : (n : ℕ) → n < limit → IsEarly d (c n)) where
  -- A loop returns `n` with `front` as the first `n` bytes of the buffer, and `rest` unread.
  pub record Filled (n : ℕ) (front rest : Bytes) (r : Run Protocol Reply) : Type 0 where
    pub after : Protocol
    pub returns : r ≡ ok (size n) after
    pub ready : IsReady a c d limit rest after
    pub filled : take n after.in_buffer ≡ front

  pub fill-Filled :
      (fuel n offset : ℕ) (front xs ys : Bytes) (p : Protocol)
      → IsReady a c d limit (xs ++ ys) p
      → take offset p.in_buffer ≡ front
      → offset + length xs ≡ n
      → n ≤ slave_buff_size
      → work p < fuel
      → Filled n (front ++ xs) ys (fill fuel n offset p)
  unfolding fill
  fill-Filled zero n offset front xs ys p v held len room enough = absurd (omega arith)
  fill-Filled (suc fuel) n offset front [] ys p v held len room enough =
      let done : ltb offset n ≡ false = ground arith in
      let e : offset ≡ n = omega arith in
      rw done (record {
        after = p;
        returns = ap (λ m. ok (size m) p) e;
        ready = v;
        filled = ap (λ m. take m p.in_buffer) (sym e) ∙ held ∙ sym (append-nil front);
      })
  fill-Filled (suc fuel) n offset front (x ∷ xs) ys p v held len room enough =
      let more : ltb offset n ≡ true = ground arith in
      let t =
        read_some-Took a c d limit early offset (n - offset) (omega arith) (omega arith) p v
          (omega arith) in
      let (ws, xs_cut, rest_cut) =
        cut_twice t.got t.rest (x ∷ xs) ys (sym t.cut) (omega (arith, t.not_more)) in
      let f =
        fill-Filled fuel n (offset + length t.got) (front ++ t.got) ws ys t.after
          (rw (← rest_cut) t.ready) (t.front ∙ ap (λ s. s ++ t.got) held)
          (omega (arith, ap length xs_cut, length-append t.got ws)) room (omega (arith, t.less)) in
      rw (more, t.returns)
        (record {
          after = f.after;
          returns = f.returns;
          ready = f.ready;
          filled = f.filled ∙ append_assoc front t.got ws ∙ ap (◌++◌ front) (sym xs_cut);
        })

  pub readeof_loop-Filled :
      (fuel n offset : ℕ) (front xs ys : Bytes) (p : Protocol)
      → IsReady a c d limit (xs ++ ys) p
      → take offset p.in_buffer ≡ front
      → 0 < length xs
      → offset + length xs ≡ n
      → n ≤ slave_buff_size
      → work p < fuel
      → Filled n (front ++ xs) ys (readeof_loop fuel n offset p)
  unfolding readeof_loop
  readeof_loop-Filled zero n offset front xs ys p v held pos len room enough = absurd (omega arith)
  readeof_loop-Filled (suc fuel) n offset front xs ys p v held pos len room enough =
      rw t.returns (elim (Bool-cases (leb n (offset + length t.got))) [
        | inl done ↦
            let empty : ws ≡ [] =
              nil_of_length ws (ground (arith, ap length xs_cut, length-append t.got ws)) in
            let whole : xs ≡ t.got = xs_cut ∙ ap (◌++◌ t.got) empty ∙ append-nil t.got in
            let e : offset + length t.got ≡ n = omega (arith, ap length whole) in
            rw done (record {
              after = t.after;
              returns = ap (λ m. ok (size m) t.after) e;
              ready = rw (sym (rest_cut ∙ ap (λ s. s ++ ys) empty)) t.ready;
              filled =
                  ap (λ m. take m t.after.in_buffer) (sym e)
                  ∙ t.front
                  ∙ ap (λ s. s ++ t.got) held
                  ∙ ap (◌++◌ front) (sym whole);
            })
        | inr more ↦
            let f =
              readeof_loop-Filled fuel n (offset + length t.got) (front ++ t.got) ws ys t.after
                (rw (← rest_cut) t.ready) (t.front ∙ ap (λ s. s ++ t.got) held)
                (ground (arith, ap length xs_cut, length-append t.got ws))
                (omega (arith, ap length xs_cut, length-append t.got ws)) room
                (omega (arith, t.less)) in
            rw more (record {
              after = f.after;
              returns = f.returns;
              ready = f.ready;
              filled = f.filled ∙ append_assoc front t.got ws ∙ ap (◌++◌ front) (sym xs_cut);
            })
      ])
    where
      t :
          Took a c d limit early offset
            (n - offset)
            (xs ++ ys)
            p.in_buffer
            (work p)
            (read_some offset (n - offset) p)
      t =
          read_some-Took a c d limit early offset (n - offset) (omega arith) (omega arith) p v
            (omega (arith, length-append xs ys))

      cuts : (us : Bytes) × (xs ≡ t.got ++ us) × (t.rest ≡ us ++ ys)
      cuts = cut_twice t.got t.rest xs ys (sym t.cut) (omega (arith, t.not_more))

      ws : Bytes
      ws = cuts.0

      xs_cut : xs ≡ t.got ++ ws
      xs_cut = cuts.1

      rest_cut : t.rest ≡ ws ++ ys
      rest_cut = cuts.2

      nil_of_length : (us : Bytes) → length us ≡ 0 → us ≡ []
      nil_of_length [] e = refl
      nil_of_length (u ∷ us) e = absurd (omega arith)
