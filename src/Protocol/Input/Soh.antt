-- ===== src/Protocol/Input/Soh.antt =====
-- `readsoh` on a line that is alive: what comes before SOH is dropped, whatever blocks it comes in,
-- and the five bytes of the header end up at the start of the buffer.
use osdpmaster.Prelude.{
  ℕ, zero, suc, ◌+◌, ◌-◌, ◌≤◌, ◌<◌, ◌≡◌, refl, sym, ap, ◌∙◌, false, [], ◌∷◌, ◌++◌, arith, leb, ◌==◌,
  Bool-cases, take, drop, length, Bytes, All, All-split, length-append, drop-append, take-drop,
  cut_twice, inl, inr, none, some,
}
use osdpmaster.Run.{Run}
use osdpmaster.Timespec.{Timespec}
use osdpmaster.Protocol.{Protocol, Reply, slave_buff_size, splice, ch_soh, header_size}
use osdpmaster.Protocol.Input.{
  read_some, work, readsoh_loop, readsoh_found, readsoh, find_soh, shift_down,
}
use osdpmaster.Protocol.Input.Bounds.{length-splice}
use osdpmaster.Protocol.Input.Safe.{shift_down-HasBuffer, work-in_buffer}
use osdpmaster.Protocol.Input.Reads.{IsEarly, IsReady, Took, read_some-Took, take-splice}
use osdpmaster.Protocol.Input.Loops.{Filled, fill-Filled}

-- Bytes that do not introduce a message.
abbrev pub IsQuiet : Bytes → Type 0
IsQuiet = All (λ b. (b == ch_soh) ≡ false)

find_soh-none : (xs : Bytes) → IsQuiet xs → find_soh xs ≡ none
unfolding find_soh
find_soh-none [] h = refl
find_soh-none (x ∷ xs) h = rw (h.0, find_soh-none xs h.1)

find_soh-append : (xs t : Bytes) → IsQuiet xs → find_soh (xs ++ (ch_soh ∷ t)) ≡ some (length xs)
unfolding find_soh
find_soh-append [] t h = refl
find_soh-append (x ∷ xs) t h = rw (h.0, find_soh-append xs t h.1) (ap some (omega arith))

module _ (a : ℕ) (c : ℕ → Timespec) (d : Timespec) (limit : ℕ)
    (early : (n : ℕ) → n < limit → IsEarly d (c n)) where
  -- Only the buffer changes.
  in_buffer-IsReady :
      {bs : Bytes} (p : Protocol) (b : Bytes)
      → IsReady a c d limit bs p
      → length b ≡ slave_buff_size
      → IsReady a c d limit bs (record p { in_buffer = b })
  in_buffer-IsReady p b v len = record {
    same_addr = v.same_addr;
    same_clock = v.same_clock;
    same_deadline = v.same_deadline;
    alive = v.alive;
    soon = rw (work-in_buffer p b) v.soon;
    unread = v.unread;
    buffer = len;
  }

  -- The header is moved down and its rest is read.
  found-Filled :
      (junk t vs ys : Bytes) (n : ℕ) (q : Protocol)
      → IsReady a c d limit (vs ++ ys) q
      → IsQuiet junk
      → take n q.in_buffer ≡ junk ++ (ch_soh ∷ t)
      → n ≡ length junk + suc (length t)
      → suc (length t) + length vs ≡ header_size
      → n ≤ header_size
      → (again : Protocol → Run Protocol Reply)
      → Filled a c d limit early header_size
          ((ch_soh ∷ t) ++ vs)
          ys
          (readsoh_found (find_soh (take n q.in_buffer)) n again q)
  unfolding readsoh_found
  found-Filled junk t vs ys n q v quiet held len total le again =
      rw (held, find_soh-append junk t quiet)
        (fill-Filled a c d limit early (work q + 1) header_size (n - length junk) (ch_soh ∷ t) vs ys
          (shift_down (length junk) n q)
          (in_buffer-IsReady q moved v
            (shift_down-HasBuffer (length junk) n q v.buffer (omega arith)))
          shifted (omega arith) (omega arith) (omega (arith, work-in_buffer q moved)))
    where
      kept : Bytes
      kept = take (n - length junk) (drop (length junk) q.in_buffer)

      moved : Bytes
      moved = splice q.in_buffer 0 kept

      is_kept : kept ≡ ch_soh ∷ t
      is_kept =
          take-drop (length junk) n q.in_buffer (omega arith)
          ∙ ap (drop (length junk)) held
          ∙ drop-append (length junk) junk (ch_soh ∷ t) refl

      shifted : take (n - length junk) moved ≡ ch_soh ∷ t
      shifted =
          let e : 0 + length kept ≡ n - length junk = omega (arith, ap length is_kept) in
          ap (λ m. take m moved) (sym e)
          ∙ take-splice q.in_buffer 0 kept (omega (arith, ap length is_kept, v.buffer))
          ∙ is_kept

  -- A block that ends before SOH is dropped; one that holds SOH is the junk and the header's start.
  readsoh_loop-Filled :
      (fuel : ℕ) (junk h ys : Bytes) (p : Protocol)
      → IsReady a c d limit (junk ++ ((ch_soh ∷ h) ++ ys)) p
      → IsQuiet junk
      → length h ≡ 4
      → work p < fuel
      → Filled a c d limit early header_size (ch_soh ∷ h) ys (readsoh_loop fuel p)
  unfolding readsoh_loop readsoh_found
  readsoh_loop-Filled zero junk h ys p v quiet four enough = absurd (omega arith)
  readsoh_loop-Filled (suc fuel) junk h ys p v quiet four enough =
      rw t.returns (elim (Bool-cases (leb (length t.got) (length junk))) [
        | inl inside ↦
            let (ws, junk_cut, rest_cut) =
              cut_twice t.got t.rest junk ((ch_soh ∷ h) ++ ys) (sym t.cut) (ground arith) in
            let (got_quiet, ws_quiet) =
              All-split (λ b. (b == ch_soh) ≡ false) t.got ws (rw (← junk_cut) quiet) in
            rw (t.front, find_soh-none t.got got_quiet)
              (readsoh_loop-Filled fuel ws h ys t.after (rw (← rest_cut) t.ready) ws_quiet four
                (omega (arith, t.less, work-in_buffer p cleared)))
        | inr beyond ↦
            let (ws, got_cut, soh_cut) =
              cut_twice junk ((ch_soh ∷ h) ++ ys) t.got t.rest t.cut (ground arith) in
            let lens : length t.got ≡ length junk + length ws =
              ap length got_cut ∙ length-append junk ws in
            let (vs, header_cut, rest_cut) =
              cut_twice ws t.rest (ch_soh ∷ h) ys (sym soh_cut) (omega (arith, t.not_more)) in
            starts ws vs got_cut header_cut rest_cut lens (ground arith)
      ])
    where
      cleared : Bytes
      cleared = splice p.in_buffer 0 (0 ∷ 0 ∷ 0 ∷ 0 ∷ 0 ∷ [])

      start : Protocol
      start = record p { in_buffer = cleared }

      t :
          Took a c d limit early 0 header_size
            (junk ++ ((ch_soh ∷ h) ++ ys))
            cleared
            (work start)
            (read_some 0 header_size start)
      t =
          read_some-Took a c d limit early 0 header_size (omega arith) (omega arith) start
            (in_buffer-IsReady p cleared v (
              length-splice p.in_buffer 0 (0 ∷ 0 ∷ 0 ∷ 0 ∷ 0 ∷ []) (omega (arith, v.buffer))
              ∙ v.buffer))
            (omega (arith, length-append junk ((ch_soh ∷ h) ++ ys)))

      starts :
          (ws vs : Bytes)
          → t.got ≡ junk ++ ws
          → ch_soh ∷ h ≡ ws ++ vs
          → t.rest ≡ vs ++ ys
          → length t.got ≡ length junk + length ws
          → 0 < length ws
          → Filled a c d limit early header_size (ch_soh ∷ h) ys (
              readsoh_found
                (find_soh (take (0 + length t.got) t.after.in_buffer))
                (0 + length t.got)
                (readsoh_loop fuel)
                t.after)
      starts [] vs got_cut header_cut rest_cut lens pos = absurd (omega arith)
      starts (w ∷ ws) vs got_cut header_cut rest_cut lens pos =
          let head : ch_soh ≡ w = cc header_cut in
          let whole : ch_soh ∷ h ≡ (ch_soh ∷ ws) ++ vs =
            header_cut ∙ ap (λ x. x ∷ (ws ++ vs)) (sym head) in
          rw whole (
            found-Filled junk ws vs ys (0 + length t.got) t.after (rw (← rest_cut) t.ready) quiet
              (t.front ∙ got_cut ∙ ap (λ x. junk ++ (x ∷ ws)) (sym head)) (omega arith)
              (omega (arith, ap length whole, length-append ws vs)) (omega (arith, t.not_more))
              (readsoh_loop fuel))

  pub readsoh-Filled :
      (junk h ys : Bytes) (p : Protocol)
      → IsReady a c d limit (junk ++ ((ch_soh ∷ h) ++ ys)) p
      → IsQuiet junk
      → length h ≡ 4
      → Filled a c d limit early header_size (ch_soh ∷ h) ys (readsoh p)
  unfolding readsoh
  readsoh-Filled junk h ys p v quiet four =
      readsoh_loop-Filled (work p + 1) junk h ys p v quiet four (omega arith)
