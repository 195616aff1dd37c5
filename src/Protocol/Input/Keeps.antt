-- ===== src/Protocol/Input/Keeps.antt =====
-- The receiving side keeps the size of the receive buffer and the configuration's sync characters,
-- however it ends.
use osdpmaster.Prelude.{
  ℕ, zero, suc, ◌+◌, ◌-◌, ◌≡◌, ◌==◌, ◌∙◌, Bool, true, false, List, [], ◌∷◌, Option, none, some,
  arith, leb, ltb, if◌then◌else◌, is_negative, Bool-cases, inl, inr, take, drop, length,
  length-take, length-drop, Bytes,
}
use osdpmaster.Run.{
  Run, Cmd, ok, throw, starved, fault, out_of_fuel, and_then, Keeps, Keeps-and_then, Stays,
  Safe-Stays,
}
use osdpmaster.Timespec.{ts_sub, to_ms}
use osdpmaster.Protocol.{
  Protocol, SerialConfig, Reply, size, error, RxEvent, arrived, interrupted, no_data, failed,
  slave_buff_size, header_size, readstamp, clock_gettime,
}
use osdpmaster.Protocol.Input.{
  deliver, read_events, read_pending, read_some, work, fill, on_size, find_soh, shift_down,
  readsoh_found, readsoh_loop, readsoh, flyby_end, flyby_loop, fly_past, readeof_loop, readeof,
  in_len, passes_by, read_body, readcook,
}
use osdpmaster.Protocol.Input.Bounds.{length-splice}
use osdpmaster.Protocol.Input.Safe.{readcook-Safe, readstamp_lem}

-- A buffer of its size, and a configuration with so many sync characters and a rate.
pub record IsLine (lead trail : ℕ) (buf : Bytes) (c : SerialConfig) : Type 0 where
  pub buffer : length buf ≡ slave_buff_size
  pub before : c.lead ≡ lead
  pub behind : c.trail ≡ trail
  pub rate : (c.baud == 0) ≡ false

module _ (lead trail : ℕ) where
  abbrev Line : Protocol → Type 0
  Line p = IsLine lead trail p.in_buffer p.config

  with_buffer-IsLine :
      (p : Protocol) (b : Bytes)
      → Line p
      → length b ≡ length p.in_buffer
      → Line (record p { in_buffer = b })
  with_buffer-IsLine p b v e = record {
    buffer = e ∙ v.buffer;
    before = v.before;
    behind = v.behind;
    rate = v.rate;
  }

  deliver-IsLine :
      (offset count : ℕ) (bs : Bytes) (p : Protocol)
      → Line p
      → Keeps Line (deliver offset count bs p)
  unfolding deliver
  deliver-IsLine offset count bs p v =
      elim (Bool-cases (leb (offset + length (take count bs)) slave_buff_size)) [
        | inl fits ↦ rw fits (record {
          buffer =
              length-splice p.in_buffer offset (take count bs) (ground (arith, v.buffer))
              ∙ v.buffer;
          before = v.before;
          behind = v.behind;
          rate = v.rate;
        })
        | inr over ↦ rw over tt
      ]

  read_events-IsLine :
      (es : List RxEvent) (offset count : ℕ) (p : Protocol)
      → Line p
      → Keeps Line (read_events es offset count p)
  unfolding read_events
  read_events-IsLine [] offset count p v = tt
  read_events-IsLine (arrived bs ∷ es) offset count p v =
      deliver-IsLine offset count bs (record p { rx = es }) v
  read_events-IsLine (interrupted ∷ es) offset count p v = read_events-IsLine es offset count p v
  read_events-IsLine (no_data ∷ es) offset count p v =
      let itime = to_ms (ts_sub p.deadline (p.clock p.tick)) in
      elim (Bool-cases (is_negative itime)) [
        | inl late ↦ rw late v
        | inr early ↦ rw early (read_events-IsLine es offset count _ v)
      ]
  read_events-IsLine (failed ∷ es) offset count p v = v

  read_pending-IsLine :
      (bs : Bytes) (offset count : ℕ) (p : Protocol)
      → Line p
      → Keeps Line (read_pending bs offset count p)
  unfolding read_pending
  read_pending-IsLine [] offset count p v = read_events-IsLine p.rx offset count p v
  read_pending-IsLine (b ∷ bs) offset count p v = deliver-IsLine offset count (b ∷ bs) p v

  read_some-IsLine :
      (offset count : ℕ) (p : Protocol) → Line p → Keeps Line (read_some offset count p)
  unfolding read_some
  read_some-IsLine offset count p v = read_pending-IsLine p.pending offset count p v

  on_size-IsLine :
      (r : Run Protocol Reply) (k : ℕ → Cmd Protocol Reply)
      → Keeps Line r
      → ((n : ℕ) (q : Protocol) → Line q → Keeps Line (k n q))
      → Keeps Line (and_then r (λ a. on_size a k))
  on_size-IsLine (ok (size n) q) k h next = next n q h
  on_size-IsLine (ok (error e) q) k h next = h
  on_size-IsLine (throw e s) k h next = h
  on_size-IsLine starved k h next = tt
  on_size-IsLine fault k h next = tt
  on_size-IsLine out_of_fuel k h next = tt

  fill-IsLine :
      (fuel limit offset : ℕ) (p : Protocol) → Line p → Keeps Line (fill fuel limit offset p)
  unfolding fill
  fill-IsLine zero limit offset p v = elim (Bool-cases (ltb offset limit)) [
    | inl more ↦ rw more tt
    | inr done ↦ rw done v
  ]
  fill-IsLine (suc fuel) limit offset p v = elim (Bool-cases (ltb offset limit)) [
    | inl more ↦ rw more (
        on_size-IsLine _ (fill fuel limit) (read_some-IsLine offset (limit - offset) p v)
          (fill-IsLine fuel limit))
    | inr done ↦ rw done v
  ]

  readsoh_found-IsLine :
      (o : Option ℕ) (n : ℕ) (again : Cmd Protocol Reply) (p : Protocol)
      → Line p
      → Keeps Line (again p)
      → Keeps Line (readsoh_found o n again p)
  unfolding readsoh_found
  readsoh_found-IsLine none n again p v h = h
  readsoh_found-IsLine (some i) n again p v h =
      let kept = take (n - i) (drop i p.in_buffer) in
      fill-IsLine (work p + 1) header_size (n - i) (shift_down i n p) (
        with_buffer-IsLine p _ v (
          length-splice p.in_buffer 0 kept
            (omega (arith, length-take (n - i) (drop i p.in_buffer), length-drop i p.in_buffer))))

  readsoh_loop-IsLine : (fuel : ℕ) (p : Protocol) → Line p → Keeps Line (readsoh_loop fuel p)
  unfolding readsoh_loop
  readsoh_loop-IsLine zero p v = tt
  readsoh_loop-IsLine (suc fuel) p v =
      on_size-IsLine _ _
        (read_some-IsLine 0 header_size _ (
          with_buffer-IsLine p _ v
            (length-splice p.in_buffer 0 (0 ∷ 0 ∷ 0 ∷ 0 ∷ 0 ∷ []) (omega (arith, v.buffer)))))
        (λ n q w.
          readsoh_found-IsLine (find_soh (take n q.in_buffer)) n (readsoh_loop fuel) q w
            (readsoh_loop-IsLine fuel q w))

  readsoh-IsLine : (p : Protocol) → Line p → Keeps Line (readsoh p)
  unfolding readsoh
  readsoh-IsLine p v = readsoh_loop-IsLine (work p + 1) p v

  -- Whatever a comparison of a trailer gives, the state is the same.
  compared :
      (b : Bool) (x y : Reply) (q : Protocol) → Line q → Keeps Line (if b then ok x q else ok y q)
  compared true x y q v = v
  compared false x y q v = v

  flyby_end-IsLine :
      (by_crc : Bool) (acc : ℕ) (p : Protocol) → Line p → Keeps Line (flyby_end by_crc acc p)
  unfolding flyby_end
  flyby_end-IsLine true acc p v =
      on_size-IsLine _ _ (fill-IsLine (work p + 1) 2 0 p v) (λ n q w. compared _ _ _ q w)
  flyby_end-IsLine false acc p v =
      on_size-IsLine _ _ (read_some-IsLine 0 1 p v) (λ n q w. compared _ _ _ q w)

  flyby_loop-IsLine :
      (fuel : ℕ) (by_crc : Bool) (acc passed total : ℕ) (p : Protocol)
      → Line p
      → Keeps Line (flyby_loop fuel by_crc acc passed total p)
  unfolding flyby_loop
  flyby_loop-IsLine zero by_crc acc passed total p v = elim (Bool-cases (ltb passed total)) [
    | inl more ↦ rw more tt
    | inr done ↦ rw done (flyby_end-IsLine by_crc acc p v)
  ]
  flyby_loop-IsLine (suc fuel) by_crc acc passed total p v = elim (Bool-cases (ltb passed total)) [
    | inl more ↦ rw more (
        on_size-IsLine _ _ (read_some-IsLine 0 _ p v)
          (λ n q w. flyby_loop-IsLine fuel by_crc _ (passed + n) total q w))
    | inr done ↦ rw done (flyby_end-IsLine by_crc acc p v)
  ]

  fly_past-IsLine : (n : ℕ) (p : Protocol) → Line p → Keeps Line (fly_past n p)
  unfolding fly_past
  fly_past-IsLine n p v = flyby_loop-IsLine (work p + 1) _ _ n _ p v

  readeof_loop-IsLine :
      (fuel total offset : ℕ) (p : Protocol)
      → Line p
      → Keeps Line (readeof_loop fuel total offset p)
  unfolding readeof_loop
  readeof_loop-IsLine zero total offset p v = tt
  readeof_loop-IsLine (suc fuel) total offset p v =
      on_size-IsLine _ _ (read_some-IsLine offset (total - offset) p v) (λ n q w.
        elim (Bool-cases (leb total n)) [
          | inl done ↦ rw done w
          | inr more ↦ rw more (readeof_loop-IsLine fuel total n q w)
        ])

  readeof-IsLine : (n : ℕ) (p : Protocol) → Line p → Keeps Line (readeof n p)
  unfolding readeof
  readeof-IsLine n p v = elim (Bool-cases (leb (in_len p) 5)) [
    | inl short ↦ rw short v
    | inr long ↦ elim (Bool-cases (ltb (slave_buff_size - n) (in_len p))) [
      | inl big ↦ rw (long, big) v
      | inr fits ↦ rw (long, fits) (readeof_loop-IsLine (work p + 1) (in_len p) n p v)
    ]
  ]

  read_body-IsLine : (n : ℕ) (p : Protocol) → Line p → Keeps Line (read_body n p)
  unfolding read_body
  read_body-IsLine n p v = elim (Bool-cases (passes_by p)) [
    | inl passing ↦ rw passing (fly_past-IsLine n p v)
    | inr mine ↦ rw mine (on_size-IsLine _ _ (readeof-IsLine n p v) (λ m q w. w))
  ]

  readcook-IsLine : (p : Protocol) → Line p → Keeps Line (readcook p)
  unfolding readcook clock_gettime
  readcook-IsLine p v =
      Keeps-and_then Line (readsoh _) _ (readsoh-IsLine _ v)
        (λ n q w. Keeps-and_then Line (on_size n read_body q) _ (body n q w) stamp)
    where
      body : (n : Reply) (q : Protocol) → Line q → Keeps Line (on_size n read_body q)
      body (size n) q w = read_body-IsLine n q w
      body (error e) q w = w

      stamp :
          (r : Reply) (q : Protocol) → Line q → Keeps Line (and_then (readstamp q) (λ _ s. ok r s))
      stamp r q w = let (t, e) = readstamp_lem q in rw e w

  -- `readcook` stays defined, whatever comes over the line, and keeps the line as it is.
  pub readcook-Stays : (p : Protocol) → Line p → Stays ⊥ Line (readcook p)
  readcook-Stays p v =
      Safe-Stays _ Line (readcook p) (readcook-Safe p v.buffer) (readcook-IsLine p v)
