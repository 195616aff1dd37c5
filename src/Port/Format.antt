-- ===== src/Port/Format.antt =====
-- The format of a character: which configurations are supported, and what they are set to.
use osdpmaster.Prelude.{
  ℕ, ◌≡◌, ◌≢◌, refl, Bool, true, false, not, ◌||◌, ◌&&◌, ◌==◌, ◌⊎◌, inl, inr, arith, if◌then◌else◌,
  Bool-cases, ==_iff,
}
use osdpmaster.Run.{
  ok, throw, Failure, unknown_flow, unsupported_parity, unsupported_bits, unsupported_stop,
  open_failed,
}
use osdpmaster.Protocol.{SerialConfig}
use osdpmaster.Port.{
  Termios, Device, CharSize, cs7, cs8, set_flow, set_parity, set_bits, set_stop, set_format,
}

-- The letter, in either case.
abbrev pub asks_no_flow : ℕ → Bool
asks_no_flow flow = flow == b'n' || flow == b'N'

abbrev pub asks_rts : ℕ → Bool
asks_rts flow = flow == b'r' || flow == b'R'

abbrev pub asks_none : ℕ → Bool
asks_none parity = parity == b'n' || parity == b'N'

abbrev pub asks_even : ℕ → Bool
asks_even parity = parity == b'E' || parity == b'e'

abbrev pub asks_odd : ℕ → Bool
asks_odd parity = parity == b'O' || parity == b'o'

-- The formats that the port can be set to.
abbrev pub supported : SerialConfig → Bool
supported c =
    (asks_no_flow c.flow || asks_rts c.flow)
    && ((asks_none c.parity || (asks_even c.parity || asks_odd c.parity))
        && ((c.bits == 7 || c.bits == 8) && (c.stop == 1 || c.stop == 2)))

-- The size of a character, with the stripping of received bytes, and the number of stop bits.
abbrev pub HasSize : ℕ → CharSize → Bool → Type 0
HasSize bits size strip =
    ((bits ≡ 7) × (size ≡ cs7) × (strip ≡ true)) ⊎ ((bits ≡ 8) × (size ≡ cs8) × (strip ≡ false))

abbrev pub HasStop : ℕ → Bool → Type 0
HasStop stop two = ((stop ≡ 1) × (two ≡ false)) ⊎ ((stop ≡ 2) × (two ≡ true))

-- The settings `u` have the format of the configuration, where they were made from `t`; the flow
-- control of the port is switched on, and never off.
pub record HasFormat (c : SerialConfig) (t u : Termios) : Type 0 where
  pub flow : u.crtscts ≡ (asks_rts c.flow || t.crtscts)
  pub no_parity : u.parenb ≡ not (asks_none c.parity)
  pub parity : u.parenb ≡ true → u.parodd ≡ asks_odd c.parity
  pub size : HasSize c.bits u.csize u.istrip
  pub stop : HasStop c.stop u.cstopb
  pub receiver : (u.cread ≡ t.cread) × (u.clocal ≡ t.clocal)
  pub reads : (u.vmin ≡ t.vmin) × (u.vtime ≡ t.vtime)

module _ (t : Termios) (d : Device) where
  set_flow-cases :
      (flow : ℕ)
      → (((asks_no_flow flow || asks_rts flow) ≡ true)
          × (set_flow flow t d ≡ ok (record t { crtscts = asks_rts flow || t.crtscts }) d))
        ⊎ (((asks_no_flow flow || asks_rts flow) ≡ false)
            × (set_flow flow t d ≡ throw unknown_flow d))
  unfolding set_flow
  set_flow-cases flow = elim (Bool-cases (asks_no_flow flow)) [
    | inl none ↦
        let no_rts : asks_rts flow ≡ false = ground arith in inl (rw none refl, rw (none, no_rts))
    | inr some ↦ elim (Bool-cases (asks_rts flow)) [
      | inl rts ↦ inl (rw (some, rts) refl, rw (some, rts))
      | inr other ↦ inr (rw (some, other) refl, rw (some, other))
    ]
  ]

  set_parity-cases :
      (parity : ℕ)
      → (((asks_none parity || (asks_even parity || asks_odd parity)) ≡ true)
          × (set_parity parity t d
              ≡ ok
                  (record t {
                    ignpar = true;
                    inpck = not (asks_none parity);
                    parmrk = asks_none parity && t.parmrk;
                    parenb = not (asks_none parity);
                    parodd = if asks_none parity then t.parodd else asks_odd parity;
                  })
                  d))
        ⊎ (((asks_none parity || (asks_even parity || asks_odd parity)) ≡ false)
            × (set_parity parity t d ≡ throw unsupported_parity d))
  unfolding set_parity
  set_parity-cases parity = elim (Bool-cases (asks_none parity)) [
    | inl none ↦ inl (rw none refl, rw none)
    | inr some ↦ elim (Bool-cases (asks_even parity)) [
      | inl even ↦
          let not_odd : asks_odd parity ≡ false = ground arith in
          inl (rw (some, even) refl, rw (some, even, not_odd))
      | inr not_even ↦ elim (Bool-cases (asks_odd parity)) [
        | inl odd ↦ inl (rw (some, not_even, odd) refl, rw (some, not_even, odd))
        | inr other ↦ inr (rw (some, not_even, other) refl, rw (some, not_even, other))
      ]
    ]
  ]

  set_bits-cases :
      (bits : ℕ)
      → ((size : CharSize) × (strip : Bool) × HasSize bits size strip
          × ((bits == 7 || bits == 8) ≡ true)
          × (set_bits bits t d ≡ ok (record t { csize = size; istrip = strip }) d))
        ⊎ (((bits == 7 || bits == 8) ≡ false) × (set_bits bits t d ≡ throw unsupported_bits d))
  unfolding set_bits
  set_bits-cases bits = elim (Bool-cases (bits == 7)) [
    | inl seven ↦ inl (cs7, true, inl ((==_iff _ _).0 seven, refl, refl), rw seven refl, rw seven)
    | inr not_seven ↦ elim (Bool-cases (bits == 8)) [
      | inl eight ↦ inl (
        cs8,
        false,
        inr ((==_iff _ _).0 eight, refl, refl),
        rw eight ground arith,
        rw (not_seven, eight),
      )
      | inr other ↦ inr (rw (not_seven, other) refl, rw (not_seven, other))
    ]
  ]

  set_stop-cases :
      (stop : ℕ)
      → ((two : Bool) × HasStop stop two
          × ((stop == 1 || stop == 2) ≡ true)
          × (set_stop stop t d ≡ ok (record t { cstopb = two }) d))
        ⊎ (((stop == 1 || stop == 2) ≡ false) × (set_stop stop t d ≡ throw unsupported_stop d))
  unfolding set_stop
  set_stop-cases stop = elim (Bool-cases (stop == 1)) [
    | inl one ↦ inl (false, inl ((==_iff _ _).0 one, refl), rw one refl, rw one)
    | inr not_one ↦ elim (Bool-cases (stop == 2)) [
      | inl two ↦
          inl (true, inr ((==_iff _ _).0 two, refl), rw (not_one, two) refl, rw (not_one, two))
      | inr other ↦ inr (rw (not_one, other) refl, rw (not_one, other))
    ]
  ]

-- The bit for odd parity counts where there is parity.
odd_of : (b x y : Bool) → not b ≡ true → (if b then x else y) ≡ y
odd_of true x y h = cc
odd_of false x y h = refl

-- A configuration either has a format that is supported, and the settings get it; or it has not, and
-- an exception is thrown. The device stays as it was.
pub set_format-cases :
    (c : SerialConfig) (t : Termios) (d : Device)
    → ((u : Termios) × (supported c ≡ true) × HasFormat c t u × (set_format c t d ≡ ok u d))
      ⊎ ((f : Failure) × (f ≢ open_failed) × (supported c ≡ false) × (set_format c t d ≡ throw f d))
unfolding set_format
set_format-cases c t d =
    let t1 : Termios = record t { crtscts = asks_rts c.flow || t.crtscts } in
    let t2 : Termios = record t1 {
      ignpar = true;
      inpck = not (asks_none c.parity);
      parmrk = asks_none c.parity && t.parmrk;
      parenb = not (asks_none c.parity);
      parodd = if asks_none c.parity then t.parodd else asks_odd c.parity;
    } in
    elim (set_flow-cases t d c.flow) [
      | inr (bad, thrown) ↦ inr (unknown_flow, (λ e. cc), rw bad refl, rw thrown)
      | inl (flow, e1) ↦ elim (set_parity-cases t1 d c.parity) [
        | inr (bad, thrown) ↦
            inr (unsupported_parity, (λ e. cc), rw (flow, bad) refl, rw (e1, thrown))
        | inl (parity, e2) ↦ elim (set_bits-cases t2 d c.bits) [
          | inr (bad, thrown) ↦
              inr (unsupported_bits, (λ e. cc), rw (flow, parity, bad) refl, rw (e1, e2, thrown))
          | inl (size, strip, has_size, bits, e3) ↦
              let t3 : Termios = record t2 { csize = size; istrip = strip } in
              elim (set_stop-cases t3 d c.stop) [
                | inr (bad, thrown) ↦ inr (
                  unsupported_stop,
                  (λ e. cc),
                  rw (flow, parity, bits, bad) refl,
                  rw (e1, e2, e3, thrown),
                )
                | inl (two, has_stop, stop, e4) ↦ inl (
                  record t3 { cstopb = two },
                  rw (flow, parity, bits, stop) refl,
                  record {
                    flow = refl;
                    no_parity = refl;
                    parity = odd_of (asks_none c.parity) _ _;
                    size = has_size;
                    stop = has_stop;
                    receiver = (refl, refl);
                    reads = (refl, refl);
                  },
                  rw (e1, e2, e3, e4),
                )
              ]
        ]
      ]
    ]
