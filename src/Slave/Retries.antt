-- ===== src/Slave/Retries.antt =====
-- The life of a slave in its master's eyes: missed polls, the way offline and back.
use osdpmaster.Prelude.{
  ℕ, zero, suc, ◌+◌, ◌%◌, ◌≤◌, ◌<◌, ◌≡◌, ◌≢◌, refl, ◌∙◌, true, false, not, ◌&&◌, ◌==◌, [], ◌∷◌,
  ◌++◌, arith, leb, ltb, Bool-cases, inl, inr, if◌then◌else◌, length, Bytes, min,
}
use osdpmaster.Run.{Run, Cmd, ok, and_then}
use osdpmaster.Timespec.{Timespec}
use osdpmaster.Slave.{
  Slave, Site, next_seq, offline, retry_max, status, status_name, declare_online, ack, nak,
  mem_zero, site_clock, ten_ms_after,
}

-- After a sequence number below 4 comes one from 1 to 3 that differs from it: 0 never comes back. From
-- there, three steps lead back to the same number.
pub next_seq_cycle :
    (seq : ℕ)
    → seq < 4
    → (1 ≤ next_seq seq)
      × (next_seq seq ≤ 3)
      × (next_seq seq ≢ seq)
      × (next_seq (next_seq (next_seq (next_seq seq))) ≡ next_seq seq)
unfolding next_seq
next_seq_cycle seq h = (ground arith, ground arith, ground arith, ground arith)

-- The fields that a slave keeps within their ranges, and a uuid whose text fits its buffer.
pub record IsValid (uuid_unparse : Bytes → Bytes) (align : ℕ) (s : Slave) : Type 0 where
  pub retries : s.retry ≤ retry_max + 1
  pub tx : s.txseq < 4
  pub rx : s.rxseq < 4
  pub address : s.addr < 256
  pub name : (not (mem_zero align s.uuid) && ltb 36 (length (uuid_unparse s.uuid) + 1)) ≡ false

module _ (uuid_unparse : Bytes → Bytes) (align : ℕ) where
  -- `ack` at a valid slave: its retries are 0 and its sequence number is the next, so it is online and
  -- valid again. The broker is told exactly if it was offline, and nothing else changes.
  pub ack_lem :
      (w : Site)
      → IsValid uuid_unparse align w.slave
      → let s : Slave = record w.slave { txseq = next_seq w.slave.txseq; retry = 0 } in
        let told : Slave = record w.slave { txseq = next_seq w.slave.txseq } in
        (ack uuid_unparse align w
          ≡ ok tt (record w {
            slave = s;
            published =
                if offline w.slave
                then w.published ++ status uuid_unparse align told true ∷ []
                else w.published;
          }))
        × (offline s ≡ false)
        × IsValid uuid_unparse align s
  unfolding ack declare_online offline next_seq
  ack_lem w v = (
    elim (Bool-cases (leb retry_max w.slave.retry && ltb w.slave.retry 32768)) [
      | inl off ↦ rw (off, v.name)
      | inr on ↦ rw on
    ],
    refl,
    record {
      retries = omega arith;
      tx = ground (arith, v.tx);
      rx = v.rx;
      address = v.address;
      name = v.name;
    },
  )

  -- The retries of a slave after `k` misses in a row.
  abbrev pub missed : ℕ → ℕ → ℕ
  missed k retry = if leb retry_max retry then retry else min (retry + k) retry_max

  -- `nak` at a valid slave: an offline one stays as it is; another counts the miss, and either is due
  -- for a new poll 10 ms from now, or has now missed 10 polls and is reported OFFLINE (DISABLED if it
  -- is disabled).
  pub nak_lem :
      (w : Site)
      → IsValid uuid_unparse align w.slave
      → let s : Slave = record w.slave { retry = w.slave.retry + 1 } in
        nak uuid_unparse align w ≡ (
          if leb retry_max w.slave.retry
          then ok tt w
          else if w.slave.retry == 9
          then ok tt (record w {
            slave = s;
            published = w.published ++ status uuid_unparse align s false ∷ [];
          })
          else ok tt (record w {
            slave = record s { next_poll = ten_ms_after (w.clock w.tick) };
            tick = w.tick + 1;
          }))
  unfolding nak declare_online offline site_clock
  nak_lem w v =
      let fits : (w.slave.retry + 1) % 65536 ≡ w.slave.retry + 1 = omega (arith, v.retries) in
      let signed : ltb w.slave.retry 32768 ≡ true = ground (arith, v.retries) in
      let signed' : ltb (w.slave.retry + 1) 32768 ≡ true = ground (arith, v.retries) in
      elim (Bool-cases (leb retry_max w.slave.retry)) [
        | inl off ↦ rw (fits, signed, off)
        | inr on ↦ elim (Bool-cases (w.slave.retry == 9)) [
          | inl last ↦
              let reached : leb retry_max (w.slave.retry + 1) ≡ true = ground arith in
              rw (fits, signed, on, signed', last, reached, v.name)
          | inr more ↦
              let below : leb retry_max (w.slave.retry + 1) ≡ false = ground arith in
              rw (fits, signed, on, signed', more, below)
        ]
      ]

  -- `k` failed polls in a row.
  unfoldable pub naks : ℕ → Cmd Site (Unit {0})
  naks zero w = ok tt w
  naks (suc k) w = and_then (nak uuid_unparse align w) (λ _ w'. naks k w')

  -- What `k` misses do to a site.
  pub record Missed (k : ℕ) (w : Site) (r : Run Site (Unit {0})) : Type 0 where
    pub after : Site
    pub returns : r ≡ ok tt after
    pub retries : after.slave.retry ≡ missed k w.slave.retry
    pub told : after.published ≡ (
        if ltb w.slave.retry retry_max && leb retry_max (w.slave.retry + k)
        then w.published ++ status uuid_unparse align w.slave false ∷ []
        else w.published)
    pub queue : after.slave.msglist ≡ w.slave.msglist
    pub seqs : (after.slave.txseq ≡ w.slave.txseq) × (after.slave.rxseq ≡ w.slave.rxseq)

  with_retry-IsValid :
      (s : Slave) (n : ℕ) (t : Timespec)
      → n ≤ retry_max + 1
      → IsValid uuid_unparse align s
      → IsValid uuid_unparse align (record s { retry = n; next_poll = t })
  with_retry-IsValid s n t h v = record {
    retries = h;
    tx = v.tx;
    rx = v.rx;
    address = v.address;
    name = v.name;
  }

  naks_offline :
      (k : ℕ) (w : Site)
      → IsValid uuid_unparse align w.slave
      → leb retry_max w.slave.retry ≡ true
      → naks k w ≡ ok tt w
  unfolding naks
  naks_offline zero w v off = refl
  naks_offline (suc k) w v off =
      let e : nak uuid_unparse align w ≡ ok tt w = nak_lem w v ∙ rw off in
      rw e (naks_offline k w v off)

  -- `k` misses in a row at a valid slave add up, to ten at most. The broker is told OFFLINE (or DISABLED)
  -- once, if the slave was online and its tenth miss is among them, and nothing otherwise; the queue and
  -- the sequence numbers stay.
  pub naks-Missed : (k : ℕ) (w : Site) → IsValid uuid_unparse align w.slave → Missed k w (naks k w)
  unfolding naks status status_name
  naks-Missed zero w v = record {
    after = w;
    returns = refl;
    retries = ground arith;
    told = ground arith;
    queue = refl;
    seqs = (refl, refl);
  }
  naks-Missed (suc k) w v = elim (Bool-cases (leb retry_max w.slave.retry)) [
    | inl off ↦ record {
      after = w;
      returns = naks_offline (suc k) w v off;
      retries = ground arith;
      told = ground arith;
      queue = refl;
      seqs = (refl, refl);
    }
    | inr on ↦ elim (Bool-cases (w.slave.retry == 9)) [
      | inl last ↦
          let s : Slave = record w.slave { retry = w.slave.retry + 1 } in
          let w' : Site = record w {
            slave = s;
            published = w.published ++ status uuid_unparse align s false ∷ [];
          } in
          let e : nak uuid_unparse align w ≡ ok tt w' = nak_lem w v ∙ rw (on, last) in
          rw e (record {
            after = w';
            returns =
                naks_offline k w' (with_retry-IsValid w.slave _ _ (ground arith) v) (ground arith);
            retries = ground arith;
            told = ground arith;
            queue = refl;
            seqs = (refl, refl);
          })
      | inr more ↦
          let s : Slave = record w.slave {
            retry = w.slave.retry + 1;
            next_poll = ten_ms_after (w.clock w.tick);
          } in
          let w' : Site = record w { slave = s; tick = w.tick + 1 } in
          let e : nak uuid_unparse align w ≡ ok tt w' = nak_lem w v ∙ rw (on, more) in
          let m = naks-Missed k w' (with_retry-IsValid w.slave _ _ (ground arith) v) in
          rw e (record {
            after = m.after;
            returns = m.returns;
            retries = m.retries ∙ ground arith;
            told = m.told ∙ ground arith;
            queue = m.queue;
            seqs = m.seqs;
          })
    ]
  ]
