-- ===== src/Bus/Defined.antt =====
-- The bus without undefined behaviour: what holds of it where every queued message fits the transmit
-- buffer and is not empty, and the calls of the serial protocol and of the slaves that keep it.
pub mod Steps
pub mod Poll
pub mod Messages
use osdpmaster.Prelude.{
  ℕ, zero, suc, ◌+◌, ◌≤◌, ◌<◌, ◌≡◌, refl, Bool, List, [], ◌∷◌, Option, none, some, length,
  length-set, get_elem?, set, Bytes, arith, All,
}
use osdpmaster.Run.{Run, Cmd, ok, throw, starved, fault, out_of_fuel, Stays}
use osdpmaster.Timespec.{Timespec}
use osdpmaster.Protocol.{Protocol}
use osdpmaster.Protocol.Input.Keeps.{IsLine}
use osdpmaster.Protocol.Output.Defined.{Fits}
use osdpmaster.Slave.{Slave, Site}
use osdpmaster.Slave.Retries.{IsValid}
use osdpmaster.Bus.{Bus, on_line, update_slave, at_slave, back_from_site, site_of, slave_or_fault}
use osdpmaster.Bus.Invariant.{IsSound, All-get_elem?, All-set}

-- There is an element at each place of a list.
pub get_elem?-inside :
    {A : Type 0} (xs : List A) (i : ℕ) → i < length xs → (x : A) × (get_elem? xs i ≡ some x)
get_elem?-inside [] i h = absurd (omega arith)
get_elem?-inside (x ∷ xs) zero h = (x, refl)
get_elem?-inside (x ∷ xs) (suc i) h = get_elem?-inside xs i (omega arith)

-- A message that is not empty, and fits the transmit buffer.
abbrev pub Sends : ℕ → ℕ → Bytes → Type 0
Sends lead trail msg = (0 < length msg) × Fits lead trail msg

module _ (uuid_unparse : Bytes → Bytes) (align lead trail : ℕ) where
  -- A valid slave whose queued messages can be sent.
  pub record IsOrderly (s : Slave) : Type 0 where
    pub valid : IsValid uuid_unparse align s
    pub queue : All (Sends lead trail) s.msglist

  -- The bus can go on: orderly slaves, a current one among them, and a line of its configuration.
  pub record IsSteady (b : Bus) : Type 0 where
    pub slaves : All IsOrderly b.slaves
    pub place : b.poll_slave < length b.slaves
    pub line : IsLine lead trail b.proto.in_buffer b.proto.config

  -- While the slave at a place is worked on.
  abbrev pub At : ℕ → Bus → Type 0
  At i b = IsSteady b × (i < length b.slaves)

  At-set :
      (i : ℕ) (b : Bus) (s : Slave)
      → At i b
      → IsOrderly s
      → At i (record b { slaves = set b.slaves i s })
  At-set i b s v h =
      let same = length-set b.slaves i s in
      (
        record {
          slaves = All-set _ b.slaves i s v.0.slaves h;
          place = omega (arith, v.0.place, same);
          line = v.0.line;
        },
        omega (arith, v.1, same),
      )

  line_run :
      {A : Type 0} (i : ℕ) (r : Run Protocol A) (b : Bus)
      → At i b
      → Stays ⊥ (λ p. IsLine lead trail p.in_buffer p.config) r
      → Stays ⊥ (At i) (elim r [
        | ok a p ↦ ok a (record b { proto = p })
        | throw e p ↦ throw e (record b { proto = p })
        | starved ↦ starved
        | fault ↦ fault
        | out_of_fuel ↦ out_of_fuel
      ])
  line_run i (ok a p) b v h = (record { slaves = v.0.slaves; place = v.0.place; line = h }, v.1)
  line_run i (throw e p) b v h = (record { slaves = v.0.slaves; place = v.0.place; line = h }, v.1)
  line_run i starved b v h = h
  line_run i fault b v h = h
  line_run i out_of_fuel b v h = h

  pub on_line-Stays :
      {A : Type 0} (i : ℕ) (m : Cmd Protocol A) (b : Bus)
      → ((p : Protocol)
          → IsLine lead trail p.in_buffer p.config
          → Stays ⊥ (λ q. IsLine lead trail q.in_buffer q.config) (m p))
      → At i b
      → Stays ⊥ (At i) (on_line m b)
  on_line-Stays i m b keeps v = line_run i (m b.proto) b v (keeps b.proto v.0.line)

  pub with_slave-Stays :
      {A : Type 0} (i : ℕ) (k : Slave → Cmd Bus A) (b : Bus)
      → At i b
      → ((s : Slave) → IsOrderly s → Stays ⊥ (At i) (k s b))
      → Stays ⊥ (At i) (slave_or_fault (get_elem? b.slaves i) k b)
  unfolding slave_or_fault
  with_slave-Stays i k b v next =
      let (s, here) = get_elem?-inside b.slaves i v.1 in
      rw here (next s (All-get_elem? _ b.slaves i s v.0.slaves here))

  pub update_slave-Stays :
      (i : ℕ) (f : Slave → Slave) (b : Bus)
      → ((s : Slave) → IsOrderly s → IsOrderly (f s))
      → At i b
      → Stays ⊥ (At i) (update_slave i f b)
  unfolding update_slave
  update_slave-Stays i f b keeps v =
      with_slave-Stays i _ b v (λ s h. At-set i b (f s) v (keeps s h))

  back_from_site-Stays :
      (i : ℕ) (b : Bus) (r : Run Site (Unit {0}))
      → At i b
      → Stays ⊥ (λ x. IsOrderly x.slave) r
      → Stays ⊥ (At i) (back_from_site i b r)
  unfolding back_from_site
  back_from_site-Stays i b (ok a w) v h =
      let (v', inside) = At-set i b w.slave v h in
      (record { slaves = v'.slaves; place = v'.place; line = v'.line }, inside)
  back_from_site-Stays i b (throw e w) v h =
      let (v', inside) = At-set i b w.slave v h in
      (record { slaves = v'.slaves; place = v'.place; line = v'.line }, inside)
  back_from_site-Stays i b starved v h = h
  back_from_site-Stays i b fault v h = h
  back_from_site-Stays i b out_of_fuel v h = h

  pub at_slave-Stays :
      (i : ℕ) (m : Cmd Site (Unit {0})) (b : Bus)
      → ((w : Site) → IsOrderly w.slave → Stays ⊥ (λ x. IsOrderly x.slave) (m w))
      → At i b
      → Stays ⊥ (At i) (at_slave i m b)
  unfolding at_slave
  at_slave-Stays i m b keeps v =
      with_slave-Stays i _ b v
        (λ s h. back_from_site-Stays i b (m (site_of s b)) v (keeps (site_of s b) h))

  -- A new queue, time to poll or switch leaves a slave valid.
  pub IsOrderly-with :
      (s : Slave) (q : List Bytes) (t : Timespec) (on : Bool)
      → IsOrderly s
      → All (Sends lead trail) q
      → IsOrderly (record s { msglist = q; next_assign = t; enabled = on })
  IsOrderly-with s q t on h fits = record {
    valid = record {
      retries = h.valid.retries;
      tx = h.valid.tx;
      rx = h.valid.rx;
      address = h.valid.address;
      name = h.valid.name;
    };
    queue = fits;
  }
