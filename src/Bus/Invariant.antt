-- ===== src/Bus/Invariant.antt =====
-- The state of the bus stays sound, whatever comes over the line.
pub mod Steps
pub mod Poll
pub mod Messages
use osdpmaster.Prelude.{
  ℕ, zero, suc, ◌+◌, ◌%◌, ◌≤◌, ◌<◌, ◌≡◌, refl, sym, ap, ◌∙◌, Bool, true, false, not, ◌&&◌, ◌||◌,
  ◌==◌, List, [], ◌∷◌, ◌++◌, Option, none, some, if◌then◌else◌, ltb, leb, length, length-set,
  get_elem?, set, Bytes, arith, Bool-cases, Option-cases, inl, inr, ◌⊎◌, All, bit_and, bit_and_3,
}
use osdpmaster.Run.{
  Run, Cmd, ok, throw, starved, fault, out_of_fuel, and_then, pure, ◌>>=◌, ◌>>◌, Keeps,
  Keeps-and_then,
}
use osdpmaster.Timespec.{Timespec, timespec}
use osdpmaster.Protocol.{Protocol, Reply, size, error, clock_gettime, flush_input}
use osdpmaster.Protocol.Input.{readcook}
use osdpmaster.Protocol.Output.{writecook}
use osdpmaster.Slave.{Slave, Site, next_seq, purge, pop, ack, nak, offline, is_empty, retry_max}
use osdpmaster.Slave.Retries.{IsValid, ack_lem, nak_lem, next_seq_cycle}
use osdpmaster.Bus.{
  Bus, Polled, did_poll, didnt_poll, osdp_poll, osdp_ack, osdp_nak, osdp_busy, in_function, in_seq,
  incoming, on_line, update_slave, at_slave, back_from_site, site_of, slave_or_fault, next_place,
  pollable, pollable_at, select, advance, send_to, poll_offline, due_again, before, outgoing,
  refuse_reply, follow_seq, count_error, accept_reply, take_reply, miss_reply, await_reply,
  poll_online, poll_at, slave_poll,
}

-- What holds of all elements holds of one of them, and stays if one is replaced.
pub All-get_elem? :
    {A : Type 0} (P : A → Type 0) (xs : List A) (i : ℕ) (x : A)
    → All P xs
    → get_elem? xs i ≡ some x
    → P x
All-get_elem? P [] i x h e = cc
All-get_elem? P (y ∷ xs) zero x h e = let same : y ≡ x = cc in rw (← same) h.0
All-get_elem? P (y ∷ xs) (suc i) x h e = All-get_elem? P xs i x h.1 e

pub All-set :
    {A : Type 0} (P : A → Type 0) (xs : List A) (i : ℕ) (x : A)
    → All P xs
    → P x
    → All P (set xs i x)
All-set P [] i x h p = h
All-set P (y ∷ xs) zero x h p = (p, h.1)
All-set P (y ∷ xs) (suc i) x h p = (h.0, All-set P xs i x h.1 p)

-- The place behind another one, and the one that is chosen, is a place of the list.
next_place-lt : (count a : ℕ) → a < count → next_place count a < count
next_place-lt count a h = ground arith

some-lt : (p n k : ℕ) → some p ≡ some n → p < k → n < k
some-lt p n k e h = let same : p ≡ n = cc in rw (← same) h

pub select-lt :
    (fuel align : ℕ) (slaves : List Slave) (start a n : ℕ)
    → a < length slaves
    → select fuel align slaves start a ≡ some n
    → n < length slaves
unfolding select
select-lt zero align slaves start a n h e = cc
select-lt (suc fuel) align slaves start a n h e =
    let p = next_place (length slaves) a in
    let there : p < length slaves = next_place-lt (length slaves) a h in
    elim (Bool-cases (p == start)) [
      | inl round ↦ let same : some p ≡ some n = rw round at e in some-lt p n _ same there
      | inr more ↦ elim (Bool-cases (pollable_at align slaves p)) [
        | inl can ↦ let same : some p ≡ some n = rw (more, can) at e in some-lt p n _ same there
        | inr cannot ↦ select-lt fuel align slaves start p n there (rw (more, cannot) at e)
      ]
    ]

module _ (uuid_unparse : Bytes → Bytes) (align : ℕ) where
  -- Every slave is valid, and there is a current one.
  pub record IsSound (b : Bus) : Type 0 where
    pub slaves : All (IsValid uuid_unparse align) b.slaves
    pub place : b.poll_slave < length b.slaves

  IsSound-set :
      (i : ℕ) (b : Bus) (s : Slave)
      → IsSound b
      → IsValid uuid_unparse align s
      → IsSound (record b { slaves = set b.slaves i s })
  IsSound-set i b s v valid = record {
    slaves = All-set _ b.slaves i s v.slaves valid;
    place = omega (arith, v.place, length-set b.slaves i s);
  }

  line_run :
      {A : Type 0} (r : Run Protocol A) (b : Bus)
      → IsSound b
      → Keeps IsSound (elim r [
        | ok a p ↦ ok a (record b { proto = p })
        | throw e p ↦ throw e (record b { proto = p })
        | starved ↦ starved
        | fault ↦ fault
        | out_of_fuel ↦ out_of_fuel
      ])
  line_run (ok a p) b v = record { slaves = v.slaves; place = v.place }
  line_run (throw e p) b v = record { slaves = v.slaves; place = v.place }
  line_run starved b v = tt
  line_run fault b v = tt
  line_run out_of_fuel b v = tt

  pub on_line-IsSound :
      {A : Type 0} (m : Cmd Protocol A) (b : Bus) → IsSound b → Keeps IsSound (on_line m b)
  on_line-IsSound m b v = line_run (m b.proto) b v

  pub update_slave-IsSound :
      (i : ℕ) (f : Slave → Slave) (b : Bus)
      → ((s : Slave) → IsValid uuid_unparse align s → IsValid uuid_unparse align (f s))
      → IsSound b
      → Keeps IsSound (update_slave i f b)
  unfolding update_slave slave_or_fault
  update_slave-IsSound i f b keeps v = elim (Option-cases (get_elem? b.slaves i)) [
    | inl missing ↦ rw missing tt
    | inr (s, here) ↦
        rw here (IsSound-set i b (f s) v (keeps s (All-get_elem? _ b.slaves i s v.slaves here)))
  ]

  back_from_site-IsSound :
      (i : ℕ) (b : Bus)
      → IsSound b
      → (r : Run Site (Unit {0})) → Keeps (λ x. IsValid uuid_unparse align x.slave) r
      → Keeps IsSound (back_from_site i b r)
  unfolding back_from_site
  back_from_site-IsSound i b v (ok a w) h =
      let set_one = IsSound-set i b w.slave v h in
      record { slaves = set_one.slaves; place = set_one.place }
  back_from_site-IsSound i b v (throw e w) h =
      let set_one = IsSound-set i b w.slave v h in
      record { slaves = set_one.slaves; place = set_one.place }
  back_from_site-IsSound i b v starved h = h
  back_from_site-IsSound i b v fault h = h
  back_from_site-IsSound i b v out_of_fuel h = h

  pub at_slave-IsSound :
      (i : ℕ) (m : Cmd Site (Unit {0})) (b : Bus)
      → ((w : Site)
          → IsValid uuid_unparse align w.slave
          → Keeps (λ x. IsValid uuid_unparse align x.slave) (m w))
      → IsSound b
      → Keeps IsSound (at_slave i m b)
  unfolding at_slave slave_or_fault
  at_slave-IsSound i m b keeps v = elim (Option-cases (get_elem? b.slaves i)) [
    | inl missing ↦ rw missing tt
    | inr (s, here) ↦ rw here (
        back_from_site-IsSound i b v (m (site_of s b))
          (keeps (site_of s b) (All-get_elem? _ b.slaves i s v.slaves here)))
  ]

  -- The slave at a place is valid.
  pub with_slave-IsSound :
      {A : Type 0} (o : Option Slave) (k : Slave → Cmd Bus A) (b : Bus)
      → ((s : Slave) → Keeps IsSound (k s b))
      → Keeps IsSound (slave_or_fault o k b)
  unfolding slave_or_fault
  with_slave-IsSound none k b next = tt
  with_slave-IsSound (some s) k b next = next s
