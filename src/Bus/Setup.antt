-- ===== src/Bus/Setup.antt =====
-- `busprotocol::add_slave` of osdpmaster.cpp: the slaves of the configuration. Also the small methods of
-- `class busprotocol` in osdpmaster.h.
use osdpmaster.Prelude.{
  get_elem?-behind, Bool, Option, ℕ, ◌%◌, ◌^◌, ◌<◌, ◌≡◌, refl, true, not, ◌==◌, [], ◌∷◌, ◌++◌, some,
  length, length-append, get_elem?, Bytes, arith, All,
}
use osdpmaster.Timespec.{Timespec}
use osdpmaster.Run.{Cmd, ok}
use osdpmaster.Slave.{
  Slave, is_empty, first_of_queue, rest_of_queue, construct, init, purge, offline, defined,
  mem_zero, no_uuid,
}
use osdpmaster.Slave.Zero.{mem_zero_iff}
use osdpmaster.Bus.{Bus, pollable}

-- `add_slave`: a static slave behind the others; the first slave becomes the current one. `unset` is
-- what stands in the field that the constructor leaves.
unfoldable pub add_slave : (Bytes → ℕ) → Timespec → Bytes → Bus → Bus
add_slave strtoul unset addr b = record b {
  slaves = b.slaves ++ init (record (construct unset) { addr = strtoul addr % 2 ^ 8 }) ∷ [];
  poll_slave = 0;
}

pub zeroes-All : All (λ (x : ℕ). x ≡ 0) no_uuid
zeroes-All = (
  refl,
  (
    refl,
    (
      refl,
      (
        refl,
        (
          refl,
          (
            refl,
            (refl, (refl, (refl, (refl, (refl, (refl, (refl, (refl, (refl, (refl, tt)))))))))),
          ),
        ),
      ),
    ),
  ),
)

-- After `add_slave` there is a current slave, the first. The new slave stands behind the others; its
-- address is the low byte of the number of the text, its queue is empty, it counts as offline, and it
-- will be polled unless its address is 255.
pub add_slave-ready :
    (strtoul : Bytes → ℕ) (unset : Timespec) (addr : Bytes) (align : ℕ) (b : Bus)
    → let b' : Bus = add_slave strtoul unset addr b in
      (b'.poll_slave < length b'.slaves)
      × ((s : Slave) × (get_elem? b'.slaves (length b.slaves) ≡ some s)
          × (s.addr ≡ strtoul addr % 256)
          × (s.msglist ≡ [])
          × (offline s ≡ true)
          × (pollable align s ≡ not (strtoul addr % 256 == 255)))
unfolding add_slave init purge construct offline pollable defined
add_slave-ready strtoul unset addr align b =
    let zeroes : mem_zero align no_uuid ≡ true = (mem_zero_iff align no_uuid).1 zeroes-All in
    (
      omega (
        arith,
        length-append b.slaves
            (init (record (construct unset) { addr = strtoul addr % 2 ^ 8 }) ∷ []),
      ),
      (_, get_elem?-behind b.slaves _, refl, refl, refl, rw zeroes (ground arith)),
    )

-- The queue of the bus, which the program does not use, as that of a slave.
abbrev pub queue_empty : Bus → Bool
queue_empty b = is_empty b.msglist

abbrev pub queue_front : Bus → Bytes
queue_front b = first_of_queue b.msglist

abbrev pub queue_pop : Bus → Bus
queue_pop b = record b { msglist = rest_of_queue b.msglist }

abbrev pub queue_push : Bytes → Bus → Bus
queue_push msg b = record b { msglist = b.msglist ++ msg ∷ [] }

-- `port2(n)`: the result is the name before.
abbrev pub exchange_port2 : Option Bytes → Cmd Bus (Option Bytes)
exchange_port2 name b = ok b.port2 (record b { port2 = name })
