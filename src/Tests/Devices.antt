-- ===== src/Tests/Devices.antt =====
-- The theorems on a slave and on the bus, at a device that has answered and is sent a message.
use osdpmaster.Prelude.{
  codes, ℕ, ◌≡◌, ◌≤◌, refl, Bool, true, false, [], ◌∷◌, Bytes, replicate, arith, ◌+◌, ◌-◌, ◌%◌, ◌⊎◌,
  ◌↔◌, All, all_below, not, none,
}
use osdpmaster.Run.{ok}
use osdpmaster.Timespec.{timespec}
use osdpmaster.Protocol.{Protocol}
use osdpmaster.Slave.{
  status_name, status_value, Slave, Site, next_seq, mem_zero, offline, ack, status, zero_bytes,
  zero_words,
}
use osdpmaster.Slave.Zero.{mem_zero_iff}
use osdpmaster.Slave.Retries.{IsValid, Missed, naks, naks-Missed, ack_lem}
use osdpmaster.Bus.{Bus, pollable_at, advance, take_reply, did_poll}
use osdpmaster.Bus.Select.{advance-round}
use osdpmaster.Bus.Poll.{take_reply_lem, accepted}
use osdpmaster.Topic.{split, join, join_rest}
use osdpmaster.Topic.Join.{split-join}
use osdpmaster.Bus.Messages.{
  message_callback, message_callback-queues, place_of, delivered, obey, obey-tells,
}
use osdpmaster.Bus.Invariant.{IsSound}
use osdpmaster.Tests.Wire.{blank}

-- No uuid is set, so its text is never asked for; this is some text.
abbrev pub uuid_text : Bytes → Bytes
uuid_text u = replicate 36 (b'0')

-- A device at address 1 that has missed 8 polls, with a message waiting.
abbrev pub device : Slave
device = record {
  retry = 8;
  next_assign = timespec 0 0;
  next_poll = timespec 0 0;
  msglist = (0x69 ∷ 0x01 ∷ []) ∷ [];
  uuid = replicate 16 0;
  addr = 1;
  txseq = 3;
  rxseq = 2;
  enabled = true;
  setrtc = false;
}

device-IsValid : IsValid uuid_text 0 device
unfolding mem_zero zero_words zero_bytes
device-IsValid = record {
  retries = omega arith;
  tx = omega arith;
  rx = omega arith;
  address = omega arith;
  name = refl;
}

abbrev place : Site
place = record { slave = device; clock = λ n. timespec 100 n; tick = 0; published = [] }

-- Three misses: the second takes it offline.
naks-Missed_example : Missed uuid_text 0 3 place (naks uuid_text 0 3 place)
naks-Missed_example = naks-Missed uuid_text 0 3 place device-IsValid

-- A device that was offline answers.
abbrev lost : Site
lost = record place { slave = record device { retry = 10 } }

lost-IsValid : IsValid uuid_text 0 lost.slave
lost-IsValid = record {
  retries = omega arith;
  tx = device-IsValid.tx;
  rx = device-IsValid.rx;
  address = device-IsValid.address;
  name = device-IsValid.name;
}

ack_lem_example :
    let told : Slave = record lost.slave { txseq = next_seq 3 } in
    let s : Slave = record told { retry = 0 } in
    (ack uuid_text 0 lost
      ≡ ok tt (record lost { slave = s; published = status uuid_text 0 told true ∷ [] }))
    × (offline s ≡ false)
    × IsValid uuid_text 0 s
unfolding offline
ack_lem_example = ack_lem uuid_text 0 lost lost-IsValid

mem_zero_iff_example :
    (mem_zero 5 (0 ∷ 0 ∷ 0 ∷ 7 ∷ []) ≡ true) ↔ All (λ (b : ℕ). b ≡ 0) (0 ∷ 0 ∷ 0 ∷ 7 ∷ [])
mem_zero_iff_example = mem_zero_iff 5 (0 ∷ 0 ∷ 0 ∷ 7 ∷ [])

-- A bus of two devices, the second of them disabled, on which the first is current; the reply `53 81
-- 08 00 06 40` from the first is in the buffer.
abbrev line : Protocol
line = record blank { in_buffer = 0x53 ∷ 0x81 ∷ 8 ∷ 0 ∷ 6 ∷ 0x40 ∷ replicate 265 0 }

abbrev pub bus : Bus
bus = record {
  proto = line;
  slaves = device ∷ record device { addr = 2; enabled = false } ∷ [];
  poll_slave = 0;
  msglist = [];
  crc_count = 0;
  timeout_count = 0;
  published = [];
  port2 = none;
}

pub bus-IsSound : IsSound uuid_text 0 bus
bus-IsSound = record {
  slaves = (
    device-IsValid,
    (
      record {
        retries = omega arith;
        tx = omega arith;
        rx = omega arith;
        address = omega arith;
        name = device-IsValid.name;
      },
      tt,
    ),
  );
  place = omega arith;
}

take_reply_lem_example :
    take_reply uuid_text 0 0 true 6 bus
    ≡ ok did_poll (accepted uuid_text 0 0 6 true bus device refl)
take_reply_lem_example = take_reply_lem uuid_text 0 0 6 true bus device refl device-IsValid

-- Only the current device can be polled, so it is chosen again.
advance-round_example :
    let can : ℕ → Bool = λ j. pollable_at 0 bus.slaves ((0 + j) % 2) in
    (k : ℕ) × (0 + 1 ≤ k)
    × (k ≤ 2)
    × (advance 0 bus ≡ ok ((0 + k) % 2) (record bus { poll_slave = (0 + k) % 2 }))
    × ((k ≡ 2) ⊎ (can k ≡ true))
    × (all_below (k - 1) (λ j. not (can (j + 1))) ≡ true)
advance-round_example = advance-round 0 bus (omega arith)

-- The number of a text of one digit.
abbrev one_digit : Bytes → ℕ
one_digit (d ∷ []) = d - 48
one_digit text = 0

message_callback-queues_example :
    message_callback uuid_text 0 one_digit (codes "osdp/bus1/outgoing/1") (0x69 ∷ []) bus
    ≡ ok delivered (record bus {
      slaves =
          record device { msglist = (0x69 ∷ 0x01 ∷ []) ∷ (0x69 ∷ []) ∷ [] }
          ∷ record device { addr = 2; enabled = false }
          ∷ [];
    })
unfolding place_of join join_rest
message_callback-queues_example =
    message_callback-queues uuid_text 0 one_digit (codes "1") (0x69 ∷ []) 0 device bus (refl, tt)
      (omega arith) refl refl (λ enabled. omega arith)

split-join_example :
    split (b'/') 0 (join (b'/') (codes "osdp" ∷ [] ∷ codes "1" ∷ []))
    ≡ codes "osdp" ∷ [] ∷ codes "1" ∷ []
split-join_example =
    split-join (b'/') (codes "osdp" ∷ [] ∷ codes "1" ∷ [])
      ((refl, (refl, (refl, (refl, tt)))), (tt, ((refl, tt), tt))) (omega arith)

-- ENABLE to the device that is disabled.
obey-tells_example :
    obey uuid_text 0 1 (codes "ENABLE") (record device { addr = 2; enabled = false }) bus
    ≡ ok tt (record bus {
      slaves = device ∷ record device { addr = 2 } ∷ [];
      published = status uuid_text 0 (record device { addr = 2 }) true ∷ [];
    })
unfolding status status_name status_value
obey-tells_example =
    obey-tells uuid_text 0 1 true (record device { addr = 2; enabled = false }) bus refl
      device-IsValid.name
