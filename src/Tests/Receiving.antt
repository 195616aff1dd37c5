-- ===== src/Tests/Receiving.antt =====
-- The theorems on receiving, at a poll of the device at address 1 and what follows it.
use osdpmaster.Prelude.{inl, inr, ◌≡◌, refl, [], ◌∷◌, ◌++◌, Bytes, length, arith, bit_and, ◌+◌, ◌/◌}
use osdpmaster.Run
use osdpmaster.Run.{Safe, ok, read_failed}
use osdpmaster.Timespec.{timespec, ts_sub, to_ms}
use osdpmaster.Crc.{crc16_add, crc16_byte, crc16_prepare}
use osdpmaster.Protocol.{
  Protocol, arrived, no_data, slave_buff_size, splice, error, timeout, crc, flyby,
}
use osdpmaster.Protocol.Input.{readcook, deadline_after}
use osdpmaster.Protocol.Input.Bounds.{Ends}
use osdpmaster.Protocol.Input.Safe.{readcook-Safe}
use osdpmaster.Protocol.Input.Reads.{stream_events}
use osdpmaster.Protocol.Input.Frames.{Brings, Heard, readcook-Heard}
use osdpmaster.Protocol.Input.Flyby.{Passed, readcook-Passed}
use osdpmaster.Protocol.Input.Idle.{Idle}
use osdpmaster.Protocol.Input.Silence.{readcook-Ends}
use osdpmaster.Protocol.Input.Timeout.{readcook_timeout}
use osdpmaster.Protocol.Output.{writecook, wrapped, frame, envelope}
use osdpmaster.Protocol.RoundTrip.{Received, readcook-writecook, readcook_corrupted}
use osdpmaster.Tests.Wire.{blank}
use osdpmaster.Tests.Sending.{sender}

-- A poll of the device at address 1, as it stands on the wire.
abbrev poll_frame : Bytes
poll_frame = 0x53 ∷ 1 ∷ 8 ∷ 0 ∷ 4 ∷ 0x60 ∷ 186 ∷ 0 ∷ []

-- A reader to which it comes in three pieces, with a byte of what follows.
abbrev reader : Protocol
reader = record blank {
  clock = λ n. timespec 100 0;
  rx =
      arrived (0x53 ∷ 1 ∷ [])
      ∷ no_data
      ∷ arrived (8 ∷ 0 ∷ 4 ∷ [])
      ∷ arrived (0x60 ∷ 186 ∷ 0 ∷ 9 ∷ [])
      ∷ [];
}

reader-Brings : Brings (poll_frame ++ (9 ∷ [])) reader
unfolding deadline_after ts_sub to_ms
reader-Brings = record {
  alive = (omega arith, (omega arith, (omega arith, tt)));
  unread = refl;
  buffer = refl;
  in_time = λ n lt. refl;
}

poll_frame-wrapped : wrapped 0 0 1 0 (0x60 ∷ []) ≡ poll_frame
unfolding wrapped frame envelope crc16_add crc16_byte
poll_frame-wrapped = refl

readcook-writecook_example :
    (s' : Protocol) × (writecook 1 0 (0x60 ∷ []) sender
      ≡ ok (length (wrapped 0 0 1 0 (0x60 ∷ []))) s')
    × (s'.sent ≡ wrapped 0 0 1 0 (0x60 ∷ []))
    × Received (envelope 1 0 (0x60 ∷ [])) (9 ∷ []) (readcook reader)
unfolding wrapped frame envelope crc16_add crc16_byte
readcook-writecook_example =
    readcook-writecook sender reader 1 0 (0x60 ∷ []) (9 ∷ []) refl refl (omega arith) refl
      reader-Brings refl (omega arith) (omega arith)

readcook-Heard_example : Heard (0x53 ∷ 1 ∷ 8 ∷ 0 ∷ 4 ∷ 0x60 ∷ []) 186 0 (9 ∷ []) (readcook reader)
readcook-Heard_example =
    readcook-Heard reader [] 1 8 0 4 (0x60 ∷ []) 186 0 (9 ∷ []) reader-Brings tt refl refl refl
      (omega arith)

-- The device at address 2 on the same line lets the message pass.
abbrev bystander : Protocol
bystander = record reader { my_addr = 2 }

bystander-Brings : Brings (poll_frame ++ (9 ∷ [])) bystander
unfolding deadline_after ts_sub to_ms
bystander-Brings = record {
  alive = (omega arith, (omega arith, (omega arith, tt)));
  unread = refl;
  buffer = refl;
  in_time = λ n lt. refl;
}

readcook-Passed_example : Passed (error flyby) (9 ∷ []) (readcook bystander)
unfolding crc16_add crc16_byte
readcook-Passed_example =
    readcook-Passed bystander [] 1 8 0 4 (0x60 ∷ []) 186 0 (9 ∷ []) bystander-Brings tt refl refl
      refl

-- The check of a message with payload 0x60 0x61, behind one with payload 0x60 0x62.
abbrev damaged : Bytes
damaged = 0x53 ∷ 1 ∷ 9 ∷ 0 ∷ 4 ∷ 0x60 ∷ 0x62 ∷ 214 ∷ 108 ∷ 9 ∷ []

abbrev damaged_reader : Protocol
damaged_reader = record reader { rx = arrived damaged ∷ [] }

damaged_reader-Brings :
    Brings
      (envelope 1 0 (0x60 ∷ 0x62 ∷ [])
        ++ (bit_and (crc16_add crc16_prepare (envelope 1 0 (0x60 ∷ 0x61 ∷ []))) 0xFF
            ∷ bit_and (crc16_add crc16_prepare (envelope 1 0 (0x60 ∷ 0x61 ∷ [])) / 256) 0xFF
            ∷ 9
            ∷ []))
      damaged_reader
unfolding deadline_after ts_sub to_ms envelope crc16_add crc16_byte
damaged_reader-Brings = record {
  alive = (omega arith, tt);
  unread = refl;
  buffer = refl;
  in_time = λ n lt. refl;
}

readcook_corrupted_example :
    (q : Protocol) × (readcook damaged_reader ≡ ok (error crc) q)
    × (q.pending ++ stream_events q.rx ≡ 9 ∷ [])
readcook_corrupted_example =
    readcook_corrupted damaged_reader [] 1 0 [] [] 0x60 0x61 0x60 0x62 (9 ∷ [])
      damaged_reader-Brings tt refl (omega arith) (omega arith)
      (omega arith, (omega arith, (omega arith, (omega arith, tt))))
      (λ same. absurd (omega (arith, same.1)))

readcook-Safe_example : Safe (Ends 4 slave_buff_size) (readcook reader)
readcook-Safe_example = readcook-Safe reader refl

-- Nothing arrives; the clock is read at 100 seconds, then once more within the timeout of 3 ms, and
-- then behind it.
abbrev silent : Protocol
silent = record blank {
  clock = λ n. timespec (100 + n / 2) 0;
  rx = no_data ∷ no_data ∷ arrived (1 ∷ []) ∷ [];
}

readcook_timeout_example :
    (q : Protocol) × (readcook silent ≡ ok (error timeout) q)
    × (q.in_buffer ≡ splice silent.in_buffer 0 (0 ∷ 0 ∷ 0 ∷ 0 ∷ 0 ∷ []))
    × (q.rx ≡ arrived (1 ∷ []) ∷ [])
readcook_timeout_example =
    readcook_timeout silent 1 (arrived (1 ∷ []) ∷ []) refl refl (λ n. omega arith)
      (λ n lt. omega arith) (omega arith)

-- Six bytes in two pieces, and then silence.
abbrev busy : Protocol
busy = record blank {
  rx = arrived (1 ∷ (2 ∷ (3 ∷ (4 ∷ (5 ∷ []))))) ∷ (arrived (6 ∷ []) ∷ (no_data ∷ (no_data ∷ [])));
  clock = λ n. timespec n 0;
}

-- A byte that is not SOH, and then no data until two seconds have gone by.
abbrev hushed : Protocol
hushed = record blank {
  rx = arrived (7 ∷ []) ∷ (no_data ∷ (no_data ∷ []));
  clock = λ n. timespec n 0;
}

readcook-Ends_example : Run.Ends (Ends 4 slave_buff_size) (λ e q. e ≡ read_failed) (readcook hushed)
unfolding deadline_after to_ms ts_sub
readcook-Ends_example = readcook-Ends hushed refl (inr (inl refl))
