-- ===== src/Tests/Wire.antt =====
-- Frames on the wire: tests.
use osdpmaster.Prelude.{ℕ, ◌≡◌, refl, [], ◌∷◌, Bytes, true, replicate, List}
use osdpmaster.Run.{Run, ok}
use osdpmaster.Timespec.{timespec}
use osdpmaster.Crc.{crc16_add, crc16_byte}
use osdpmaster.Protocol.{
  clock_gettime, readstamp, delaywait, Protocol, default_config, arrived, accepted, Reply, size,
  slave_buff_size,
}
use osdpmaster.Protocol.Input.{
  readsoh, readsoh_loop, readsoh_found, fill, readeof, readeof_loop, read_body, verify, read_some,
  read_pending, read_events, deliver, work, work_events, find_soh, deadline_after, checksum,
  fly_past, flyby_loop, flyby_end, readcook,
}
use osdpmaster.Protocol.Output.{envelope, write, write_events, transmit, frame, wrapped, writecook}

-- A master's line with the settings of the default configuration.
abbrev pub blank : Protocol
blank = record {
  my_addr = 0xFF;
  config = default_config (record {
    port = [];
    baud = 0;
    parity = 0;
    bits = 0;
    stop = 0;
    flow = 0;
    usb = true;
    lead = 0;
    trail = 0;
    timeout = 0;
    delay = 0;
    idle = 0;
  });
  in_buffer = replicate slave_buff_size 0;
  out_buffer = replicate slave_buff_size 0;
  out_len = 0;
  next_write = timespec 0 0;
  deadline = timespec 0 0;
  pending = [];
  rx = [];
  tx = [];
  sent = [];
  clock = λ n. timespec 100 n;
  tick = 0;
  flush_succeeds = λ n. true;
  waits = [];
}

run_readcook : Protocol → Run Protocol Reply
unfolding readcook readsoh readsoh_loop readsoh_found fill readeof readeof_loop read_body verify
    read_some read_pending read_events deliver work work_events find_soh deadline_after readstamp
    clock_gettime crc16_add crc16_byte checksum fly_past flyby_loop flyby_end
run_readcook p = readcook p

run_writecook : ℕ → ℕ → Bytes → Protocol → Run Protocol ℕ
unfolding writecook transmit wrapped frame envelope write write_events delaywait readstamp
    clock_gettime crc16_add crc16_byte
run_writecook addr seq payload p = writecook addr seq payload p

abbrev outcome : Run Protocol Reply → List ℕ
outcome (ok (size n) p) = n ∷ p.pending
outcome _ = []

abbrev transmitted : Run Protocol ℕ → List ℕ
transmitted (ok n p) = p.sent
transmitted _ = []

writes_poll :
    transmitted (run_writecook 1 0 (0x60 ∷ []) (record blank { tx = accepted 3 ∷ accepted 9 ∷ [] }))
    ≡ 0x53 ∷ 1 ∷ 8 ∷ 0 ∷ 4 ∷ 0x60 ∷ 186 ∷ 0 ∷ []
unfolding run_writecook
writes_poll = refl

reads_poll :
    outcome (
      run_readcook (record blank {
        rx =
            arrived (0xff ∷ 0xff ∷ 0x53 ∷ [])
            ∷ arrived (1 ∷ 8 ∷ 0 ∷ 4 ∷ 0x60 ∷ 186 ∷ 0 ∷ 9 ∷ [])
            ∷ [];
      }))
    ≡ 6 ∷ 9 ∷ []
unfolding run_readcook
reads_poll = refl
