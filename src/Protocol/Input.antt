-- ===== src/Protocol/Input.antt =====
-- osdpprotocol.cpp, the receiving side: `read_some`, `readsoh`, `flyby`, `readeof`, `readcook` and
-- `waitidle`, each loop of them a function of its own. A loop that calls `read_some` takes fuel;
-- `work` counts the reads that the port's script can answer, and is enough.
pub mod Bounds
pub mod Safe
pub mod Reads
pub mod Loops
pub mod Soh
pub mod Frames
pub mod Timeout
pub mod Keeps
pub mod Idle
pub mod Fed
pub mod Silence
pub mod Flyby
use osdpmaster.Prelude.{
  ℕ, zero, suc, ◌+◌, ◌*◌, ◌/◌, ◌%◌, ◌-◌, Bool, true, false, ◌&&◌, not, ◌==◌, List, [], ◌∷◌, ◌++◌,
  Option, none, some, leb, ltb, if◌then◌else◌, take, drop, length, get_or, Bytes, bit_and, bit_or,
  ℤ, pos, negsuc, is_negative,
}
use osdpmaster.Run.{
  Run, Cmd, ok, throw, starved, fault, out_of_fuel, read_failed, pure, and_then, ◌>>=◌, ◌>>◌, get,
  modify,
}
use osdpmaster.Timespec.{Timespec, timespec, second, ts_sub, to_ms}
use osdpmaster.Crc.{crc16_prepare, crc16_add, crc16_digest}
use osdpmaster.Protocol.{
  Protocol, Reply, size, error, timeout, overflow, crc, flyby, RxEvent, arrived, interrupted,
  no_data, failed, polled, slave_buff_size, ch_soh, header_size, splice, clock_gettime, readstamp,
}

-- A read of `count` bytes at `offset` that finds `bs` takes what it wants and leaves the rest.
unfoldable pub deliver : ℕ → ℕ → Bytes → Protocol → Run Protocol Reply
deliver offset count bs p =
    let got = take count bs in
    if leb (offset + length got) slave_buff_size
    then ok (size (offset + length got))
        (record p { in_buffer = splice p.in_buffer offset got; pending = drop count bs })
    else fault

-- The milliseconds to poll for, from those to the deadline.
abbrev pub poll_timer : ℤ → ℕ
poll_timer (pos zero) = 1
poll_timer (pos (suc n)) = if ltb 1000 (suc n) then 1000 else suc n
poll_timer (negsuc n) = 0

-- The loop of `read_some` once nothing is left over: an interrupt reads again, no data waits until
-- the deadline has passed.
unfoldable pub read_events : List RxEvent → ℕ → ℕ → Protocol → Run Protocol Reply
read_events [] offset count p = starved
read_events (arrived bs ∷ es) offset count p = deliver offset count bs (record p { rx = es })
read_events (interrupted ∷ es) offset count p = read_events es offset count p
read_events (no_data ∷ es) offset count p =
    let itime = to_ms (ts_sub p.deadline (p.clock p.tick)) in
    let waited = record p {
      tick = p.tick + 1;
      waits = p.waits ++ polled (poll_timer itime) ∷ [];
    } in
    let again = read_events es offset count waited in
    if is_negative itime
    then ok (error timeout) (record p { rx = es; tick = p.tick + 1 })
    else again
read_events (failed ∷ es) offset count p = throw read_failed (record p { rx = es })

unfoldable pub read_pending : Bytes → ℕ → ℕ → Protocol → Run Protocol Reply
read_pending [] offset count p = read_events p.rx offset count p
read_pending (b ∷ bs) offset count p = deliver offset count (b ∷ bs) p

unfoldable pub read_some : ℕ → ℕ → Cmd Protocol Reply
read_some offset count p = read_pending p.pending offset count p

-- The reads that the script can answer, at one byte each.
unfoldable pub work_events : List RxEvent → ℕ
work_events [] = 0
work_events (arrived bs ∷ es) = suc (length bs + work_events es)
work_events (e ∷ es) = suc (work_events es)

unfoldable pub work : Protocol → ℕ
unfolding work_events
work p = length p.pending + work_events p.rx

-- A loop's body goes on with a size, and ends with an error.
abbrev pub on_size : Reply → (ℕ → Cmd Protocol Reply) → Cmd Protocol Reply
on_size (size n) k = k n
on_size (error e) k = pure (error e)

-- `while(offset < limit) offset = read_some(offset, limit - offset)`: the rest of a header, or of a
-- CRC, is filled in.
unfoldable pub fill : ℕ → ℕ → ℕ → Cmd Protocol Reply
fill zero limit offset p = if ltb offset limit then out_of_fuel else ok (size offset) p
fill (suc fuel) limit offset p =
    let more = and_then (read_some offset (limit - offset) p) (λ r. on_size r (fill fuel limit)) in
    if ltb offset limit then more else ok (size offset) p

-- `memchr(m_in_buffer, chSOH, offset)`, as an index.
unfoldable pub find_soh : Bytes → Option ℕ
find_soh [] = none
find_soh (b ∷ bs) =
    let rest = find_soh bs in
    if b == ch_soh then some 0 else elim rest [ none ↦ none | some i ↦ some (i + 1) ]

-- The bytes from SOH on are moved to the start of the buffer.
abbrev pub shift_down : ℕ → ℕ → Protocol → Protocol
shift_down shift offset p = record p {
  in_buffer = splice p.in_buffer 0 (take (offset - shift) (drop shift p.in_buffer));
}

-- One round of `readsoh`, with `again` for the next: the header is read over zeroes.
unfoldable pub readsoh_found : Option ℕ → ℕ → Cmd Protocol Reply → Cmd Protocol Reply
readsoh_found none offset again p = again p
readsoh_found (some shift) offset again p =
    fill (work p + 1) header_size (offset - shift) (shift_down shift offset p)

unfoldable pub readsoh_loop : ℕ → Cmd Protocol Reply
readsoh_loop zero p = out_of_fuel
readsoh_loop (suc fuel) p =
    and_then
      (read_some 0 header_size
        (record p { in_buffer = splice p.in_buffer 0 (0 ∷ 0 ∷ 0 ∷ 0 ∷ 0 ∷ []) }))
      (λ r. on_size r (λ offset q.
        readsoh_found (find_soh (take offset q.in_buffer)) offset (readsoh_loop fuel) q))

unfoldable pub readsoh : Cmd Protocol Reply
readsoh p = readsoh_loop (work p + 1) p

-- The fields of the header in the buffer.
abbrev pub in_addr : Protocol → ℕ
in_addr p = get_or p.in_buffer 1 0

abbrev pub in_len : Protocol → ℕ
in_len p = bit_or (get_or p.in_buffer 2 0) (get_or p.in_buffer 3 0 * 256)

abbrev pub in_ctrl : Protocol → ℕ
in_ctrl p = get_or p.in_buffer 4 0

-- Bit 2 of the control byte says that a CRC, and not a checksum, ends the message.
abbrev pub has_crc : ℕ → Bool
has_crc ctrl = not (bit_and ctrl 0x04 == 0)

-- A sum of bytes in a uint8_t.
unfoldable pub checksum : ℕ → Bytes → ℕ
checksum acc [] = acc
checksum acc (b ∷ bs) = checksum ((acc + b) % 256) bs

-- What `flyby` keeps of the bytes that it lets pass: a CRC or a checksum.
abbrev pub running : Bool → ℕ → Bytes → ℕ
running true acc bs = crc16_add acc bs
running false acc bs = checksum acc bs

abbrev pub running_start : Bool → ℕ
running_start true = crc16_prepare
running_start false = 0

abbrev pub trailer_size : Bool → ℕ
trailer_size true = 2
trailer_size false = 1

-- The two bytes of a CRC at an index of the buffer, low byte first.
abbrev pub crc_at : Bytes → ℕ → ℕ
crc_at buf i = bit_or (get_or buf i 0) (get_or buf (i + 1) 0 * 256)

-- The trailer of a passing message is read and compared.
unfoldable pub flyby_end : Bool → ℕ → Cmd Protocol Reply
flyby_end true acc p = and_then (fill (work p + 1) 2 0 p) (λ r. on_size r (λ n q.
    if crc16_digest acc == crc_at q.in_buffer 0 then ok (error flyby) q else ok (error crc) q))
flyby_end false acc p = and_then (read_some 0 1 p) (λ r.
    on_size r
      (λ n q. if get_or q.in_buffer 0 0 == acc then ok (error flyby) q else ok (error crc) q))

-- `while(size < total)` of `flyby`; a round reads no more than the buffer holds.
unfoldable pub flyby_loop : ℕ → Bool → ℕ → ℕ → ℕ → Cmd Protocol Reply
flyby_loop zero by_crc acc passed total p =
    if ltb passed total then out_of_fuel else flyby_end by_crc acc p
flyby_loop (suc fuel) by_crc acc passed total p =
    let count = if ltb slave_buff_size (total - passed) then slave_buff_size else total - passed in
    let round = and_then (read_some 0 count p) (λ r. on_size r (λ n q.
      flyby_loop fuel by_crc (running by_crc acc (take n q.in_buffer)) (passed + n) total q)) in
    if ltb passed total then round else flyby_end by_crc acc p

unfoldable pub fly_past : ℕ → Cmd Protocol Reply
fly_past offset p =
    let by_crc = has_crc (in_ctrl p) in
    let start = running by_crc (running_start by_crc) (take offset p.in_buffer) in
    flyby_loop (work p + 1) by_crc start offset (in_len p - trailer_size by_crc) p

-- The loop of `readeof` reads at least once.
unfoldable pub readeof_loop : ℕ → ℕ → ℕ → Cmd Protocol Reply
readeof_loop zero total offset p = out_of_fuel
readeof_loop (suc fuel) total offset p = and_then (read_some offset (total - offset) p) (λ r.
    on_size r (λ n q.
      let more = readeof_loop fuel total n q in if leb total n then ok (size n) q else more))

unfoldable pub readeof : ℕ → Cmd Protocol Reply
readeof offset p =
    let total = in_len p in
    if leb total 5
    then ok (error overflow) p
    else if ltb (slave_buff_size - offset) total
    then ok (error overflow) p
    else readeof_loop (work p + 1) total offset p

-- The integrity check of `readcook`, over a message of `n` bytes in the buffer: the size without
-- the trailer.
unfoldable pub verify : ℕ → Protocol → Reply
verify n p =
    if has_crc (in_ctrl p)
    then if crc_at p.in_buffer (n - 2)
        == crc16_digest (crc16_add crc16_prepare (take (n - 2) p.in_buffer))
      then size (n - 2)
      else error crc
    else if checksum 0 (take (n - 1) p.in_buffer) == get_or p.in_buffer (n - 1) 0
    then size (n - 1)
    else error crc

-- Whether the message is for another device: a master, at address 0xFF, sees all.
abbrev pub passes_by : Protocol → Bool
passes_by p =
    not (p.my_addr == 0xFF)
    && (not (in_addr p == p.my_addr) && (not (in_addr p == 0x7D) && not (in_addr p == 0x7F)))

-- What `readcook` does behind `readsoh`, up to its label `leave`.
unfoldable pub read_body : ℕ → Cmd Protocol Reply
read_body n p =
    if passes_by p
    then fly_past n p
    else and_then (readeof n p) (λ r. on_size r (λ m q. ok (verify m q) q))

-- The deadline of a read: `micros` microseconds from now; `per_second` is what the source divides
-- by to find whole seconds.
unfoldable pub deadline_after : ℕ → ℕ → Timespec → Timespec
deadline_after per_second micros now =
    let n = now.tv_nsec + micros % per_second * 1000 in
    let s = now.tv_sec + micros / per_second in
    if leb second n then timespec (s + 1) (n - second) else timespec s n

unfoldable pub readcook : Cmd Protocol Reply
readcook = do
  now ← clock_gettime
  modify (λ p. record p { deadline = deadline_after 1000000 p.config.timeout now })
  n ← readsoh
  r ← on_size n read_body
  readstamp
  pure r

-- `waitidle`: four bytes at a time are dropped until none come in time; each round sets the deadline
-- anew, with 100000 for the microseconds of a second.
unfoldable pub waitidle_loop : ℕ → Cmd Protocol Reply
waitidle_loop zero p = out_of_fuel
waitidle_loop (suc fuel) p = and_then (clock_gettime p) (λ now q.
    and_then (read_some 0 4 (record q { deadline = deadline_after 100000 q.config.idle now }))
      (λ r s. elim r [ size n ↦ waitidle_loop fuel s | error e ↦ ok (error e) s ]))

unfoldable pub waitidle : Cmd Protocol Reply
waitidle p = waitidle_loop (work p + 1) p
