-- ===== src/Tests/Numbers.antt =====
-- The theorems on the check and on times, at concrete values.
use osdpmaster.Prelude.{◌≡◌, ◌≢◌, ◌≤◌, ◌↔◌, ◌+◌, ◌*◌, ◌%◌, [], ◌∷◌, arith}
use osdpmaster.Crc.{crc16_prepare, crc16_add}
use osdpmaster.Crc.Reference.{reference, crc16_add-eq-reference}
use osdpmaster.Crc.Detect.{crc16_add_detects}
use osdpmaster.Timespec.{Timespec, timespec, second, add_ms}
use osdpmaster.Timespec.Order.{nanos, add_ms-nanos}

crc16_add-eq-reference_example :
    crc16_add crc16_prepare (0x53 ∷ 1 ∷ 0xFF ∷ []) ≡ reference crc16_prepare (0x53 ∷ 1 ∷ 0xFF ∷ [])
crc16_add-eq-reference_example =
    crc16_add-eq-reference crc16_prepare (0x53 ∷ 1 ∷ 0xFF ∷ []) (omega arith)
      (omega arith, (omega arith, (omega arith, tt)))

-- 999 ms behind 7.001 s is exactly 8 s, and is left as 7 s and a whole second of nanoseconds.
add_ms-nanos_example :
    let t : Timespec = timespec 7 1000000 in
    (nanos (add_ms t 999) ≡ nanos t + 999 * 1000000)
    × ((add_ms t 999).tv_nsec ≤ second)
    × (((add_ms t 999).tv_nsec ≡ second) ↔ (1000000 + 999 % 1000 * 1000000 ≡ second))
add_ms-nanos_example = add_ms-nanos (timespec 7 1000000) 999 (omega arith)

crc16_add_detects_example :
    crc16_add crc16_prepare (0x53 ∷ 1 ∷ 2 ∷ 9 ∷ [])
    ≢ crc16_add crc16_prepare (0x53 ∷ 2 ∷ 2 ∷ 9 ∷ [])
crc16_add_detects_example =
    crc16_add_detects crc16_prepare (0x53 ∷ []) (9 ∷ []) 1 2 2 2 (omega arith)
      (omega arith, (omega arith, (omega arith, (omega arith, (omega arith, tt)))))
      (λ same. absurd (omega (arith, same.0)))
