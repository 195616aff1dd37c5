-- ===== src/Tests/Buffers.antt =====
-- Counted buffers and texts: tests, and the theorems at concrete states.
use osdpmaster.Prelude.{
  map, ℕ, ◌≡◌, ◌↔◌, refl, [], ◌∷◌, ◌++◌, if◌then◌else◌, ◌==◌, codes, none, some, Bytes, true, false,
  arith, replicate,
}
use osdpmaster.Run.{ok}
use osdpmaster.Topic.{split, split_loop, part_of, behind_part, join}
use osdpmaster.Topic.Join.{join-split}
use osdpmaster.Log.{datalog, dump, dump_line}
use osdpmaster.Log.Dump.{concat, read_line, behind, datalog-read}
use osdpmaster.Blob.{
  destroyed, at, Store, new_data, blob_bytes, makes, assigns, call, content_start,
}
use osdpmaster.Blob.Counting.{IsCounted, refs}
use osdpmaster.Blob.Values.{values, Performed}
use osdpmaster.Blob.Calls.{
  call-Performed, apply, no_objects, Reaches, start, step, Reaches-IsCounted,
}
use osdpmaster.Blob.Hex.{put_text, put_data, put_zeros, data_width, put_blob, get_pairs, get_hex}
use osdpmaster.Blob.Hex.RoundTrip.{pairs, put_blob_lem, get_hex-put_blob}

abbrev two_bytes : Bytes
two_bytes = 0x0F ∷ (0xA7 ∷ [])

-- One object with a block of two bytes.
abbrev made : Store
made = record {
  cell = λ b. if b == 0 then some (record { content = two_bytes; refcount = 1 }) else none;
  next = 1;
  blobs = at 0 ∷ [];
}

made_run : call (makes two_bytes) no_objects ≡ ok tt made
unfolding call blob_bytes new_data content_start
made_run = refl

made_reached : Reaches 1 made
made_reached = step start (makes two_bytes) (omega arith) made_run

-- The object copied, and the first one destroyed: the block has one reference again.
abbrev moved : Store
moved = record {
  cell = λ b. if b == 0 then some (record { content = two_bytes; refcount = 1 }) else none;
  next = 1;
  blobs = destroyed ∷ (at 0 ∷ []);
}

call-Performed_example :
    Performed (apply (assigns 0 0) made.blobs (values made)) made (call (assigns 0 0) made)
call-Performed_example =
    call-Performed (assigns 0 0) made (Reaches-IsCounted (omega arith) made_reached).0 (omega arith)
      (tt, tt)

Reaches-IsCounted_example :
    IsCounted made.blobs made.cell made.next
    × ((a : ℕ) → (made.cell a ≡ none) ↔ (refs a made.blobs ≡ 0))
Reaches-IsCounted_example = Reaches-IsCounted (omega arith) made_reached

put_blob_lem_example :
    put_blob [] two_bytes (record { text = []; width = 6 })
    ≡ record { text = replicate 6 (b'0') ++ (pairs two_bytes ++ replicate 2 (b'0')); width = 0 }
put_blob_lem_example =
    put_blob_lem 0x0F (0xA7 ∷ []) (record { text = []; width = 6 }) (omega arith, (omega arith, tt))

put_blob_run :
    put_blob [] two_bytes (record { text = []; width = 6 })
    ≡ record { text = codes "0000000FA700"; width = 0 }
unfolding put_blob put_data put_zeros put_text data_width
put_blob_run = refl

get_hex-put_blob_example :
    get_hex ((put_blob [] two_bytes (record { text = []; width = 0 })).text ++ b' ' ∷ [])
    ≡ (two_bytes, record { rest = b' ' ∷ []; good = true })
get_hex-put_blob_example =
    get_hex-put_blob two_bytes (b' ' ∷ []) (omega arith, (omega arith, tt)) refl

get_odd : get_hex (codes "0FA") ≡ (0x0F ∷ [], record { rest = []; good = false })
unfolding get_hex get_pairs
get_odd = refl

-- `a=b=c` cut once.
abbrev setting : Bytes
setting = codes "a=b=c"

split_run : split (b'=') 1 setting ≡ (codes "a") ∷ (codes "b=c" ∷ [])
unfolding split split_loop part_of behind_part
split_run = refl

join-split_example : join (b'=') (split (b'=') 1 setting) ≡ setting
join-split_example = join-split (b'=') 1 setting refl

datalog_run :
    datalog (codes "RX") (replicate 15 0 ++ two_bytes)
    ≡ codes "RX: 00 00 00 00 00 00 00 00 00 00 00 00 00 00 00 0F" ∷ (codes "RX: A7" ∷ [])
unfolding datalog dump dump_line put_data put_text
datalog_run = refl

datalog-read_example :
    concat (map (λ line. read_line (behind (codes "RX") line)) (datalog (codes "RX") two_bytes))
    ≡ two_bytes
datalog-read_example = datalog-read (codes "RX") two_bytes (omega arith, (omega arith, tt))
