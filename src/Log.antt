-- ===== src/Log.antt =====
-- `logprotocol::datalog` of osdpmaster.cpp: the bytes of a message as lines of hexadecimal numbers.
pub mod Dump
use osdpmaster.Prelude.{ℕ, zero, suc, List, [], ◌∷◌, ◌++◌, Bytes, codes, take, drop, length, map}
use osdpmaster.Blob.Hex.{Out, put_data}

-- A line of up to 16 bytes, with the stream that it is written to.
unfoldable pub dump_line : Bytes → Bytes
dump_line bytes = (put_data (b' ' ∷ []) [] bytes (record { text = []; width = 0 })).text

-- `while(len > 0)`, with the bytes from `buffer` on.
unfoldable pub dump : ℕ → Bytes → List Bytes
dump fuel [] = []
dump zero (b ∷ bs) = []
dump (suc fuel) (b ∷ bs) = dump_line (take 16 (b ∷ bs)) ∷ dump fuel (drop 16 (b ∷ bs))

-- The lines that are logged.
unfoldable pub datalog : Bytes → Bytes → List Bytes
datalog prefix buffer = map (λ line. prefix ++ (codes ": " ++ line)) (dump (length buffer) buffer)

-- `xlog` and `rlog`: what is sent, and what is received.
unfoldable pub xlog : Bytes → List Bytes
xlog buffer = datalog (codes "TX") buffer

unfoldable pub rlog : Bytes → List Bytes
rlog buffer = datalog (codes "RX") buffer
