-- ===== src/Protocol/Output/Events.antt =====
-- The loop of `write`: the bytes go out in order, and it comes to its end where the line takes them.
use osdpmaster.Prelude.{
  ℕ, zero, suc, ◌+◌, ◌-◌, ◌≤◌, ◌≡◌, refl, sym, ap, ◌∙◌, true, List, [], ◌∷◌, ◌++◌, arith, leb,
  Bool-cases, take, drop, length, Bytes, append_assoc, append-nil, drop-drop, take-step, inl, inr,
  min,
}
use osdpmaster.Run.{Run, ok, Safe, Safe-mono}
use osdpmaster.Protocol.{
  Protocol, TxEvent, accepted, interrupted, would_block, failed, slave_buff_size,
}
use osdpmaster.Protocol.Output.{write_events, send, wait_writable}

-- The transmit buffer keeps its size.
abbrev pub HasOutBuffer : Protocol → Type 0
HasOutBuffer p = length p.out_buffer ≡ slave_buff_size

-- A send of `size` bytes is done: the line holds what it held and `bs` behind it, the buffer and the
-- recorded length are as they were.
pub record Sent (bs held buf : Bytes) (len size n : ℕ) (q : Protocol) : Type 0 where
  pub whole : n ≡ size
  pub line : q.sent ≡ held ++ bs
  pub buffer : q.out_buffer ≡ buf
  pub kept_len : q.out_len ≡ len

-- Nothing is left to send.
all_sent :
    (p : Protocol) (offset size : ℕ)
    → size ≤ offset
    → {es : List TxEvent}
    → Sent
        (take (size - offset) (drop offset p.out_buffer))
        p.sent
        p.out_buffer
        p.out_len
        size
        size
        (record p { tx = es })
all_sent p offset size h = record {
  whole = refl;
  line = let e : size - offset ≡ 0 = omega arith in rw e (sym (append-nil p.sent));
  buffer = refl;
  kept_len = refl;
}

-- A piece of `i` bytes, and the rest behind it.
piece :
    (p : Protocol) (i offset size : ℕ)
    → offset + i ≤ size
    → (p.sent ++ take i (drop offset p.out_buffer))
        ++ take (size - (offset + i)) (drop (offset + i) p.out_buffer)
      ≡ p.sent ++ take (size - offset) (drop offset p.out_buffer)
piece p i offset size h =
    append_assoc p.sent _ _
    ∙ ap (◌++◌ p.sent) (
        ap (λ t. take i (drop offset p.out_buffer) ++ take (size - (offset + i)) t)
          (sym (drop-drop offset i (offset + i) p.out_buffer refl))
        ∙ take-step i (size - (offset + i)) (size - offset) (drop offset p.out_buffer)
            (omega arith))

-- From `offset` on, whatever pieces the kernel takes, the bytes up to `size` go out in order.
pub write_events-Sent :
    (es : List TxEvent) (offset size : ℕ) (p : Protocol)
    → offset ≤ size
    → size ≤ slave_buff_size
    → Safe
        (Sent (take (size - offset) (drop offset p.out_buffer)) p.sent p.out_buffer p.out_len size)
        (write_events es offset size p)
unfolding write_events
write_events-Sent [] offset size p le room = elim (Bool-cases (leb size offset)) [
  | inl done ↦ rw done (all_sent p offset size (ground arith))
  | inr more ↦ rw more tt
]
write_events-Sent (accepted zero ∷ es) offset size p le room = elim (Bool-cases (leb size offset)) [
  | inl done ↦ rw done (all_sent p offset size (ground arith))
  | inr more ↦ rw more (write_events-Sent es offset size (wait_writable p) le room)
]
write_events-Sent (accepted (suc n) ∷ es) offset size p le room =
    let i = min (suc n) (size - offset) in
    elim (Bool-cases (leb size offset)) [
      | inl done ↦ rw done (all_sent p offset size (ground arith))
      | inr more ↦
          let inside : leb (offset + i) slave_buff_size ≡ true = ground arith in
          rw (more, inside)
            (Safe-mono _
              (Sent (take (size - offset) (drop offset p.out_buffer)) p.sent p.out_buffer p.out_len
                size)
              (write_events es (offset + i) size (send i offset p))
              (write_events-Sent es (offset + i) size (send i offset p) (omega arith) room)
              (λ m q h. record {
                whole = h.whole;
                line = h.line ∙ piece p i offset size (omega arith);
                buffer = h.buffer;
                kept_len = h.kept_len;
              }))
    ]
write_events-Sent (interrupted ∷ es) offset size p le room = elim (Bool-cases (leb size offset)) [
  | inl done ↦ rw done (all_sent p offset size (ground arith))
  | inr more ↦ rw more (write_events-Sent es offset size p le room)
]
write_events-Sent (would_block ∷ es) offset size p le room = elim (Bool-cases (leb size offset)) [
  | inl done ↦ rw done (all_sent p offset size (ground arith))
  | inr more ↦ rw more (write_events-Sent es offset size (wait_writable p) le room)
]
write_events-Sent (failed ∷ es) offset size p le room = elim (Bool-cases (leb size offset)) [
  | inl done ↦ rw done (all_sent p offset size (ground arith))
  | inr more ↦ rw more tt
]

-- The script takes `k` bytes before it fails or ends.
abbrev pub Takes : List TxEvent → ℕ → Type 0
Takes [] k = k ≡ 0
Takes (accepted n ∷ es) k = Takes es (k - n)
Takes (interrupted ∷ es) k = Takes es k
Takes (would_block ∷ es) k = Takes es k
Takes (failed ∷ es) k = k ≡ 0

pub sub_zero : (n : ℕ) → n - 0 ≡ n
sub_zero n = omega arith

abbrev pub Returns : Run Protocol ℕ → Type 0
Returns r = (n : ℕ) × (q : Protocol) × (r ≡ ok n q)

pub write_events-Returns :
    (es : List TxEvent) (offset size : ℕ) (p : Protocol)
    → offset ≤ size
    → size ≤ slave_buff_size
    → Takes es (size - offset)
    → Returns (write_events es offset size p)
unfolding write_events
write_events-Returns [] offset size p le room takes = elim (Bool-cases (leb size offset)) [
  | inl done ↦ rw done (_, _, refl)
  | inr more ↦ absurd (ground arith)
]
write_events-Returns (accepted zero ∷ es) offset size p le room takes =
    elim (Bool-cases (leb size offset)) [
      | inl done ↦ rw done (_, _, refl)
      | inr more ↦ rw more (
          write_events-Returns es offset size (wait_writable p) le room
            (rw (sub_zero (size - offset)) at takes))
    ]
write_events-Returns (accepted (suc n) ∷ es) offset size p le room takes =
    elim (Bool-cases (leb size offset)) [
      | inl done ↦ rw done (_, _, refl)
      | inr more ↦
          let i = min (suc n) (size - offset) in
          let inside : leb (offset + i) slave_buff_size ≡ true = ground arith in
          let left : size - (offset + i) ≡ size - offset - suc n = omega arith in
          rw (more, inside)
            (write_events-Returns es (offset + i) size (send i offset p) (omega arith) room
              (rw left takes))
    ]
write_events-Returns (interrupted ∷ es) offset size p le room takes =
    elim (Bool-cases (leb size offset)) [
      | inl done ↦ rw done (_, _, refl)
      | inr more ↦ rw more (write_events-Returns es offset size p le room takes)
    ]
write_events-Returns (would_block ∷ es) offset size p le room takes =
    elim (Bool-cases (leb size offset)) [
      | inl done ↦ rw done (_, _, refl)
      | inr more ↦ rw more (write_events-Returns es offset size (wait_writable p) le room takes)
    ]
write_events-Returns (failed ∷ es) offset size p le room takes =
    elim (Bool-cases (leb size offset)) [
      | inl done ↦ rw done (_, _, refl)
      | inr more ↦ absurd (ground arith)
    ]
