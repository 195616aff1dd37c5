-- ===== src/Protocol/Output/Sends.antt =====
-- What `write` and `writecook` put on the line.
use osdpmaster.Prelude.{
  ℕ, ◌+◌, ◌%◌, ◌≤◌, ◌≡◌, refl, sym, ap, ap₂, ◌∙◌, true, ◌++◌, ◌&&◌, ◌==◌, arith, leb, Bool-cases,
  take, length, Bytes, append-nil, inl, inr,
}
use osdpmaster.Run.{Run, ok}
use osdpmaster.Protocol.{Protocol, slave_buff_size, splice, delaywait, readstamp, clock_gettime}
use osdpmaster.Protocol.Output.{write, write_out, transmit, wrapped, writecook, send_again, resend}
use osdpmaster.Protocol.Input.Reads.{take-splice}
use osdpmaster.Protocol.Output.Events.{
  HasOutBuffer, write_events-Sent, Takes, sub_zero, write_events-Returns,
}

-- A send that returns, and what it has done.
pub record Done (bs held buf : Bytes) (len size : ℕ) (r : Run Protocol ℕ) : Type 0 where
  pub after : Protocol
  pub returns : r ≡ ok size after
  pub line : after.sent ≡ held ++ bs
  pub buffer : after.out_buffer ≡ buf
  pub kept_len : after.out_len ≡ len

write-Done :
    (buffer : Bytes) (size : ℕ) (p : Protocol)
    → size ≤ slave_buff_size
    → Takes p.tx size
    → Done (take size p.out_buffer) p.sent p.out_buffer p.out_len size (write buffer size p)
unfolding write
write-Done buffer size p room takes =
    let (n, q, e) =
      write_events-Returns p.tx 0 size p (omega arith) room (rw (sub_zero size) takes) in
    let h = rw e at (write_events-Sent p.tx 0 size p (omega arith) room) in
    record {
      after = q;
      returns = e ∙ ap (λ m. ok m q) h.whole;
      line = h.line ∙ ap (λ k. p.sent ++ take k p.out_buffer) (sub_zero size);
      buffer = h.buffer;
      kept_len = h.kept_len;
    }

-- `delaywait` sleeps until `m_next_write`, which it sets first where no read has set it, and changes
-- nothing of the line and the buffers.
pub record Waited (p : Protocol) (r : Run Protocol (Unit {0})) : Type 0 where
  pub after : Protocol
  pub returns : r ≡ ok tt after
  pub line : after.sent ≡ p.sent
  pub script : after.tx ≡ p.tx
  pub buffer : after.out_buffer ≡ p.out_buffer
  pub len : after.out_len ≡ p.out_len

pub delaywait-Waited : (p : Protocol) → Waited p (delaywait p)
unfolding delaywait readstamp clock_gettime
delaywait-Waited p = elim (Bool-cases (p.next_write.tv_sec == 0 && p.next_write.tv_nsec == 0)) [
  | inl unset ↦
      rw unset (record {
        after = _;
        returns = refl;
        line = refl;
        script = refl;
        buffer = refl;
        len = refl;
      })
  | inr is_set ↦
      rw is_set (record {
        after = _;
        returns = refl;
        line = refl;
        script = refl;
        buffer = refl;
        len = refl;
      })
]

-- What is sent after the wait, from the state before it.
after_wait :
    (p : Protocol) (n len : ℕ) {r : Run Protocol (Unit {0})} {out : Run Protocol ℕ} (w : Waited p r)
    → Done (take n w.after.out_buffer) w.after.sent w.after.out_buffer len n out
    → Done (take n p.out_buffer) p.sent p.out_buffer len n out
after_wait p n len w d = record {
  after = d.after;
  returns = d.returns;
  line = d.line ∙ ap₂ (λ s b. s ++ take n b) w.line w.buffer;
  buffer = d.buffer ∙ w.buffer;
  kept_len = d.kept_len;
}

transmit-Done :
    (n : ℕ) (p : Protocol)
    → n ≤ slave_buff_size
    → Takes p.tx n
    → Done (take n p.out_buffer) p.sent p.out_buffer n n (transmit n p)
unfolding transmit
transmit-Done n p room takes =
    let w = delaywait-Waited p in
    let e : n % 65536 ≡ n = omega arith in
    let d =
      write-Done w.after.out_buffer n (record w.after { out_len = n }) room (rw w.script takes) in
    rw (w.returns, e) (after_wait p n n w d)

-- `writecook`, with a message that fits the transmit buffer and a line that takes it: exactly the
-- sync bytes, the message and the sync bytes behind it are sent, behind what was sent before, and are
-- kept at the start of the buffer with their length.
pub writecook_lem :
    (addr seq : ℕ) (payload : Bytes) (p : Protocol)
    → HasOutBuffer p
    → let out = wrapped p.config.lead p.config.trail addr seq payload in
      length out ≤ slave_buff_size
      → Takes p.tx (length out)
      → Done out p.sent
          (splice p.out_buffer 0 out)
          (length out)
          (length out)
          (writecook addr seq payload p)
unfolding writecook
writecook_lem addr seq payload p buf room takes =
    let out = wrapped p.config.lead p.config.trail addr seq payload in
    let test : leb (length out) slave_buff_size ≡ true = ground arith in
    let d =
      transmit-Done (length out) (record p { out_buffer = splice p.out_buffer 0 out }) room takes in
    let e : 0 + length out ≡ length out = omega arith in
    let front : take (length out) (splice p.out_buffer 0 out) ≡ out =
      ap (λ m. take m (splice p.out_buffer 0 out)) (sym e)
      ∙ take-splice p.out_buffer 0 out (omega (arith, buf)) in
    rw test (record {
      after = d.after;
      returns = d.returns;
      line = d.line ∙ ap (◌++◌ p.sent) front;
      buffer = d.buffer;
      kept_len = d.kept_len;
    })

-- `resend`, on a line that takes it and with a recorded length within the buffer: it sends that many
-- bytes from the start of the transmit buffer again, and keeps buffer and length.
pub resend_lem :
    (p : Protocol)
    → p.out_len ≤ slave_buff_size
    → Takes p.tx p.out_len
    → Done (take p.out_len p.out_buffer) p.sent p.out_buffer p.out_len p.out_len (resend p)
unfolding resend send_again write_out
resend_lem p room takes = elim (Bool-cases (leb p.out_len 0)) [
  | inl nothing ↦
      let e : p.out_len ≡ 0 = ground arith in
      rw nothing (record {
        after = p;
        returns = ap (λ n. ok n p) (sym e);
        line = rw e (sym (append-nil p.sent));
        buffer = refl;
        kept_len = refl;
      })
  | inr some_sent ↦
      let w = delaywait-Waited p in
      let e : p.out_len % 65536 ≡ p.out_len = omega arith in
      let d =
        write-Done w.after.out_buffer p.out_len (record w.after { out_len = p.out_len }) room
          (rw w.script takes) in
      rw (some_sent, w.returns, w.len, e) (after_wait p p.out_len p.out_len w d)
]
