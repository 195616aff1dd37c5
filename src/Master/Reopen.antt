-- ===== src/Master/Reopen.antt =====
-- The port is opened as soon as the operating system lets it, and the state of the slaves survives.
use osdpmaster.Prelude.{
  ℕ, zero, suc, ◌-◌, ◌≤◌, ◌<◌, ◌≡◌, refl, sym, ap, ◌∙◌, true, false, ◌==◌, List, [], ◌∷◌, ◌++◌,
  append_assoc, All, Option, none, some, Bytes, arith, inl, inr, ◌⊎◌, Option-cases, Bool-cases, ltb,
}
use osdpmaster.Run.{Failure, ok, throw, out_of_fuel, Ends-cases}
use osdpmaster.Timespec.{timespec}
use osdpmaster.Protocol.{SerialConfig}
use osdpmaster.Bus.{Bus, slave_poll}
use osdpmaster.Port.{Device, Termios, prepare, close, close_fd, without}
use osdpmaster.Port.Format.{supported}
use osdpmaster.Port.Calls.{SameFormat, IsRefused}
use osdpmaster.Port.Prepare.{IsPrepared, prepare-Ends}
use osdpmaster.Master.{
  Master, exchange, switch_ports, sleep, clear_next_write, prepcom, reopen, poll_round,
}

-- A bus without the two names of the port and the time of the next transmission.
abbrev pub unnamed : Bus → Bus
unnamed b = record b {
  proto = record b.proto {
    next_write = timespec 0 0;
    config = record b.proto.config { port = [] };
  };
  port2 = none;
}

-- The names of the port, which are those of before or the other way round.
abbrev pub SameNames : Bus → Bus → Type 0
SameNames b c =
    ((c.proto.config.port ≡ b.proto.config.port) × (c.port2 ≡ b.port2))
    ⊎ ((other : Bytes) × (b.port2 ≡ some other)
        × (c.proto.config.port ≡ other)
        × (c.port2 ≡ some b.proto.config.port))

-- The port is open, all other descriptors that are open are those of before and new ones, and all else
-- is as it was.
pub record IsReopened (m n : Master) : Type 0 where
  pub opened : (f : ℕ) × (fs : List ℕ) × (n.device.fd ≡ some f) × (n.device.open_fds ≡ f ∷ fs)
  pub fresh :
      (fs : List ℕ) × (n.device.open_fds ≡ fs ++ m.device.open_fds)
      × All (λ f. m.device.next_fd ≤ f) fs
  pub port : n.device.port ≡ n.bus.proto.config.port
  pub due : n.bus.proto.next_write ≡ timespec 0 0
  pub names : SameNames m.bus n.bus
  pub kept : unnamed n.bus ≡ unnamed m.bus

SameNames-exchange : (b c : Bus) → SameNames (switch_ports b) c → SameNames b c
unfolding switch_ports
SameNames-exchange b c h = elim (Option-cases b.port2) [
  | inl none_set ↦ rw none_set (rw none_set at h)
  | inr (other, set) ↦
      let swapped : SameNames (exchange (some other) b) c = rw set at h in
      elim swapped [
        | inl (name, alternate) ↦ inr (other, set, name, alternate)
        | inr (first, same, name, alternate) ↦
            let e : b.proto.config.port ≡ first = cc in inl (name ∙ sym e, alternate ∙ sym set)
      ]
]

unnamed-switch_ports : (b : Bus) → unnamed (switch_ports b) ≡ unnamed b
unfolding switch_ports
unnamed-switch_ports b = elim (Option-cases b.port2) [
  | inl none_set ↦ rw none_set
  | inr (other, set) ↦ rw set
]

-- What a configuration must be to be set up does not depend on the name of the port.
abbrev pub IsUsable : SerialConfig → Type 0
IsUsable c = (supported c ≡ true) × ((c.baud == 0) ≡ false)

IsUsable-switch_ports : (b : Bus) → IsUsable b.proto.config → IsUsable (switch_ports b).proto.config
unfolding switch_ports
IsUsable-switch_ports b h = elim (Option-cases b.port2) [
  | inl none_set ↦ rw none_set h
  | inr (other, set) ↦ rw set h
]

format-switch_ports :
    (b : Bus)
    → supported b.proto.config ≡ false
    → (b.proto.config.baud == 0) ≡ false
    → (supported (switch_ports b).proto.config ≡ false)
      × (((switch_ports b).proto.config.baud == 0) ≡ false)
unfolding switch_ports
format-switch_ports b bad rate = elim (Option-cases b.port2) [
  | inl none_set ↦ rw none_set (bad, rate)
  | inr (other, set) ↦ rw set (bad, rate)
]

-- The device when its descriptor has been closed.
abbrev pub left_open : Option ℕ → List ℕ → List ℕ
left_open none fs = fs
left_open (some f) fs = without f fs

abbrev pub closed : Device → Device
closed d = record d { fd = none; open_fds = left_open d.fd d.open_fds }

pub close_lem : (d : Device) → close d ≡ ok tt (closed d)
unfolding close close_fd
close_lem d = elim (Option-cases d.fd) [ inl none_set ↦ rw none_set | inr (f, set) ↦ rw set ]

All-le : (k l : ℕ) (fs : List ℕ) → k ≤ l → All (λ f. l ≤ f) fs → All (λ f. k ≤ f) fs
All-le k l [] le h = tt
All-le k l (f ∷ fs) le h = (omega (arith, le, h.0), All-le k l fs le h.1)

All-add : (k f : ℕ) (fs : List ℕ) → k ≤ f → All (λ g. k ≤ g) fs → All (λ g. k ≤ g) (fs ++ f ∷ [])
All-add k f [] le h = (le, tt)
All-add k f (g ∷ gs) le h = (h.0, All-add k f gs le h.1)

-- The descriptors behind an attempt that was refused are new.
fresh_behind :
    {c : SerialConfig} (d e : Device) (opens : List ℕ) (f : Failure)
    → IsRefused c d f e
    → (fs : List ℕ) × (opens ≡ fs ++ e.open_fds) × All (λ g. e.next_fd ≤ g) fs
    → (fs : List ℕ) × (opens ≡ fs ++ d.open_fds) × All (λ g. d.next_fd ≤ g) fs
fresh_behind d e opens f p (fs, same, new) = elim p.left [
  | inl (why, gone, as_before) ↦
      (fs, same ∙ ap (◌++◌ fs) as_before, All-le d.next_fd e.next_fd fs p.next new)
  | inr (why, left, one_more) ↦ (
    fs ++ d.next_fd ∷ [],
    same ∙ ap (◌++◌ fs) one_more ∙ sym (append_assoc fs (d.next_fd ∷ []) d.open_fds),
    All-add d.next_fd d.next_fd fs (omega arith) (All-le d.next_fd e.next_fd fs p.next new),
  )
]

module _ (cfmakeraw : Termios → Termios) (b_rate : ℕ → ℕ)
    (cfsetispeed cfsetospeed : ℕ → Termios → Termios)
    (keeps_in : (n : ℕ) (t : Termios) → SameFormat t (cfsetispeed n t))
    (keeps_out : (n : ℕ) (t : Termios) → SameFormat t (cfsetospeed n t)) where
  -- A port that can be set up, where every system call from the number `t` on succeeds, is opened after
  -- fewer failures than there are calls left before `t`, and one round more.
  pub reopen-IsReopened :
      (fuel t : ℕ) (m : Master)
      → IsUsable m.bus.proto.config
      → ((n : ℕ) → t ≤ n → m.device.answers n ≡ true)
      → t - m.device.tick < fuel
      → (n : Master) × (reopen cfmakeraw b_rate cfsetispeed cfsetospeed fuel m ≡ ok tt n)
        × IsReopened m n
  unfolding reopen prepcom
  reopen-IsReopened zero t m usable later enough = absurd (omega arith)
  reopen-IsReopened (suc fuel) t m usable later enough =
      let c : SerialConfig = m.bus.proto.config in
      elim (Ends-cases (λ u d. IsPrepared cfmakeraw b_rate cfsetispeed cfsetospeed c m.device d)
        (IsRefused c m.device) (prepare cfmakeraw b_rate cfsetispeed cfsetospeed c m.device)
        (prepare-Ends cfmakeraw b_rate cfsetispeed cfsetospeed keeps_in keeps_out c m.device
          usable.1)) [
            | inl (u, d, returns, p) ↦ (
              record { bus = clear_next_write m.bus; device = d },
              rw returns,
              record {
                opened = (m.device.next_fd, m.device.open_fds, p.opened.fd, p.opened.open_fds);
                fresh = (m.device.next_fd ∷ [], p.opened.open_fds, (omega arith, tt));
                port = p.opened.port;
                due = refl;
                names = inl (refl, refl);
                kept = refl;
              },
            )
            | inr (f, d, throws, p) ↦
                let before : m.device.tick < t = elim (Bool-cases (ltb m.device.tick t)) [
                  | inl early ↦ ground arith
                  | inr late ↦ absurd (p.reason (λ k le. later k (ground arith)) usable.0)
                ] in
                let next : Master = record { bus = switch_ports m.bus; device = sleep 5 d } in
                let (n, returns, q) =
                  reopen-IsReopened fuel t next (IsUsable-switch_ports m.bus usable)
                    (λ k le. ap (λ g. g k) p.answers ∙ later k le) (omega (arith, p.tick)) in
                (
                  n,
                  rw throws returns,
                  record {
                    opened = q.opened;
                    fresh = fresh_behind m.device d n.device.open_fds f p q.fresh;
                    port = q.port;
                    due = q.due;
                    names = SameNames-exchange m.bus n.bus q.names;
                    kept = q.kept ∙ unnamed-switch_ports m.bus;
                  },
                )
          ]

  -- With a format that is not supported the loop goes on for ever: no number of rounds is enough.
  pub reopen_unsupported :
      (fuel : ℕ) (m : Master)
      → supported m.bus.proto.config ≡ false
      → (m.bus.proto.config.baud == 0) ≡ false
      → reopen cfmakeraw b_rate cfsetispeed cfsetospeed fuel m ≡ out_of_fuel
  unfolding reopen prepcom
  reopen_unsupported zero m bad rate = refl
  reopen_unsupported (suc fuel) m bad rate =
      let c : SerialConfig = m.bus.proto.config in
      elim (Ends-cases (λ u d. IsPrepared cfmakeraw b_rate cfsetispeed cfsetospeed c m.device d)
        (IsRefused c m.device) (prepare cfmakeraw b_rate cfsetispeed cfsetospeed c m.device)
        (prepare-Ends cfmakeraw b_rate cfsetispeed cfsetospeed keeps_in keeps_out c m.device
          rate)) [
            | inl (u, d, returns, p) ↦ absurd cc
            | inr (f, d, throws, p) ↦
                let next : Master = record { bus = switch_ports m.bus; device = sleep 5 d } in
                let (bad2, rate2) = format-switch_ports m.bus bad rate in
                rw throws (reopen_unsupported fuel next bad2 rate2)
          ]

  module _ (uuid_unparse : Bytes → Bytes) (align : ℕ) where
    -- Where a poll throws, the descriptor is closed and the port opened again: the round returns, with no
    -- descriptors open but those of before without that one and others that are new since then, and with
    -- the slaves, the queues and the counts as the poll has left them, if the configuration can be set up
    -- and every system call from the number `t` on succeeds.
    pub poll_round-recovers :
        (fuel t : ℕ) (m : Master) (e : Failure) (b : Bus)
        → slave_poll uuid_unparse align m.bus ≡ throw e b
        → IsUsable b.proto.config
        → ((n : ℕ) → t ≤ n → m.device.answers n ≡ true)
        → t - m.device.tick < fuel
        → (n : Master) × (poll_round cfmakeraw b_rate cfsetispeed cfsetospeed uuid_unparse align
              fuel m
            ≡ ok tt n)
          × IsReopened (record { bus = b; device = closed m.device }) n
    unfolding poll_round
    poll_round-recovers fuel t m e b thrown usable later enough =
        let (n, returns, r) =
          reopen-IsReopened fuel t (record { bus = b; device = closed m.device }) usable later
            enough in
        (n, rw (thrown, close_lem m.device) returns, r)
