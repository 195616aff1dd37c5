-- ===== src/Config/Whole.antt =====
-- The program from its configuration file on, as a sequence of turns: nothing undefined is done.
use osdpmaster.Prelude.{
  ℕ, ◌+◌, ◌≤◌, ◌<◌, ◌≡◌, ◌==◌, refl, ap, Bool, true, false, List, [], ◌∷◌, Option, none, some,
  Bytes, codes, map, length, All, arith, Bool-cases, inl, inr,
}
use osdpmaster.Run.{ok, Keeps, Keeps-ok}
use osdpmaster.Timespec.{Timespec}
use osdpmaster.Protocol.{construct, Protocol, SerialConfig, slave_buff_size}
use osdpmaster.Slave
use osdpmaster.Slave.{Slave, init, purge, mem_zero, no_uuid}
use osdpmaster.Slave.Zero.{mem_zero_iff}
use osdpmaster.Bus.{Bus, start_bus}
use osdpmaster.Bus.Setup.{zeroes-All}
use osdpmaster.Bus.Defined.{IsOrderly, IsSteady}
use osdpmaster.Config.{
  Parsed, to_count, parse_with, parse_line, parsed, names_slave, xparse_config, add_section,
  add_sections,
}
use osdpmaster.Config.Setup.{fresh, addresses, HasAddresses, add_section_lem, add_sections_lem}

length-map : {A B : Type 0} (f : A → B) (xs : List A) → length (map f xs) ≡ length xs
length-map f [] = refl
length-map f (x ∷ xs) = omega (arith, length-map f xs)

module _ (uuid_unparse : Bytes → Bytes) (align : ℕ) (strtoul : Bytes → ℕ) (unset : Timespec)
    (lead trail : ℕ) where
  -- A slave of the file is in order.
  fresh-IsOrderly :
      (addr : Bytes) → IsOrderly uuid_unparse align lead trail (fresh strtoul unset addr)
  unfolding init purge osdpmaster.Slave.construct
  fresh-IsOrderly addr =
      let zeroes : mem_zero align no_uuid ≡ true = (mem_zero_iff align no_uuid).1 zeroes-All in
      record {
        valid = record {
          retries = omega arith;
          tx = omega arith;
          rx = omega arith;
          address = omega arith;
          name = rw zeroes refl;
        };
        queue = tt;
      }

  All-fresh :
      (xs : List Bytes)
      → All (IsOrderly uuid_unparse align lead trail) (map (fresh strtoul unset) xs)
  All-fresh [] = tt
  All-fresh (a ∷ xs) = (fresh-IsOrderly a, All-fresh xs)

  -- The first slave is the current one.
  add_sections-place :
      (ss : List (Bytes × Option Bytes)) (b : Bus)
      → b.poll_slave ≡ 0
      → Keeps (λ c. c.poll_slave ≡ 0) (add_sections uuid_unparse align strtoul unset ss b)
  unfolding add_sections add_section
  add_sections-place [] b z = z
  add_sections-place ((name, none) ∷ ss) b z = elim (Bool-cases (names_slave name)) [
    | inl slave ↦ rw slave tt
    | inr other ↦ rw other (add_sections-place ss b z)
  ]
  add_sections-place ((name, some addr) ∷ ss) b z = elim (Bool-cases (names_slave name)) [
    | inl slave ↦
        rw (slave, add_section_lem uuid_unparse align strtoul unset addr b)
          (add_sections-place ss _ refl)
    | inr other ↦ rw other (add_sections-place ss b z)
  ]

-- The numbers of sync characters of the settings.
abbrev lead_of : Parsed → ℕ
lead_of (parsed config port2) = config.lead
lead_of other = 0

abbrev trail_of : Parsed → ℕ
trail_of (parsed config port2) = config.trail
trail_of other = 0

to_count-lt : (n : ℕ) → to_count n < 128
to_count-lt n = ground arith

module _ (get_optional : Bytes → Option Bytes) (get_flag : Bytes → Option Bool)
    (get_int : Bytes → ℕ → ℕ) (get_text : Bytes → Bytes → Bytes) (config : SerialConfig)
    (before after : Option Bytes) where
  with-room :
      (port : Option Bytes) (usb : Option Bool)
      → parse_with get_optional get_flag get_int get_text port usb before ≡ parsed config after
      → config.lead + 8 + config.trail ≤ slave_buff_size
  unfolding parse_with parse_line
  with-room none usb e = cc
  with-room (some port) none e = cc
  with-room (some port) (some usb) e =
      let front : to_count (get_int (codes "port.lead") 0) ≡ config.lead = ap lead_of e in
      let behind : to_count (get_int (codes "port.trail") 0) ≡ config.trail = ap trail_of e in
      let few = to_count-lt (get_int (codes "port.lead") 0) in
      let few' = to_count-lt (get_int (codes "port.trail") 0) in
      omega (arith, front, behind, few, few')

  -- The sync characters of a file leave room for a poll, since their numbers are chars.
  pub parse-room :
      xparse_config get_optional get_flag get_int get_text before ≡ parsed config after
      → config.lead + 8 + config.trail ≤ slave_buff_size
  unfolding xparse_config
  parse-room e = with-room (get_optional (codes "port.device")) (get_flag (codes "port.usb")) e

-- The slaves of the file are added to a new bus, and it is in order.
pub added-IsSteady :
    (uuid_unparse : Bytes → Bytes) (align : ℕ) (strtoul : Bytes → ℕ) (unset : Timespec)
    (unset_line : Protocol) (config : SerialConfig) (port2 : Option Bytes)
    (ss : List (Bytes × Option Bytes))
    → (config.baud == 0) ≡ false
    → HasAddresses ss
    → 0 < length (addresses ss)
    → length unset_line.in_buffer ≡ slave_buff_size
    → (c : Bus) × (add_sections uuid_unparse align strtoul unset ss
          (record (start_bus (construct (some config) unset_line)) { port2 = port2 })
        ≡ ok tt c)
      × (c.slaves ≡ map (fresh strtoul unset) (addresses ss))
      × IsSteady uuid_unparse align config.lead config.trail c
unfolding construct start_bus
added-IsSteady uuid_unparse align strtoul unset unset_line config port2 ss rate given some_slave
      size =
    let b : Bus = record (start_bus (construct (some config) unset_line)) { port2 = port2 } in
    let (c, adds, slaves, published, line, alternate) =
      add_sections_lem uuid_unparse align strtoul unset ss b given in
    let fresh_ones =
      All-fresh uuid_unparse align strtoul unset config.lead config.trail (addresses ss) in
    let zero_place : c.poll_slave ≡ 0 =
      Keeps-ok (λ x. x.poll_slave ≡ 0) _ tt c
        (add_sections-place uuid_unparse align strtoul unset config.lead config.trail ss b refl)
        adds in
    (
      c,
      adds,
      slaves,
      record {
        slaves = rw slaves fresh_ones;
        place = omega (
          arith,
          zero_place,
          some_slave,
          ap length slaves,
          length-map (fresh strtoul unset) (addresses ss),
        );
        line = rw line (record { buffer = size; before = refl; behind = refl; rate = rate });
      },
    )
