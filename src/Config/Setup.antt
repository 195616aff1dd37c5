-- ===== src/Config/Setup.antt =====
-- What a configuration file makes of the program.
use osdpmaster.Prelude.{
  ℕ, ◌%◌, ◌^◌, ◌≡◌, fun_ext, refl, sym, ◌∙◌, Bool, true, false, List, [], ◌∷◌, ◌++◌, Option, none,
  some, if◌then◌else◌, Bytes, codes, map, append_assoc, append-nil, get_elem?-behind, set-behind,
  Bool-cases, inl, inr,
}
use osdpmaster.Run.{ok}
use osdpmaster.Timespec.{Timespec}
use osdpmaster.Protocol.{SerialConfig}
use osdpmaster.Slave.{Slave, construct, init, purge, mem_zero, no_uuid, declare_online, status}
use osdpmaster.Slave.Zero.{mem_zero_iff}
use osdpmaster.Bus.{Bus, at_slave, slave_or_fault, back_from_site}
use osdpmaster.Bus.Setup.{add_slave, zeroes-All}
use osdpmaster.Master.Reopen.{IsUsable}
use osdpmaster.Config.{
  parsed, xparse_config, parse_with, parse_line, names_slave, add_section, add_sections,
}

-- A file that gives no more than the name of the port and the flag for USB is enough: with the defaults
-- of the library's lookups, the settings can be set up, and the port has the name of the file.
pub xparse_config-IsUsable :
    (get_optional : Bytes → Option Bytes) (get_flag : Bytes → Option Bool) (get_int : Bytes → ℕ → ℕ)
    (get_text : Bytes → Bytes → Bytes) (port : Bytes) (usb : Bool)
    → get_optional (codes "port.device") ≡ some port
    → get_optional (codes "port.device2") ≡ none
    → get_flag (codes "port.usb") ≡ some usb
    → ((key : Bytes) (n : ℕ) → get_int key n ≡ n)
    → ((key text : Bytes) → get_text key text ≡ text)
    → (c : SerialConfig) × (xparse_config get_optional get_flag get_int get_text none
        ≡ parsed c none)
      × IsUsable c
      × (c.port ≡ port)
      × (c.usb ≡ usb)
unfolding xparse_config parse_with parse_line
xparse_config-IsUsable get_optional get_flag get_int get_text port usb named alone flagged ints
      texts =
    let all_ints : get_int ≡ (λ key n. n) = fun_ext (λ key. fun_ext (λ n. ints key n)) in
    let all_texts : get_text ≡ (λ key text. text) =
      fun_ext (λ key. fun_ext (λ text. texts key text)) in
    (
      parse_line get_optional get_flag get_int get_text port usb,
      rw (named, flagged, alone),
      rw (all_ints, all_texts) (refl, refl),
      refl,
      refl,
    )

-- The addresses of the sections for slaves, where all have one.
abbrev pub addresses : List (Bytes × Option Bytes) → List Bytes
addresses [] = []
addresses ((name, none) ∷ ss) = addresses ss
addresses ((name, some addr) ∷ ss) = if names_slave name then addr ∷ addresses ss else addresses ss

abbrev pub HasAddresses : List (Bytes × Option Bytes) → Type 0
HasAddresses [] = Unit {0}
HasAddresses ((name, none) ∷ ss) = (names_slave name ≡ false) × HasAddresses ss
HasAddresses ((name, some addr) ∷ ss) = HasAddresses ss

-- A slave as it is added, with an address.
abbrev pub fresh : (Bytes → ℕ) → Timespec → Bytes → Slave
fresh strtoul unset addr = init (record (construct unset) { addr = strtoul addr % 2 ^ 8 })

module _ (uuid_unparse : Bytes → Bytes) (align : ℕ) (strtoul : Bytes → ℕ) (unset : Timespec) where
  pub add_section_lem :
      (addr : Bytes) (b : Bus)
      → add_section uuid_unparse align strtoul unset (some addr) b
        ≡ ok tt (record b {
          slaves = b.slaves ++ fresh strtoul unset addr ∷ [];
          poll_slave = 0;
          published =
              b.published ++ status uuid_unparse align (fresh strtoul unset addr) false ∷ [];
        })
  unfolding add_section at_slave slave_or_fault back_from_site declare_online add_slave init purge
      construct
  add_section_lem addr b =
      let zeroes : mem_zero align no_uuid ≡ true = (mem_zero_iff align no_uuid).1 zeroes-All in
      rw (
        get_elem?-behind b.slaves (fresh strtoul unset addr),
        zeroes,
        set-behind b.slaves (fresh strtoul unset addr) (fresh strtoul unset addr),
      )

  -- Where each section for a slave gives an address, the slaves are added in the order of the file behind
  -- those there are, each new and with its address, and each is published once, in turn, as it stands;
  -- other sections do nothing. The line and the alternate port stay.
  pub add_sections_lem :
      (ss : List (Bytes × Option Bytes)) (b : Bus)
      → HasAddresses ss
      → (c : Bus) × (add_sections uuid_unparse align strtoul unset ss b ≡ ok tt c)
        × (c.slaves ≡ b.slaves ++ map (fresh strtoul unset) (addresses ss))
        × (c.published
            ≡ b.published
              ++ map
                  (λ addr. status uuid_unparse align (fresh strtoul unset addr) false)
                  (addresses ss))
        × (c.proto ≡ b.proto)
        × (c.port2 ≡ b.port2)
  unfolding add_sections
  add_sections_lem [] b h =
      (b, refl, sym (append-nil b.slaves), sym (append-nil b.published), refl, refl)
  add_sections_lem ((name, none) ∷ ss) b h =
      let (c, runs, slaves, published, line, alternate) = add_sections_lem ss b h.1 in
      (c, rw h.0 runs, slaves, published, line, alternate)
  add_sections_lem ((name, some addr) ∷ ss) b h = elim (Bool-cases (names_slave name)) [
    | inr other ↦
        let (c, runs, slaves, published, line, alternate) = add_sections_lem ss b h in
        rw other (c, runs, slaves, published, line, alternate)
    | inl slave ↦
        let next : Bus = record b {
          slaves = b.slaves ++ fresh strtoul unset addr ∷ [];
          poll_slave = 0;
          published =
              b.published ++ status uuid_unparse align (fresh strtoul unset addr) false ∷ [];
        } in
        let (c, runs, slaves, published, line, alternate) = add_sections_lem ss next h in
        rw (slave, add_section_lem addr b)
          (
            c,
            runs,
            slaves ∙ append_assoc b.slaves _ _,
            published ∙ append_assoc b.published _ _,
            line,
            alternate,
          )
  ]
