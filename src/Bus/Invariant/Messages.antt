-- ===== src/Bus/Invariant/Messages.antt =====
-- A message of the broker leaves the bus sound.
use osdpmaster.Prelude.{
  ℕ, Bool, true, false, not, List, Option, none, some, if◌then◌else◌, get_elem?, Bytes, codes,
  same_text, Bool-cases, inl, inr,
}
use osdpmaster.Run.{Run, Cmd, fault, pure, ◌>>◌, Keeps, Keeps-and_then}
use osdpmaster.Slave.{Slave, Site, set_enabled, push, offline, declare_online}
use osdpmaster.Slave.Retries.{IsValid}
use osdpmaster.Blob.{content_start}
use osdpmaster.Bus.Invariant.Steps.{content_start-Keeps}
use osdpmaster.Bus.{Bus, update_slave, at_slave}
use osdpmaster.Bus.Messages.{
  Delivery, is_command, place_of, obey, message_for_slave, log_command, hand_over, route, asserted,
  component_is, on_components, message_callback,
}
use osdpmaster.Topic.{split}
use osdpmaster.Bus.Invariant.{IsSound, update_slave-IsSound, at_slave-IsSound, with_slave-IsSound}

module _ (uuid_unparse : Bytes → Bytes) (align : ℕ) (strtoul : Bytes → ℕ) where
  abbrev Sound : Bus → Type 0
  Sound b = IsSound uuid_unparse align b

  declare_online-IsValid :
      (online : Bool) (w : Site)
      → IsValid uuid_unparse align w.slave
      → Keeps (λ x. IsValid uuid_unparse align x.slave) (declare_online uuid_unparse align online w)
  unfolding declare_online
  declare_online-IsValid online w valid = rw valid.name valid

  switch-IsSound :
      (i : ℕ) (f : Slave → Slave) (online : Bool) (b : Bus)
      → ((s : Slave) → IsValid uuid_unparse align s → IsValid uuid_unparse align (f s))
      → Sound b
      → Keeps Sound ((update_slave i f >> at_slave i (declare_online uuid_unparse align online)) b)
  switch-IsSound i f online b keeps v =
      Keeps-and_then Sound (update_slave i f b) _
        (update_slave-IsSound uuid_unparse align i f b keeps v)
        (λ u c w.
          at_slave-IsSound uuid_unparse align i (declare_online uuid_unparse align online) c
            (declare_online-IsValid online) w)

  enabled-IsValid :
      (on : Bool) (s : Slave)
      → IsValid uuid_unparse align s
      → IsValid uuid_unparse align (set_enabled on s)
  enabled-IsValid on s valid = record {
    retries = valid.retries;
    tx = valid.tx;
    rx = valid.rx;
    address = valid.address;
    name = valid.name;
  }

  obey-IsSound :
      (i : ℕ) (cmd : Bytes) (s : Slave) (b : Bus)
      → Sound b
      → Keeps Sound (obey uuid_unparse align i cmd s b)
  unfolding obey
  obey-IsSound i cmd s b v = elim (Bool-cases (same_text cmd (codes "DISABLE"))) [
    | inl disables ↦
        rw disables (switch-IsSound i (set_enabled false) (offline s) b (enabled-IsValid false) v)
    | inr other ↦ elim (Bool-cases (same_text cmd (codes "ENABLE"))) [
      | inl enables ↦
          rw (other, enables) (switch-IsSound i (set_enabled true) true b (enabled-IsValid true) v)
      | inr asks ↦
          rw (other, asks)
            (at_slave-IsSound uuid_unparse align i (declare_online uuid_unparse align (offline s)) b
              (declare_online-IsValid (offline s)) v)
    ]
  ]

  push-IsSound :
      (i : ℕ) (payload : Bytes) (enabled : Bool) (b : Bus)
      → Sound b
      → Keeps Sound (
          (if not enabled
              then pure tt
              else (content_start payload >> update_slave i (push payload)))
            b)
  push-IsSound i payload false b v = v
  push-IsSound i payload true b v =
      Keeps-and_then Sound (content_start payload b) _ (content_start-Keeps Sound payload b v)
        (λ u c w.
          update_slave-IsSound uuid_unparse align i (push payload) c
            (λ s valid. record {
              retries = valid.retries;
              tx = valid.tx;
              rx = valid.rx;
              address = valid.address;
              name = valid.name;
            })
            w)

  message_for_slave-IsSound :
      (i : ℕ) (components : List Bytes) (payload : Bytes) (b : Bus)
      → Sound b
      → Keeps Sound (message_for_slave uuid_unparse align i components payload b)
  unfolding message_for_slave log_command
  message_for_slave-IsSound i components payload b v =
      with_slave-IsSound uuid_unparse align (get_elem? b.slaves i) _ b (λ s.
        elim (Bool-cases (is_command components)) [
          | inl command ↦ rw command tt
          | inr message ↦ rw message (push-IsSound i payload s.enabled b v)
        ])

  hand_over-IsSound :
      (o : Option ℕ) (components : List Bytes) (payload : Bytes) (b : Bus)
      → Sound b
      → Keeps Sound (hand_over uuid_unparse align strtoul o components payload b)
  unfolding hand_over
  hand_over-IsSound none components payload b v = v
  hand_over-IsSound (some i) components payload b v =
      Keeps-and_then Sound (message_for_slave uuid_unparse align i components payload b) _
        (message_for_slave-IsSound i components payload b v) (λ u c w. w)

  found-IsSound :
      (o : Option Bytes) (components : List Bytes) (payload : Bytes) (b : Bus)
      → Sound b
      → Keeps Sound (elim o as (λ x. Run Bus Delivery) [
        | none ↦ fault
        | some name ↦
            hand_over uuid_unparse align strtoul
              (place_of (strtoul name) b.slaves)
              components
              payload
              b
      ])
  found-IsSound none components payload b v = tt
  found-IsSound (some name) components payload b v =
      hand_over-IsSound (place_of (strtoul name) b.slaves) components payload b v

  route-IsSound :
      (components : List Bytes) (payload : Bytes) (b : Bus)
      → Sound b
      → Keeps Sound (route uuid_unparse align strtoul components payload b)
  unfolding route
  route-IsSound components payload b v =
      found-IsSound (get_elem? components 3) components payload b v

  asserted-IsSound :
      (o : Option Bool) (k : Cmd Bus Delivery) (b : Bus)
      → Sound b
      → Keeps Sound (k b)
      → Keeps Sound (asserted uuid_unparse align strtoul o k b)
  asserted-IsSound none k b v h = tt
  asserted-IsSound (some false) k b v h = v
  asserted-IsSound (some true) k b v h = h

  on_components-IsSound :
      (components : List Bytes) (payload : Bytes) (b : Bus)
      → Sound b
      → Keeps Sound (on_components uuid_unparse align strtoul components payload b)
  unfolding on_components
  on_components-IsSound components payload b v =
      let third : Cmd Bus Delivery =
        asserted uuid_unparse align strtoul (component_is 2 (codes "outgoing") components)
          (route uuid_unparse align strtoul components payload) in
      let second : Cmd Bus Delivery =
        asserted uuid_unparse align strtoul (component_is 1 (codes "bus1") components) third in
      asserted-IsSound (component_is 0 (codes "osdp") components) second b v (
        asserted-IsSound (component_is 1 (codes "bus1") components) third b v (
          asserted-IsSound (component_is 2 (codes "outgoing") components)
            (route uuid_unparse align strtoul components payload) b v
            (route-IsSound components payload b v)))

  -- A message with any topic and payload.
  pub message_callback-IsSound :
      (topic payload : Bytes) (b : Bus)
      → Sound b
      → Keeps Sound (message_callback uuid_unparse align strtoul topic payload b)
  unfolding message_callback
  message_callback-IsSound topic payload b v =
      on_components-IsSound (split (b'/') 0 topic) payload b v
