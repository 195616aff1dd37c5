-- ===== src/Bus/Defined/Messages.antt =====
-- No message of the broker for a slave, with an address in its topic and a payload that can be sent, has
-- undefined behaviour.
use osdpmaster.Prelude.{
  ℕ, ◌<◌, ◌≡◌, ap, Bool, true, false, not, List, [], ◌∷◌, ◌++◌, Option, none, some, if◌then◌else◌,
  get_elem?, Bytes, codes, length, arith, same_text, Option-cases, inl, inr, All,
}
use osdpmaster.Run.{Run, Cmd, fault, pure, ◌>>◌, Stays, Stays-and_then, Stays-mono}
use osdpmaster.Slave.{Slave, push}
use osdpmaster.Blob.{content_start}
use osdpmaster.Blob.Calls.{content_start-some}
use osdpmaster.Bus.{Bus, update_slave}
use osdpmaster.Bus.Messages.{
  Delivery, is_command, place_of, message_for_slave, hand_over, route, asserted, component_is,
  on_components, message_callback,
}
use osdpmaster.Topic.{split}
use osdpmaster.Bus.Defined.{
  IsOrderly, IsSteady, At, with_slave-Stays, update_slave-Stays, IsOrderly-with, get_elem?-inside,
  Sends,
}

-- The place of a slave is inside the list.
place_of-lt : (addr : ℕ) (ss : List Slave) (i : ℕ) → place_of addr ss ≡ some i → i < length ss
unfolding place_of
place_of-lt addr [] i e = cc
place_of-lt addr (s ∷ ss) i e = elim (Option-cases (place_of addr ss)) [
  | inl none_left ↦ ground arith
  | inr (j, found) ↦ ground (arith, place_of-lt addr ss j found)
]

All-behind :
    (P : Bytes → Type 0) (xs : List Bytes) (x : Bytes) → All P xs → P x → All P (xs ++ x ∷ [])
All-behind P [] x h p = (p, tt)
All-behind P (y ∷ xs) x h p = (h.0, All-behind P xs x h.1 p)

module _ (uuid_unparse : Bytes → Bytes) (align lead trail : ℕ) where
  abbrev Orderly : Slave → Type 0
  Orderly s = IsOrderly uuid_unparse align lead trail s

  abbrev Here : ℕ → Bus → Type 0
  Here i b = At uuid_unparse align lead trail i b

  abbrev Steady : Bus → Type 0
  Steady b = IsSteady uuid_unparse align lead trail b

  push-Stays :
      (i : ℕ) (payload : Bytes) (enabled : Bool) (b : Bus)
      → Sends lead trail payload
      → Here i b
      → Stays ⊥ (Here i) (
          (if not enabled
              then pure tt
              else (content_start payload >> update_slave i (push payload)))
            b)
  push-Stays i payload false b fits v = v
  push-Stays i payload true b fits v = rw (content_start-some payload b fits.0) (
      update_slave-Stays uuid_unparse align lead trail i (push payload) b
        (λ s h.
          IsOrderly-with uuid_unparse align lead trail s (s.msglist ++ payload ∷ []) s.next_assign
            s.enabled h (All-behind _ s.msglist payload h.queue fits))
        v)

  message_for_slave-Stays :
      (i : ℕ) (components : List Bytes) (payload : Bytes) (b : Bus)
      → is_command components ≡ false
      → Sends lead trail payload
      → Here i b
      → Stays ⊥ (Here i) (message_for_slave uuid_unparse align i components payload b)
  unfolding message_for_slave
  message_for_slave-Stays i components payload b message fits v =
      with_slave-Stays uuid_unparse align lead trail i _ b v
        (λ s h. rw message (push-Stays i payload s.enabled b fits v))

  module _ (strtoul : Bytes → ℕ) where
    hand_over-Stays :
        (addr : ℕ) (components : List Bytes) (payload : Bytes) (b : Bus)
        → is_command components ≡ false
        → Sends lead trail payload
        → Steady b
        → Stays ⊥ Steady
            (hand_over uuid_unparse align strtoul (place_of addr b.slaves) components payload b)
    unfolding hand_over
    hand_over-Stays addr components payload b message fits v =
        elim (Option-cases (place_of addr b.slaves)) [
          | inl nobody ↦ rw nobody v
          | inr (i, found) ↦ rw found (
              Stays-and_then ⊥ Steady (message_for_slave uuid_unparse align i components payload b)
                _
                (Stays-mono ⊥ ⊥ (Here i) Steady _
                  (message_for_slave-Stays i components payload b message fits
                    (v, place_of-lt addr b.slaves i found))
                  (λ bad. bad) (λ c w. w.0))
                (λ u c w. w))
        ]

    -- The outcome of an assertion, and the slave that a name stands for.
    asserted-Stays :
        (o : Option Bool) (c : Bool) (k : Cmd Bus Delivery) (b : Bus)
        → o ≡ some c
        → Steady b
        → Stays ⊥ Steady (k b)
        → Stays ⊥ Steady (asserted uuid_unparse align strtoul o k b)
    asserted-Stays none c k b e v h = cc
    asserted-Stays (some false) c k b e v h = v
    asserted-Stays (some true) c k b e v h = h

    component_is-inside :
        (i : ℕ) (text : Bytes) (components : List Bytes)
        → i < length components
        → (c : Bool) × (component_is i text components ≡ some c)
    component_is-inside i text components lt =
        let (c, here) = get_elem?-inside components i lt in
        (
          same_text c text,
          ap (λ o. elim o as (λ x. Option Bool) [ none ↦ none | some d ↦ some (same_text d text) ])
              here,
        )

    component-Stays :
        (i : ℕ) (text : Bytes) (components : List Bytes) (k : Cmd Bus Delivery) (b : Bus)
        → i < length components
        → Steady b
        → Stays ⊥ Steady (k b)
        → Stays ⊥ Steady (asserted uuid_unparse align strtoul (component_is i text components) k b)
    component-Stays i text components k b lt v h =
        let (c, e) = component_is-inside i text components lt in
        asserted-Stays (component_is i text components) c k b e v h

    named-Stays :
        (o : Option Bytes) (name : Bytes) (components : List Bytes) (payload : Bytes) (b : Bus)
        → o ≡ some name
        → is_command components ≡ false
        → Sends lead trail payload
        → Steady b
        → Stays ⊥ Steady (elim o as (λ x. Run Bus Delivery) [
          | none ↦ fault
          | some text ↦
              hand_over uuid_unparse align strtoul
                (place_of (strtoul text) b.slaves)
                components
                payload
                b
        ])
    named-Stays none name components payload b e message fits v = cc
    named-Stays (some text) name components payload b e message fits v =
        hand_over-Stays (strtoul text) components payload b message fits v

    route-Stays :
        (components : List Bytes) (payload : Bytes) (b : Bus)
        → 3 < length components
        → is_command components ≡ false
        → Sends lead trail payload
        → Steady b
        → Stays ⊥ Steady (route uuid_unparse align strtoul components payload b)
    unfolding route
    route-Stays components payload b long message fits v =
        let (name, here) = get_elem?-inside components 3 long in
        named-Stays (get_elem? components 3) name components payload b here message fits v

    on_components-Stays :
        (components : List Bytes) (payload : Bytes) (b : Bus)
        → 3 < length components
        → is_command components ≡ false
        → Sends lead trail payload
        → Steady b
        → Stays ⊥ Steady (on_components uuid_unparse align strtoul components payload b)
    unfolding on_components
    on_components-Stays components payload b long message fits v =
        component-Stays 0 (codes "osdp") components _ b (omega arith) v (
          component-Stays 1 (codes "bus1") components _ b (omega arith) v (
            component-Stays 2 (codes "outgoing") components _ b (omega arith) v
              (route-Stays components payload b long message fits v)))

    -- A message whose topic has at least four components and is not that of a command, with a payload that
    -- is not empty and fits the transmit buffer, is taken by a bus of orderly slaves without undefined behaviour, and leaves such a bus behind.
    pub message_callback-Stays :
        (topic payload : Bytes) (b : Bus)
        → 3 < length (split (b'/') 0 topic)
        → is_command (split (b'/') 0 topic) ≡ false
        → Sends lead trail payload
        → Steady b
        → Stays ⊥ Steady (message_callback uuid_unparse align strtoul topic payload b)
    unfolding message_callback
    message_callback-Stays topic payload b long message fits v =
        on_components-Stays (split (b'/') 0 topic) payload b long message fits v
