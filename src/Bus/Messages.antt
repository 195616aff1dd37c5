-- ===== src/Bus/Messages.antt =====
-- The callbacks of the broker in osdpmaster.cpp: `message_callback` finds the slave that a topic names,
-- and `message_for_slave` queues the message or obeys it.
use osdpmaster.Prelude.{
  same_text, ltb, pos, ℕ, ◌+◌, ◌≡◌, refl, ap, ◌∙◌, Bool, true, false, not, ◌&&◌, ◌==◌, List, [],
  ◌∷◌, ◌++◌, Option, none, some, if◌then◌else◌, length, get_elem?, set, Bytes, codes, ◌<◌,
  get_elem?-set_self, set-set,
}
use osdpmaster.Run.{Cmd, ok, fault, pure, and_then, ◌>>◌}
use osdpmaster.Blob.{content_start}
use osdpmaster.Blob.Calls.{content_start-some}
use osdpmaster.Slave.{
  Slave, Site, Publication, mem_zero, status_name, status_value, offline, set_enabled, push,
  declare_online, status,
}
use osdpmaster.Bus.{Bus, site_of, with_slave, slave_or_fault, update_slave, at_slave}
use osdpmaster.Bus.Poll.{update_slave_lem, at_slave_lem}
use osdpmaster.Topic.{split, join}
use osdpmaster.Topic.Join.{IsFree, split-join}

-- What becomes of a message: an assertion fails, no slave has the address, or a slave has it.
pub data Delivery : Type 0 where
  aborted unknown delivered : Delivery

-- A component behind the last is outside the vector.
abbrev pub component_is : ℕ → Bytes → List Bytes → Option Bool
component_is i text components = elim (get_elem? components i) [
  | none ↦ none
  | some c ↦ some (same_text c text)
]

abbrev pub is_command : List Bytes → Bool
is_command (a ∷ b ∷ c ∷ d ∷ e ∷ []) = same_text e (codes "control")
is_command components = false

-- The loop over the slaves: the place of the first one with the address.
unfoldable pub place_of : ℕ → List Slave → Option ℕ
place_of addr [] = none
place_of addr (s ∷ ss) =
    let rest = place_of addr ss in
    if s.addr == addr then some 0 else elim rest [ none ↦ none | some i ↦ some (i + 1) ]

-- libuuid's `uuid_unparse`, and where the uuid lies.
module _ (uuid_unparse : Bytes → Bytes) (align : ℕ) where
  -- Behind its log call, a command switches the slave on or off, and its state is published.
  unfoldable pub obey : ℕ → Bytes → Slave → Cmd Bus (Unit {0})
  obey i cmd s =
      if same_text cmd (codes "DISABLE")
      then (update_slave i (set_enabled false)
          >> at_slave i (declare_online uuid_unparse align (offline s)))
      else if same_text cmd (codes "ENABLE")
      then (update_slave i (set_enabled true)
          >> at_slave i (declare_online uuid_unparse align true))
      else at_slave i (declare_online uuid_unparse align (offline s))

  -- The log call of a command: it hands an array of char to `%d`, which is undefined.
  unfoldable pub log_command : Cmd Bus (Unit {0})
  log_command b = fault

  unfoldable pub message_for_slave : ℕ → List Bytes → Bytes → Cmd Bus (Unit {0})
  message_for_slave i components payload = with_slave i λ s.
      if is_command components
      then (log_command >> obey i payload s)
      else if not s.enabled
      then pure tt
      else (content_start payload >> update_slave i (push payload))

  -- What is published behind a switch of the slave at place `i`.
  abbrev news : Slave → Bytes → Publication
  news s text = record {
    topic = codes "osdpiom/bus1/incoming/" ++ (status_name uuid_unparse align s ++ codes "/status");
    len = pos (length text);
    payload = text;
    retain = true;
  }

  switch-tells :
      (i : ℕ) (on online : Bool) (s : Slave) (b : Bus)
      → get_elem? b.slaves i ≡ some s
      → (not (mem_zero align s.uuid) && ltb 36 (length (uuid_unparse s.uuid) + 1)) ≡ false
      → {text : Bytes}
      → (if not on then codes "DISABLED" else if online then codes "ONLINE" else codes "OFFLINE")
        ≡ text
      → at_slave i
          (declare_online uuid_unparse align online)
          (record b { slaves = set b.slaves i (set_enabled on s) })
        ≡ ok tt (record b {
          slaves = set b.slaves i (set_enabled on s);
          published = b.published ++ news s text ∷ [];
        })
  unfolding declare_online status status_name status_value
  switch-tells i on online s b here name {text} value =
      let b' : Bus = record b { slaves = set b.slaves i (set_enabled on s) } in
      let w : Site = record (site_of (set_enabled on s) b') {
        published = b.published ++ news s text ∷ [];
      } in
      at_slave_lem i (declare_online uuid_unparse align online) b' (set_enabled on s) w
        (get_elem?-set_self b.slaves i s (set_enabled on s) here) (rw (name, value))
      ∙ ap (λ l. ok tt (record b { slaves = l; published = w.published }))
          (set-set b.slaves i (set_enabled on s) (set_enabled on s))

  -- Behind the log call of a command, `ENABLE` or `DISABLE` to the slave at place `i`, whose uuid's text fits its buffer (or is not set):
  -- it is switched, keeps its queue and retries, and the broker is told once: `ONLINE` behind ENABLE,
  -- whatever the retries, and `DISABLED` behind DISABLE.
  pub obey-tells :
      (i : ℕ) (on : Bool) (s : Slave) (b : Bus)
      → get_elem? b.slaves i ≡ some s
      → (not (mem_zero align s.uuid) && ltb 36 (length (uuid_unparse s.uuid) + 1)) ≡ false
      → let switched : Slave = record s { enabled = on } in
        let news : Publication = record {
          topic =
              codes "osdpiom/bus1/incoming/"
              ++ (status_name uuid_unparse align s ++ codes "/status");
          len = if on then pos 6 else pos 8;
          payload = if on then codes "ONLINE" else codes "DISABLED";
          retain = true;
        } in
        obey i (if on then codes "ENABLE" else codes "DISABLE") s b
        ≡ ok tt
            (record b { slaves = set b.slaves i switched; published = b.published ++ news ∷ [] })
  unfolding obey same_text
  obey-tells i true s b here name =
      rw (update_slave_lem i (set_enabled true) b s here)
        (switch-tells i true true s b here name refl)
  obey-tells i false s b here name =
      rw (update_slave_lem i (set_enabled false) b s here)
        (switch-tells i false (offline s) s b here name refl)

  -- libc's `strtoul` in base 10.
  module _ (strtoul : Bytes → ℕ) where
    -- A message for the slave at the place that was found.
    unfoldable pub hand_over : Option ℕ → List Bytes → Bytes → Cmd Bus Delivery
    hand_over none components payload b = ok unknown b
    hand_over (some i) components payload b =
        and_then (message_for_slave i components payload b) (λ t. ok delivered)

    -- `message_callback` behind its assertions.
    unfoldable pub route : List Bytes → Bytes → Cmd Bus Delivery
    route components payload b = elim (get_elem? components 3) [
      | none ↦ fault
      | some name ↦ hand_over (place_of (strtoul name) b.slaves) components payload b
    ]

    -- An assertion on a component of the topic.
    abbrev pub asserted : Option Bool → Cmd Bus Delivery → Cmd Bus Delivery
    asserted none k b = fault
    asserted (some false) k b = ok aborted b
    asserted (some true) k b = k b

    unfoldable pub on_components : List Bytes → Bytes → Cmd Bus Delivery
    on_components components payload = asserted (component_is 0 (codes "osdp") components) (
        asserted (component_is 1 (codes "bus1") components)
          (asserted (component_is 2 (codes "outgoing") components) (route components payload)))

    unfoldable pub message_callback : Bytes → Bytes → Cmd Bus Delivery
    message_callback topic payload = on_components (split (b'/') 0 topic) payload

    -- The components of a topic of a message for a slave: `osdp/bus1/outgoing/` and its address.
    abbrev pub parts : Bytes → List Bytes
    parts name = codes "osdp" ∷ codes "bus1" ∷ codes "outgoing" ∷ name ∷ []

    -- A message with the topic `osdp/bus1/outgoing/` and then a text `name` without a slash, not empty,
    -- whose number is the address of a slave: the first slave with that address gets the message at the
    -- end of its queue if it is enabled, where the payload must not be empty, and nothing changes if it is
    -- not.
    pub message_callback-queues :
        (name payload : Bytes) (i : ℕ) (s : Slave) (b : Bus)
        → IsFree (b'/') name
        → 0 < length name
        → place_of (strtoul name) b.slaves ≡ some i
        → get_elem? b.slaves i ≡ some s
        → (s.enabled ≡ true → 0 < length payload)
        → message_callback (join (b'/') (parts name)) payload b
          ≡ ok delivered
              (if s.enabled then record b { slaves = set b.slaves i (push payload s) } else b)
    unfolding message_callback on_components route hand_over message_for_slave slave_or_fault
        same_text
    message_callback-queues name payload i s b free full found here some_byte =
        let cut =
          split-join (b'/') (parts name)
            (
              (refl, (refl, (refl, (refl, tt)))),
              (
                (refl, (refl, (refl, (refl, tt)))),
                ((refl, (refl, (refl, (refl, (refl, (refl, (refl, (refl, tt)))))))), (free, tt)),
              ),
            )
            full in
        rw (cut, found, here) (gate s.enabled some_byte)
      where
        gate :
            (enabled : Bool)
            → (enabled ≡ true → 0 < length payload)
            → and_then
                ((if not enabled
                    then pure tt
                    else (content_start payload >> update_slave i (push payload)))
                  b)
                (λ t. ok delivered)
              ≡ ok delivered
                  (if enabled then record b { slaves = set b.slaves i (push payload s) } else b)
        gate true h =
            rw (content_start-some payload b (h refl), update_slave_lem i (push payload) b s here)
        gate false h = refl
