-- ===== src/Config/Broker/Requests.antt =====
-- What is asked of the broker's library, whatever it gives.
use osdpmaster.Prelude.{
  ◌≡◌, refl, sym, ◌∙◌, ap, false, not, List, [], ◌∷◌, ◌++◌, if◌then◌else◌, Bytes, codes, ℤ,
  same_text, length, append_assoc, append-nil, Bool-cases, inl, inr,
}
use osdpmaster.Run.{Run, Cmd, ok, and_then}
use osdpmaster.Config.Broker.{
  Settings, Request, lib_init, set_message_callback, new_client, username_pw_set, connect,
  subscribe, Session, ask, checked_ask, mosq_errcheck, set_login, connect_broker, eq_ℤ,
}

-- The calls are made, in their order behind those before, and the log keeps its appenders.
pub record Asked (rs : List Request) (s : Session) (r : Run Session (Unit {0})) : Type 0 where
  pub after : Session
  pub returns : r ≡ ok tt after
  pub requests : after.requests ≡ s.requests ++ rs
  pub priority : after.category.priority ≡ s.category.priority
  pub appenders : after.category.appenders ≡ s.category.appenders

Asked-and_then :
    (rs qs : List Request) (s : Session) (r : Run Session (Unit {0})) (k : Cmd Session (Unit {0}))
    → Asked rs s r
    → ((t : Session) → Asked qs t (k t))
    → Asked (rs ++ qs) s (and_then r (λ u. k))
Asked-and_then rs qs s r k h next =
    let n = next h.after in
    record {
      after = n.after;
      returns = rw h.returns n.returns;
      requests = n.requests ∙ ap (λ t. t ++ qs) h.requests ∙ append_assoc s.requests rs qs;
      priority = n.priority ∙ h.priority;
      appenders = n.appenders ∙ h.appenders;
    }

module _ (success : ℤ) (strerror : ℤ → Bytes) where
  checked_ask-Asked :
      (q : Request) (context : Bytes) (s : Session)
      → Asked (q ∷ []) s (checked_ask success strerror q context s)
  unfolding mosq_errcheck
  checked_ask-Asked q context s =
      elim (Bool-cases (not (eq_ℤ (s.results (length s.requests)) success))) [
        | inl failed ↦ rw failed (record {
          after = _;
          returns = refl;
          requests = refl;
          priority = refl;
          appenders = refl;
        })
        | inr fine ↦ rw fine (record {
          after = _;
          returns = refl;
          requests = refl;
          priority = refl;
          appenders = refl;
        })
      ]

  -- The name and the password, where there is a name.
  abbrev pub login : Settings → List Request
  login c = if not (same_text c.user []) then username_pw_set c.user c.password ∷ [] else []

  set_login-Asked :
      (c : Settings) (s : Session) → Asked (login c) s (set_login success strerror c s)
  unfolding set_login
  set_login-Asked c s = elim (Bool-cases (not (same_text c.user []))) [
    | inl named ↦
        rw named
          (record { after = _; returns = refl; requests = refl; priority = refl; appenders = refl })
    | inr nobody ↦ rw nobody (record {
      after = s;
      returns = refl;
      requests = sym (append-nil s.requests);
      priority = refl;
      appenders = refl;
    })
  ]

  ask-Asked :
      (q : Request) (s : Session) (k : Cmd Session (Unit {0})) (qs : List Request)
      → ((t : Session) → Asked qs t (k t))
      → Asked (q ∷ qs) s (and_then (ask q s) (λ u. k))
  ask-Asked q s k qs next =
      let n = next (record s { requests = s.requests ++ q ∷ [] }) in
      record {
        after = n.after;
        returns = n.returns;
        requests = n.requests ∙ append_assoc s.requests (q ∷ []) qs;
        priority = n.priority;
        appenders = n.appenders;
      }

  -- The calls of `main`, up to the subscription.
  abbrev pub requests_of : Settings → List Request
  requests_of c =
      lib_init
      ∷ new_client (codes "osdpmaster") false
      ∷ set_message_callback
      ∷ (login c ++ (connect c.host c.port 60 ∷ subscribe (codes "osdp/bus1/outgoing/#") 0 ∷ []))

  -- Whatever the library gives, also where a call fails, the calls of `main` are made one after the other.
  pub connect_broker-Asked :
      (c : Settings) (s : Session) → Asked (requests_of c) s (connect_broker success strerror c s)
  unfolding connect_broker
  connect_broker-Asked c s =
      Asked-and_then (lib_init ∷ []) _ s
        (checked_ask success strerror lib_init (codes "mosquitto_lib_init") s) _
        (checked_ask-Asked lib_init (codes "mosquitto_lib_init") s)
        (λ t. ask-Asked (new_client (codes "osdpmaster") false) t _ _ (λ u.
          ask-Asked set_message_callback u _ _ (λ v.
            Asked-and_then (login c) _ v (set_login success strerror c v) _ (set_login-Asked c v)
              (λ w.
                Asked-and_then (connect c.host c.port 60 ∷ []) _ w
                  (checked_ask success strerror (connect c.host c.port 60)
                    (codes "mosquitto_connect") w)
                  _ (checked_ask-Asked (connect c.host c.port 60) (codes "mosquitto_connect") w)
                  (checked_ask-Asked (subscribe (codes "osdp/bus1/outgoing/#") 0)
                    (codes "mosquitto_subscribe"))))))
