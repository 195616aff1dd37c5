-- ===== src/Config/Broker.antt =====
-- The connection to the broker in `main` of osdpmaster.cpp, with `mosq_errcheck` and `log_callback`.
--
-- The library is a script of results: a Session holds what the n-th call gives, the calls that have been
-- made, and the root category of the log. What the library logs itself would come to `log_callback`, which
-- the source does not register.
pub mod Requests
use osdpmaster.Prelude.{
  ℕ, suc, ◌+◌, ◌-◌, Bool, true, false, ◌==◌, ◌||◌, List, [], ◌∷◌, ◌++◌, if◌then◌else◌, Bytes, codes,
  decimal, ℤ, pos, negsuc, same_text, not, length,
}
use osdpmaster.Run.{Cmd, ok, pure, and_then, ◌>>=◌, ◌>>◌, get, modify}
use osdpmaster.Config.Logging.{Priority, Category, error, warn, info, debug}

-- `mqtt_host`, `mqtt_port`, `mqtt_user` and `mqtt_password`.
pub record Settings : Type 0 where
  pub host : Bytes
  pub port : ℕ
  pub user : Bytes
  pub password : Bytes

-- The calls of the library, but for those that publish.
pub data Request : Type 0 where
  lib_init set_message_callback : Request
  new_client : Bytes → Bool → Request
  username_pw_set : Bytes → Bytes → Request
  connect : Bytes → ℕ → ℕ → Request
  subscribe : Bytes → ℕ → Request
  loop_forever : Request

pub record Session : Type 0 where
  pub results : ℕ → ℤ
  pub requests : List Request
  pub category : Category

-- A call, and its result.
abbrev pub ask : Request → Cmd Session ℤ
ask r s = ok (s.results (length s.requests)) (record s { requests = s.requests ++ r ∷ [] })

abbrev pub log_root : Priority → Bytes → Cmd Session (Unit {0})
log_root level text = modify (λ s. record s {
  category = record s.category { logged = s.category.logged ++ (level, text) ∷ [] };
})

-- A number as `%d` prints it.
abbrev pub decimal_ℤ : ℤ → Bytes
decimal_ℤ (pos n) = decimal n
decimal_ℤ (negsuc n) = b'-' ∷ decimal (n + 1)

abbrev pub eq_ℤ : ℤ → ℤ → Bool
eq_ℤ (pos m) (pos n) = m == n
eq_ℤ (pos m) (negsuc n) = false
eq_ℤ (negsuc m) (pos n) = false
eq_ℤ (negsuc m) (negsuc n) = m == n

-- The lookups of the property tree: of a text and of a number, with a default.
unfoldable pub settings_of : (Bytes → Bytes → Bytes) → (Bytes → ℕ → ℕ) → Settings
settings_of get_text get_int = record {
  host = get_text (codes "mqtt.host") (codes "localhost");
  port = get_int (codes "mqtt.port") 1883;
  user = get_text (codes "mqtt.login") [];
  password = get_text (codes "mqtt.password") [];
}

-- MOSQ_ERR_SUCCESS and `mosquitto_strerror`.
module _ (success : ℤ) (strerror : ℤ → Bytes) where
  -- The text of an error.
  abbrev pub report : ℤ → Bytes → Bytes
  report e context = context ++ (b' ' ∷ (decimal_ℤ e ++ (b' ' ∷ strerror e)))

  unfoldable pub mosq_errcheck : ℤ → Bytes → Cmd Session (Unit {0})
  mosq_errcheck e context =
      if not (eq_ℤ e success) then log_root error (report e context) else pure tt

  abbrev pub checked_ask : Request → Bytes → Cmd Session (Unit {0})
  checked_ask r context = do e ← ask r; mosq_errcheck e context

  -- The name and the password are set where there is a name; the result of that is not looked at.
  unfoldable pub set_login : Settings → Cmd Session (Unit {0})
  set_login c =
      if not (same_text c.user [])
      then (do ignored ← ask (username_pw_set c.user c.password); pure tt)
      else pure tt

  unfoldable pub connect_broker : Settings → Cmd Session (Unit {0})
  connect_broker c = do
    checked_ask lib_init (codes "mosquitto_lib_init")
    client ← ask (new_client (codes "osdpmaster") false)
    nothing ← ask set_message_callback
    set_login c
    checked_ask (connect c.host c.port 60) (codes "mosquitto_connect")
    checked_ask (subscribe (codes "osdp/bus1/outgoing/#") 0) (codes "mosquitto_subscribe")

  -- Where `main` stays.
  unfoldable pub loop_broker : Cmd Session (Unit {0})
  loop_broker = checked_ask loop_forever (codes "mosquitto_loop_forever")

-- The levels of the library: MOSQ_LOG_INFO, MOSQ_LOG_WARNING, MOSQ_LOG_NOTICE, MOSQ_LOG_ERR, MOSQ_LOG_DEBUG.
module _ (log_info log_warning log_notice log_err log_debug : ℕ) where
  -- A message of the library; one of another level is dropped.
  unfoldable pub log_callback : ℕ → Bytes → Cmd Session (Unit {0})
  log_callback level msg =
      if level == log_info
      then log_root info msg
      else if level == log_warning || level == log_notice
      then log_root warn msg
      else if level == log_err
      then log_root error msg
      else if level == log_debug
      then log_root debug msg
      else pure tt
