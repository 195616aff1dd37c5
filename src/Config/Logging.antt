-- ===== src/Config/Logging.antt =====
-- The set-up of the log in `main` of osdpmaster.cpp: the priority, and an appender for each item of the
-- settings that names one. The category of the library is what it has been given.
pub mod Items
pub mod Faults
use osdpmaster.Prelude.{
  ℕ, Bool, true, false, ◌==◌, List, [], ◌∷◌, ◌++◌, Option, none, some, if◌then◌else◌, get_elem?,
  Bytes, codes, same_text,
}
use osdpmaster.Run.{Run, Cmd, ok, fault, pure, and_then, ◌>>◌, modify}
use osdpmaster.Topic.{split}

-- log4cpp::Priority, as far as it is used.
pub data Priority : Type 0 where
  error warn info debug : Priority

-- Where an appender writes: to the standard output, or to files of a size, of which so many are kept.
pub data Sink : Type 0 where
  standard_output : Sink
  rolling_file : Bytes → ℕ → ℕ → Sink

pub record Appender : Type 0 where
  pub name : Bytes
  pub sink : Sink
  pub threshold : Priority

-- The root category, with what has been logged to it.
pub record Category : Type 0 where
  pub priority : Priority
  pub appenders : List Appender
  pub logged : List (Priority × Bytes)

unfoldable pub priority_of : ℕ → Priority
priority_of level =
    if level == 1 then warn else if level == 2 then info else if level == 3 then debug else error

abbrev pub console_appender : Appender
console_appender = record { name = codes "console"; sink = standard_output; threshold = info }

abbrev pub file_appender : Bytes → Appender
file_appender path = record {
  name = codes "file";
  sink = rolling_file path 16777216 30;
  threshold = debug;
}

abbrev pub add_appender : Appender → Cmd Category (Unit {0})
add_appender a = modify (λ c. record c { appenders = c.appenders ++ a ∷ [] })

abbrev pub log : Priority → Bytes → Cmd Category (Unit {0})
log level text = modify (λ c. record c { logged = c.logged ++ (level, text) ∷ [] })

-- `kv[i]`, which lies outside the vector where there are fewer parts.
unfoldable pub with_part :
    Option Bytes → (Bytes → Cmd Category (Unit {0})) → Cmd Category (Unit {0})
with_part none k c = fault
with_part (some part) k c = k part c

-- The body of the loop, with the parts of an item.
unfoldable pub add_parts : List Bytes → Cmd Category (Unit {0})
add_parts kv = with_part (get_elem? kv 0) λ key.
    if same_text key (codes "console")
    then add_appender console_appender
    else if same_text key (codes "file")
    then with_part (get_elem? kv 1) (λ path. add_appender (file_appender path))
    else pure tt

unfoldable pub add_item : Bytes → Cmd Category (Unit {0})
add_item item = add_parts (split (b'=') 2 item)

unfoldable pub add_items : List Bytes → Cmd Category (Unit {0})
add_items [] c = ok tt c
add_items (item ∷ items) c = and_then (add_item item c) (λ u. add_items items)

-- With the settings `logging.level` and `logging.config`.
unfoldable pub set_up_log : ℕ → Bytes → Cmd Category (Unit {0})
set_up_log level config = do
  modify (λ c. record c { priority = priority_of level })
  add_items (split (b':') 0 config)
  log info (codes "osdpmaster startup")
