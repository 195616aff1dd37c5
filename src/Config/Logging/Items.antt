-- ===== src/Config/Logging/Items.antt =====
-- The appenders of the settings of the log.
use osdpmaster.Prelude.{
  ℕ, suc, ◌<◌, ◌≡◌, refl, sym, ap, ◌∙◌, List, [], ◌∷◌, ◌++◌, Bytes, codes, same_text, length, map,
  arith, All, append-nil, append_assoc,
}
use osdpmaster.Run.{ok}
use osdpmaster.Topic.{part_of, behind_part, split_loop, split, join}
use osdpmaster.Topic.Join.{
  IsFree, EndsFull, part_of-append, part_of-free, split_loop-step, split_loop-end, split-join,
}
use osdpmaster.Config.Logging.{
  info, Appender, Category, priority_of, console_appender, file_appender, with_part, add_parts,
  add_item, add_items, set_up_log,
}

-- What a user writes for an appender.
pub data Setting : Type 0 where
  to_console : Setting
  to_file : Bytes → Setting

abbrev pub item_text : Setting → Bytes
item_text to_console = codes "console"
item_text (to_file path) = codes "file=" ++ path

abbrev pub appender_of : Setting → Appender
appender_of to_console = console_appender
appender_of (to_file path) = file_appender path

-- A path that the settings can hold.
abbrev pub IsPlain : Setting → Type 0
IsPlain to_console = Unit {0}
IsPlain (to_file path) = IsFree (b':') path × IsFree (b'=') path × (0 < length path)

split_file :
    (path : Bytes)
    → IsFree (b'=') path
    → 0 < length path
    → split (b'=') 2 (codes "file" ++ (b'=' ∷ path)) ≡ codes "file" ∷ path ∷ []
unfolding split
split_file path free some_path =
    let (first, rest) =
      part_of-append (b'=') (codes "file") path (refl, (refl, (refl, (refl, tt)))) in
    let (second, nothing) = part_of-free (b'=') path free in
    split_loop-step (b'=') (suc (suc (suc (suc (length path))))) 2 0 (codes "file" ++ (b'=' ∷ path))
      (omega arith) refl
    ∙ rw (first, rest)
        (ap (◌∷◌ (codes "file")) (
          split_loop-step (b'=') (suc (suc (suc (length path)))) 2 1 path some_path refl
          ∙ rw (second, nothing)
              (ap (◌∷◌ path) (split_loop-end (b'=') (suc (suc (suc (length path)))) 2 2))))

add_item_lem :
    (s : Setting) (c : Category)
    → IsPlain s
    → add_item (item_text s) c ≡ ok tt (record c { appenders = c.appenders ++ appender_of s ∷ [] })
unfolding add_item add_parts with_part same_text
add_item_lem to_console c plain = unfold split split_loop part_of behind_part in refl
add_item_lem (to_file path) c plain = rw (split_file path plain.1 plain.2) refl

add_items_lem :
    (ss : List Setting) (c : Category)
    → All IsPlain ss
    → add_items (map item_text ss) c
      ≡ ok tt (record c { appenders = c.appenders ++ map appender_of ss })
unfolding add_items
add_items_lem [] c plain =
    ap (λ l. ok tt (record c { appenders = l })) (sym (append-nil c.appenders))
add_items_lem (s ∷ ss) c plain =
    rw
      (
        add_item_lem s c plain.0,
        add_items_lem ss (record c { appenders = c.appenders ++ appender_of s ∷ [] }) plain.1,
      )
      (ap (λ l. ok tt (record c { appenders = l }))
        (append_assoc c.appenders (appender_of s ∷ []) (map appender_of ss)))

-- The items of plain settings hold no colon, and the last is not empty.
item_text-IsFree : (s : Setting) → IsPlain s → IsFree (b':') (item_text s)
item_text-IsFree to_console plain = (refl, (refl, (refl, (refl, (refl, (refl, (refl, tt)))))))
item_text-IsFree (to_file path) plain = (refl, (refl, (refl, (refl, (refl, plain.0)))))

All-IsFree : (ss : List Setting) → All IsPlain ss → All (IsFree (b':')) (map item_text ss)
All-IsFree [] plain = tt
All-IsFree (s ∷ ss) plain = (item_text-IsFree s plain.0, All-IsFree ss plain.1)

item_pos : (s : Setting) → 0 < length (item_text s)
item_pos to_console = omega arith
item_pos (to_file path) = omega arith

ends_full : (ss : List Setting) → EndsFull (map item_text ss)
ends_full [] = tt
ends_full (s ∷ []) = item_pos s
ends_full (s ∷ (t ∷ ss)) = ends_full (t ∷ ss)

-- Settings that are a list of appenders, each `console` or `file=` and a path, with colons between them,
-- give the log exactly these appenders, in this order and behind those that it has, and the priority of
-- the level; then the start of the program is logged. A path is not empty and holds no `:` and no `=`.
pub set_up_log-appenders :
    (level : ℕ) (ss : List Setting) (c : Category)
    → All IsPlain ss
    → set_up_log level (join (b':') (map item_text ss)) c
      ≡ ok tt (record {
        priority = priority_of level;
        appenders = c.appenders ++ map appender_of ss;
        logged = c.logged ++ (info, codes "osdpmaster startup") ∷ [];
      })
unfolding set_up_log
set_up_log-appenders level ss c plain =
    rw
      (
        split-join (b':') (map item_text ss) (All-IsFree ss plain) (ends_full ss),
        add_items_lem ss (record c { priority = priority_of level }) plain,
      )
      refl
