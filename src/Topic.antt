-- ===== src/Topic.antt =====
-- split.h: a text cut at a separator, and joined again. A text is its bytes.
pub mod Join
use osdpmaster.Prelude.{
  ◌||◌, ltb, ℕ, zero, suc, ◌+◌, List, [], ◌∷◌, ◌++◌, Bool, true, false, ◌==◌, if◌then◌else◌, Bytes,
  length,
}

-- The bytes up to the next separator, as `find` and `substr` give them, and those behind it.
unfoldable pub part_of : ℕ → Bytes → Bytes
part_of sep [] = []
part_of sep (b ∷ bs) = let rest = part_of sep bs in if b == sep then [] else b ∷ rest

unfoldable pub behind_part : ℕ → Bytes → Bytes
behind_part sep [] = []
behind_part sep (b ∷ bs) = let rest = behind_part sep bs in if b == sep then bs else rest

-- The loop of `split`, with the text from `pos` on, and what follows it: all that is left where `count`
-- parts are cut. The loop has no other bound where `count` is 0.
unfoldable pub split_loop : ℕ → ℕ → ℕ → ℕ → Bytes → List Bytes
split_loop fuel sep count splitcount [] = []
split_loop zero sep count splitcount (b ∷ bs) = []
split_loop (suc fuel) sep count splitcount (b ∷ bs) =
    let more = split_loop fuel sep count (splitcount + 1) (behind_part sep (b ∷ bs)) in
    if count == 0 || ltb splitcount count then part_of sep (b ∷ bs) ∷ more else (b ∷ bs) ∷ []

unfoldable pub split : ℕ → ℕ → Bytes → List Bytes
split sep count text = split_loop (length text) sep count 0 text

-- `join`: nothing stands before the first part, and the separator before each other one.
unfoldable pub join_rest : ℕ → List Bytes → Bytes
join_rest sep [] = []
join_rest sep (p ∷ ps) = sep ∷ p ++ join_rest sep ps

unfoldable pub join : ℕ → List Bytes → Bytes
join sep [] = []
join sep (p ∷ ps) = p ++ join_rest sep ps
