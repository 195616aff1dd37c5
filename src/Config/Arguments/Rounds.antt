-- ===== src/Config/Arguments/Rounds.antt =====
-- `argv` in the loop of `main` over its arguments, round by round.
use osdpmaster.Prelude.{
  ℕ, suc, ◌+◌, ◌<◌, ◌≡◌, refl, sym, ap, ◌∙◌, true, false, List, [], ◌∷◌, ◌++◌, Option, none, some,
  ltb, length, length-append, get_elem?, get_elem?-middle, set, set-middle, map, append_assoc,
  Bytes, codes, same_text, ℤ, arith,
}
use osdpmaster.Run.{Run, ok, fault}
use osdpmaster.Config.Arguments.{Arguments, to_int, set_argument, arguments_loop}

-- `argv` in the loop: what has been kept, what has been copied from, what is still to come.
abbrev pub argv_of : List Bytes → List (Option Bytes) → List Bytes → List (Option Bytes)
argv_of done gap todo = map some done ++ (gap ++ (map some todo ++ none ∷ []))

length-map : (xs : List Bytes) → length (map {B = Option Bytes} some xs) ≡ length xs
length-map [] = refl
length-map (x ∷ xs) = omega (arith, length-map xs)

map-some-append :
    (xs ys : List Bytes) → map {B = Option Bytes} some (xs ++ ys) ≡ map some xs ++ map some ys
map-some-append [] ys = refl
map-some-append (x ∷ xs) ys = ap (◌∷◌ (some x)) (map-some-append xs ys)

-- The next text, behind what is kept and what has been copied from.
next_text :
    (done : List Bytes) (gap zs : List (Option Bytes)) (a : Option Bytes) (i : ℕ)
    → i ≡ length done + length gap
    → get_elem? (map some done ++ (gap ++ (a ∷ zs))) i ≡ some a
next_text done gap zs a i e =
    let size : i ≡ length (map {B = Option Bytes} some done ++ gap) =
      omega (arith, e, length-append (map {B = Option Bytes} some done) gap, length-map done) in
    rw (size, ← append_assoc (map {B = Option Bytes} some done) gap (a ∷ zs))
      (get_elem?-middle (map some done ++ gap) zs a)

-- A text is copied down behind those that are kept.
kept_longer :
    (done : List Bytes) (a : Bytes) (zs : List (Option Bytes))
    → map some done ++ (some a ∷ zs) ≡ map some (done ++ a ∷ []) ++ zs
kept_longer done a zs =
    sym (append_assoc (map some done) (some a ∷ []) zs)
    ∙ ap (λ t. t ++ zs) (sym (map-some-append done (a ∷ [])))

copied_down :
    (done : List Bytes) (gap zs : List (Option Bytes)) (a : Bytes)
    → (gap' : List (Option Bytes)) × (length gap' ≡ length gap)
      × (set (map some done ++ (gap ++ (some a ∷ zs))) (length done) (some a)
          ≡ map some (done ++ a ∷ []) ++ (gap' ++ zs))
copied_down done [] zs a = (
  [],
  refl,
  rw (← length-map done) (set-middle (map some done) zs (some a) (some a) ∙ kept_longer done a zs),
)
copied_down done (g ∷ gs) zs a = (
  gs ++ some a ∷ [],
  omega (arith, length-append gs (some a ∷ [])),
  rw (← length-map done) (
      set-middle (map some done) (gs ++ (some a ∷ zs)) g (some a)
      ∙ kept_longer done a (gs ++ (some a ∷ zs))
      ∙ ap (λ t. map some (done ++ a ∷ []) ++ t) (sym (append_assoc gs (some a ∷ []) zs))),
)

pub set_argument_lem :
    (i : ℕ) (v : Option Bytes) (a : Arguments)
    → i < length a.argv
    → set_argument i v a ≡ ok tt (record a { argv = set a.argv i v })
unfolding set_argument
set_argument_lem i v a inside = let e : ltb i (length a.argv) ≡ true = ground arith in rw e refl

pub length-argv_of :
    (done : List Bytes) (gap : List (Option Bytes)) (todo : List Bytes)
    → length (argv_of done gap todo) ≡ length done + length gap + length todo + 1
length-argv_of done gap todo = omega (
  arith,
  length-append (map {B = Option Bytes} some done) (gap ++ (map some todo ++ none ∷ [])),
  length-append gap (map some todo ++ none ∷ []),
  length-append (map {B = Option Bytes} some todo) (none ∷ []),
  length-map done,
  length-map todo,
)

-- An option is left out, with the text behind it.
option_gap :
    (done : List Bytes) (gap : List (Option Bytes)) (a n : Bytes) (todo : List Bytes)
    → argv_of done gap (a ∷ (n ∷ todo)) ≡ argv_of done (gap ++ (some a ∷ (some n ∷ []))) todo
option_gap done gap a n todo =
    ap (λ t. map some done ++ t)
      (sym (append_assoc gap (some a ∷ (some n ∷ [])) (map some todo ++ none ∷ [])))

-- The null pointer goes behind what is kept.
pub ended :
    (texts : List Bytes) (gap : List (Option Bytes))
    → (behind : List (Option Bytes)) × (set (argv_of texts gap []) (length texts) none
        ≡ map some texts ++ none ∷ behind)
ended texts [] = ([], rw (← length-map texts) (set-middle (map some texts) [] none none))
ended texts (g ∷ gs) = (
  gs ++ none ∷ [],
  rw (← length-map texts) (set-middle (map some texts) (gs ++ none ∷ []) g none),
)

-- libc's `strtol` in base 10.
module _ (strtol : Bytes → ℤ) where
  -- The loop where it stands in front of `todo`.
  abbrev pub loop_at : ℕ → List Bytes → List (Option Bytes) → List Bytes → ℕ → ℤ → Run Arguments ℕ
  loop_at fuel done gap todo argc baud =
      arguments_loop strtol fuel (length done + length gap) (length done)
        (record { argc = argc; argv = argv_of done gap todo; frombaud = baud })

  -- A text that is no option is copied.
  pub loop_other :
      (fuel argc : ℕ) (a : Bytes) (todo done : List Bytes) (gap : List (Option Bytes)) (baud : ℤ)
      → argc ≡ length done + length gap + suc (length todo)
      → same_text a (codes "-b") ≡ false
      → (gap' : List (Option Bytes)) × (length gap' ≡ length gap)
        × (loop_at (suc fuel) done gap (a ∷ todo) argc baud
            ≡ loop_at fuel (done ++ a ∷ []) gap' todo argc baud)
  unfolding arguments_loop
  loop_other fuel argc a todo done gap baud total other =
      let go : ltb (length done + length gap) argc ≡ true = ground arith in
      let zs = map {B = Option Bytes} some todo ++ none ∷ [] in
      let (gap', size, moved) = copied_down done gap zs a in
      let inside : length done < length (argv_of done gap (a ∷ todo)) =
        omega (arith, length-argv_of done gap (a ∷ todo)) in
      let out : length (done ++ a ∷ []) ≡ length done + 1 = length-append done (a ∷ []) in
      let at : length (done ++ a ∷ []) + length gap' ≡ length done + length gap + 1 =
        omega (arith, out, size) in
      (
        gap',
        size,
        rw
            (
              go,
              next_text done gap zs (some a) (length done + length gap) refl,
              other,
              set_argument_lem (length done) (some a)
                  (record { argc = argc; argv = argv_of done gap (a ∷ todo); frombaud = baud })
                  inside,
              moved,
              at,
              out,
            )
            refl,
      )

  pub loop_option :
      (fuel argc : ℕ) (a n : Bytes) (todo done : List Bytes) (gap : List (Option Bytes)) (baud : ℤ)
      → argc ≡ length done + length gap + suc (suc (length todo))
      → same_text a (codes "-b") ≡ true
      → loop_at (suc fuel) done gap (a ∷ (n ∷ todo)) argc baud
        ≡ loop_at fuel done (gap ++ (some a ∷ (some n ∷ []))) todo argc (to_int (strtol n))
  unfolding arguments_loop
  loop_option fuel argc a n todo done gap baud total is_option =
      let go : ltb (length done + length gap) argc ≡ true = ground arith in
      let zs = map {B = Option Bytes} some todo ++ none ∷ [] in
      let at : length done + length (gap ++ (some a ∷ (some n ∷ [])))
          ≡ length done + length gap + 2 =
        omega (arith, length-append gap (some a ∷ (some n ∷ []))) in
      let behind : get_elem? (argv_of done gap (a ∷ (n ∷ todo))) (length done + length gap + 1)
          ≡ some (some n) =
        ap (λ t. get_elem? t (length done + length gap + 1))
          (ap (λ t. map some done ++ t) (sym (append_assoc gap (some a ∷ []) (some n ∷ zs))))
        ∙ next_text done (gap ++ some a ∷ []) zs (some n) (length done + length gap + 1)
            (omega (arith, length-append gap (some a ∷ []))) in
      rw
        (
          go,
          next_text done gap (some n ∷ zs) (some a) (length done + length gap) refl,
          is_option,
          behind,
          at,
          option_gap done gap a n todo,
        )
        refl

  -- An option at the end has the null pointer behind it.
  pub loop_cut :
      (fuel argc : ℕ) (a : Bytes) (done : List Bytes) (gap : List (Option Bytes)) (baud : ℤ)
      → argc ≡ length done + length gap + 1
      → same_text a (codes "-b") ≡ true
      → loop_at (suc fuel) done gap (a ∷ []) argc baud ≡ fault
  unfolding arguments_loop
  loop_cut fuel argc a done gap baud total is_option =
      let go : ltb (length done + length gap) argc ≡ true = ground arith in
      let behind : get_elem? (argv_of done gap (a ∷ [])) (length done + length gap + 1)
          ≡ some none =
        ap (λ t. get_elem? t (length done + length gap + 1))
          (ap (λ t. map some done ++ t) (sym (append_assoc gap (some a ∷ []) (none ∷ []))))
        ∙ next_text done (gap ++ some a ∷ []) [] none (length done + length gap + 1)
            (omega (arith, length-append gap (some a ∷ []))) in
      rw
        (
          go,
          next_text done gap (none ∷ []) (some a) (length done + length gap) refl,
          is_option,
          behind,
        )
        refl
