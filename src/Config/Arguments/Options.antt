-- ===== src/Config/Arguments/Options.antt =====
-- What is left of the arguments of `main`.
use osdpmaster.Prelude.{
  ℕ, zero, suc, ◌+◌, ◌≤◌, ◌<◌, ◌≡◌, refl, ap, ◌∙◌, false, List, [], ◌∷◌, ◌++◌, Option, none, some,
  ltb, if◌then◌else◌, length, length-append, append-nil, map, append_assoc, Bytes, codes, same_text,
  ℤ, negsuc, arith, Bool-cases, inl, inr,
}
use osdpmaster.Run.{Run, ok, fault, and_then}
use osdpmaster.Config.Arguments.{
  Arguments, called, to_int, set_argument, arguments_loop, take_options,
}
use osdpmaster.Config.Arguments.Rounds.{
  argv_of, length-argv_of, set_argument_lem, ended, loop_at, loop_other, loop_option, loop_cut,
}

-- The texts that are no options, in their order, and the number of the last option; none where an option
-- has no text behind it.
abbrev with_kept : Bytes → Option (List Bytes × ℤ) → Option (List Bytes × ℤ)
with_kept text none = none
with_kept text (some (kept, baud)) = some (text ∷ kept, baud)

module _ (strtol : Bytes → ℤ) where
  unfoldable pub options : List Bytes → ℤ → Option (List Bytes × ℤ)
  options [] baud = some ([], baud)
  options (a ∷ []) baud = if same_text a (codes "-b") then none else some (a ∷ [], baud)
  options (a ∷ (n ∷ rest)) baud =
      let behind = options rest (to_int (strtol n)) in
      let others = options (n ∷ rest) baud in
      if same_text a (codes "-b") then behind else with_kept a others

  abbrev Looped : List Bytes → Option (List Bytes × ℤ) → ℕ → Run Arguments ℕ → Type 0
  Looped done none argc r = r ≡ fault
  Looped done (some (kept, baud)) argc r =
      (gap : List (Option Bytes)) × (r
        ≡ ok (length done + length kept)
            (record { argc = argc; argv = argv_of (done ++ kept) gap []; frombaud = baud }))

  -- The outcome for the texts behind one that is kept.
  Looped-with_kept :
      (done : List Bytes) (a : Bytes) (o : Option (List Bytes × ℤ)) (argc : ℕ) (r : Run Arguments ℕ)
      → Looped (done ++ a ∷ []) o argc r
      → Looped done (with_kept a o) argc r
  Looped-with_kept done a none argc r h = h
  Looped-with_kept done a (some (kept, baud)) argc r (gap, e) =
      let size : length (done ++ a ∷ []) + length kept ≡ length done + length (a ∷ kept) =
        omega (arith, length-append done (a ∷ [])) in
      let same : (done ++ a ∷ []) ++ kept ≡ done ++ a ∷ kept = append_assoc done (a ∷ []) kept in
      (gap, e ∙ rw (size, same) refl)

  loop_end :
      (fuel argc : ℕ) (done : List Bytes) (gap : List (Option Bytes)) (baud : ℤ)
      → argc ≡ length done + length gap
      → Looped done (some ([], baud)) argc (loop_at strtol fuel done gap [] argc baud)
  unfolding arguments_loop
  loop_end zero argc done gap baud total =
      let stop : ltb (length done + length gap) argc ≡ false = ground arith in
      (
        gap,
        rw (stop, append-nil done)
            (ap (λ n. ok n (record { argc = argc; argv = argv_of done gap []; frombaud = baud }))
              (omega arith)),
      )
  loop_end (suc fuel) argc done gap baud total =
      let stop : ltb (length done + length gap) argc ≡ false = ground arith in
      (
        gap,
        rw (stop, append-nil done)
            (ap (λ n. ok n (record { argc = argc; argv = argv_of done gap []; frombaud = baud }))
              (omega arith)),
      )

  arguments_loop-Looped :
      (fuel : ℕ) (todo done : List Bytes) (gap : List (Option Bytes)) (argc : ℕ) (baud : ℤ)
      → length todo ≤ fuel
      → argc ≡ length done + length gap + length todo
      → Looped done (options todo baud) argc (loop_at strtol fuel done gap todo argc baud)
  unfolding options
  arguments_loop-Looped fuel [] done gap argc baud enough total =
      loop_end fuel argc done gap baud (omega arith)
  arguments_loop-Looped zero (a ∷ todo) done gap argc baud enough total = absurd (omega arith)
  arguments_loop-Looped (suc fuel) (a ∷ []) done gap argc baud enough total =
      elim (Bool-cases (same_text a (codes "-b"))) [
        | inl is_option ↦ rw is_option (loop_cut strtol fuel argc a done gap baud total is_option)
        | inr other ↦
            let (gap', size, e) = loop_other strtol fuel argc a [] done gap baud total other in
            rw (other, e)
              (Looped-with_kept done a (some ([], baud)) argc _ (
                loop_end fuel argc (done ++ a ∷ []) gap' baud
                  (omega (arith, size, length-append done (a ∷ [])))))
      ]
  arguments_loop-Looped (suc fuel) (a ∷ (n ∷ todo)) done gap argc baud enough total =
      elim (Bool-cases (same_text a (codes "-b"))) [
        | inl is_option ↦
            rw
              (
                is_option,
                loop_option strtol fuel argc a n todo done gap baud (omega arith) is_option,
              )
              (arguments_loop-Looped fuel todo done (gap ++ (some a ∷ (some n ∷ []))) argc
                (to_int (strtol n)) (omega arith)
                (omega (arith, length-append gap (some a ∷ (some n ∷ [])))))
        | inr other ↦
            let (gap', size, e) =
              loop_other strtol fuel argc a (n ∷ todo) done gap baud (omega arith) other in
            rw (other, e)
              (Looped-with_kept done a (options (n ∷ todo) baud) argc _ (
                arguments_loop-Looped fuel (n ∷ todo) (done ++ a ∷ []) gap' argc baud (omega arith)
                  (omega (arith, size, length-append done (a ∷ [])))))
      ]

  -- What `main` makes of its arguments.
  abbrev pub Taken : Bytes → Option (List Bytes × ℤ) → Run Arguments (Unit {0}) → Type 0
  Taken name none r = r ≡ fault
  Taken name (some (kept, baud)) r =
      (behind : List (Option Bytes)) × (r
        ≡ ok tt (record {
          argc = length (name ∷ kept);
          argv = map some (name ∷ kept) ++ none ∷ behind;
          frombaud = baud;
        }))

  ended-Taken :
      (name : Bytes) (o : Option (List Bytes × ℤ)) (argc : ℕ) (r : Run Arguments ℕ)
      → Looped (name ∷ []) o argc r
      → Taken name o (
          and_then r (λ outarg b.
            and_then (set_argument outarg none b) (λ u c. ok tt (record c { argc = outarg }))))
  ended-Taken name none argc r h = rw h refl
  ended-Taken name (some (kept, baud)) argc r (gap, e) =
      let texts = name ∷ kept in
      let inside : length texts < length (argv_of texts gap []) =
        omega (arith, length-argv_of texts gap []) in
      let one : length (name ∷ []) + length kept ≡ length texts = omega arith in
      let (behind, last) = ended texts gap in
      (
        behind,
        rw
            (
              e,
              one,
              set_argument_lem (length texts) none
                  (record { argc = argc; argv = argv_of texts gap []; frombaud = baud }) inside,
              last,
            )
            refl,
      )

  -- The loop of `main` over its arguments, which moves them down within `argv` by two indices, does what
  -- `options` says of the texts behind the name of the program: an option `-b` is taken out with the text
  -- behind it, of which the number is that of the last option, or -1 where there is none; the other texts
  -- stay in their order, with the null pointer behind them, and are counted. Exactly where an option is
  -- the last text that is left, the null pointer behind it is read as a text, which is undefined.
  pub take_options-Taken :
      (name : Bytes) (texts : List Bytes)
      → Taken name (options texts (negsuc 0)) (take_options strtol (called (name ∷ texts)))
  unfolding take_options
  take_options-Taken name texts =
      ended-Taken name (options texts (negsuc 0)) (suc (length texts)) _ (
        arguments_loop-Looped (suc (length texts)) texts (name ∷ []) [] (suc (length texts))
          (negsuc 0) (omega arith) (omega arith))
