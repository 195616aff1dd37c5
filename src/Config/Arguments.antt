-- ===== src/Config/Arguments.antt =====
-- The arguments of `main` in osdpmaster.cpp: the options are taken out of `argv`, in place.
pub mod Rounds
pub mod Options
use osdpmaster.Prelude.{
  ℕ, zero, suc, ◌+◌, ◌-◌, ◌%◌, ◌^◌, Bool, true, false, List, [], ◌∷◌, ◌++◌, Option, none, some, ltb,
  if◌then◌else◌, length, get_elem?, set, map, Bytes, codes, same_text, ℤ, pos, negsuc,
}
use osdpmaster.Run.{Run, Cmd, ok, fault, out_of_fuel, and_then, modify}

-- `argv` with the null pointer behind its `argc` texts, and what the option gives.
pub record Arguments : Type 0 where
  pub argc : ℕ
  pub argv : List (Option Bytes)
  pub frombaud : ℤ

-- A long in an int of 32 bits.
abbrev pub signed : ℕ → ℤ
signed n = if ltb n (2 ^ 31) then pos n else negsuc (2 ^ 32 - n - 1)

abbrev pub to_int : ℤ → ℤ
to_int (pos n) = signed (n % 2 ^ 32)
to_int (negsuc n) = signed (2 ^ 32 - 1 - n % 2 ^ 32)

-- What `main` is called with, and its `frombaud = -1`.
abbrev pub called : List Bytes → Arguments
called texts = record {
  argc = length texts;
  argv = map some texts ++ none ∷ [];
  frombaud = negsuc 0;
}

-- A text of `argv`; a null pointer must not be read, nor what lies behind the array.
abbrev pub with_text :
    {A : Type 0} → Option (Option Bytes) → (Bytes → Cmd Arguments A) → Cmd Arguments A
with_text none k a = fault
with_text (some none) k a = fault
with_text (some (some text)) k a = k text a

-- `argv[i] = v`
unfoldable pub set_argument : ℕ → Option Bytes → Cmd Arguments (Unit {0})
set_argument i v a =
    if ltb i (length a.argv) then ok tt (record a { argv = set a.argv i v }) else fault

-- libc's `strtol` in base 10.
module _ (strtol : Bytes → ℤ) where
  -- The loop, with its `inarg` and `outarg`; the result is the last `outarg`.
  unfoldable pub arguments_loop : ℕ → ℕ → ℕ → Cmd Arguments ℕ
  arguments_loop zero inarg outarg a = if ltb inarg a.argc then out_of_fuel else ok outarg a
  arguments_loop (suc fuel) inarg outarg a =
      let option =
        with_text (get_elem? a.argv (inarg + 1))
          (λ text b.
            arguments_loop fuel (inarg + 2) outarg (record b { frombaud = to_int (strtol text) }))
          a in
      let other = λ (text : Bytes).
        and_then (set_argument outarg (some text) a)
          (λ u. arguments_loop fuel (inarg + 1) (outarg + 1)) in
      let round =
        with_text (get_elem? a.argv inarg)
          (λ text b. if same_text text (codes "-b") then option else other text) a in
      if ltb inarg a.argc then round else ok outarg a

  unfoldable pub take_options : Cmd Arguments (Unit {0})
  take_options a = and_then (arguments_loop a.argc 1 1 a) (λ outarg b.
      and_then (set_argument outarg none b) (λ u c. ok tt (record c { argc = outarg })))
