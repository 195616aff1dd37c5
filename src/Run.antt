-- ===== src/Run.antt =====
-- Runs of stateful code: a command takes a state, and returns, throws, waits for input that its
-- script of the outside world does not hold, or does something that C++ leaves undefined.
use osdpmaster.Prelude.{Bool, true, false, ◌≡◌, refl, ◌⊎◌, inl, inr}

-- The texts that a `protocol_exception` is thrown with, and the exception of a library, `flag_missing`.
pub data Failure : Type 0 where
  open_failed settings_unread unknown_flow unsupported_parity unsupported_bits : Failure
  unsupported_stop serial_unread divisor_refused speed_refused settings_failed : Failure
  rs485_refused flush_failed read_failed write_failed flag_missing no_port_name : Failure

pub data Run (S A : Type 0) : Type 0 where
  ok : A → S → Run S A
  throw : Failure → S → Run S A
  starved : Run S A
  fault : Run S A
  out_of_fuel : Run S A

abbrev pub Cmd : Type 0 → Type 0 → Type 0
Cmd S A = S → Run S A

abbrev pub pure : {S A : Type 0} → A → Cmd S A
pure = ok

abbrev pub and_then : {S A B : Type 0} → Run S A → (A → Cmd S B) → Run S B
and_then (ok a s) k = k a s
and_then (throw e s) k = throw e s
and_then starved k = starved
and_then fault k = fault
and_then out_of_fuel k = out_of_fuel

infixl 5 ◌>>=◌ ◌>>◌
abbrev pub ◌>>=◌ : {S A B : Type 0} → Cmd S A → (A → Cmd S B) → Cmd S B
m >>= k = λ s. and_then (m s) k

abbrev pub ◌>>◌ : {S B : Type 0} → Cmd S (Unit {0}) → Cmd S B → Cmd S B
m >> k = m >>= λ _. k

-- The state itself, and an update of it.
abbrev pub get : {S : Type 0} → Cmd S S
get s = ok s s

abbrev pub modify : {S : Type 0} → (S → S) → Cmd S (Unit {0})
modify f s = ok tt (f s)

-- `try` and `catch` of a `protocol_exception`.
abbrev pub catch : {S A : Type 0} → Run S A → (Failure → Cmd S A) → Run S A
catch (ok a s) k = ok a s
catch (throw e s) k = k e s
catch starved k = starved
catch fault k = fault
catch out_of_fuel k = out_of_fuel

abbrev pub undefined_unless : {S : Type 0} → Bool → Cmd S (Unit {0})
undefined_unless true s = ok tt s
undefined_unless false s = fault

-- A command on a part of the state.
abbrev pub from_part : {S T A : Type 0} → (S → T) → Run S A → Run T A
from_part whole (ok a s) = ok a (whole s)
from_part whole (throw e s) = throw e (whole s)
from_part whole starved = starved
from_part whole fault = fault
from_part whole out_of_fuel = out_of_fuel

abbrev pub within : {S T A : Type 0} → (T → S) → (S → T → T) → Cmd S A → Cmd T A
within part with_part m t = from_part (λ s. with_part s t) (m (part t))

-- A run that stays defined and has fuel, with a postcondition where it returns.
abbrev pub Safe : {S A : Type 0} → (A → S → Type 0) → Run S A → Type 0
Safe Q (ok a s) = Q a s
Safe Q (throw e s) = Unit {0}
Safe Q starved = Unit {0}
Safe Q fault = ⊥
Safe Q out_of_fuel = ⊥

pub Safe-and_then :
    {S A B : Type 0} (Q : A → S → Type 0) (R : B → S → Type 0) (r : Run S A) (k : A → Cmd S B)
    → Safe Q r
    → ((a : A) (s : S) → Q a s → Safe R (k a s))
    → Safe R (and_then r k)
Safe-and_then Q R (ok a s) k h next = next a s h
Safe-and_then Q R (throw e s) k h next = tt
Safe-and_then Q R starved k h next = tt
Safe-and_then Q R fault k h next = h
Safe-and_then Q R out_of_fuel k h next = h

pub Safe-mono :
    {S A : Type 0} (Q R : A → S → Type 0) (r : Run S A)
    → Safe Q r
    → ((a : A) (s : S) → Q a s → R a s)
    → Safe R r
Safe-mono Q R (ok a s) h imp = imp a s h
Safe-mono Q R (throw e s) h imp = tt
Safe-mono Q R starved h imp = tt
Safe-mono Q R fault h imp = h
Safe-mono Q R out_of_fuel h imp = h

pub Safe-both :
    {S A : Type 0} (Q R : A → S → Type 0) (r : Run S A)
    → Safe Q r
    → Safe R r
    → Safe (λ a s. Q a s × R a s) r
Safe-both Q R (ok a s) h k = (h, k)
Safe-both Q R (throw e s) h k = tt
Safe-both Q R starved h k = tt
Safe-both Q R fault h k = h
Safe-both Q R out_of_fuel h k = h

-- A run that returns or throws, with a postcondition for each.
abbrev pub Ends : {S A : Type 0} → (A → S → Type 0) → (Failure → S → Type 0) → Run S A → Type 0
Ends Q E (ok a s) = Q a s
Ends Q E (throw e s) = E e s
Ends Q E starved = ⊥
Ends Q E fault = ⊥
Ends Q E out_of_fuel = ⊥

pub Ends-and_then :
    {S A B : Type 0} (Q : A → S → Type 0) (R : B → S → Type 0) (E : Failure → S → Type 0)
    (r : Run S A) (k : A → Cmd S B)
    → Ends Q E r
    → ((a : A) (s : S) → Q a s → Ends R E (k a s))
    → Ends R E (and_then r k)
Ends-and_then Q R E (ok a s) k h next = next a s h
Ends-and_then Q R E (throw e s) k h next = h
Ends-and_then Q R E starved k h next = h
Ends-and_then Q R E fault k h next = h
Ends-and_then Q R E out_of_fuel k h next = h

pub Ends-mono :
    {S A : Type 0} (Q R : A → S → Type 0) (E F : Failure → S → Type 0) (r : Run S A)
    → Ends Q E r
    → ((a : A) (s : S) → Q a s → R a s)
    → ((e : Failure) (s : S) → E e s → F e s)
    → Ends R F r
Ends-mono Q R E F (ok a s) h good bad = good a s h
Ends-mono Q R E F (throw e s) h good bad = bad e s h
Ends-mono Q R E F starved h good bad = h
Ends-mono Q R E F fault h good bad = h
Ends-mono Q R E F out_of_fuel h good bad = h

pub Ends-cases :
    {S A : Type 0} (Q : A → S → Type 0) (E : Failure → S → Type 0) (r : Run S A)
    → Ends Q E r
    → ((a : A) × (s : S) × (r ≡ ok a s) × Q a s)
      ⊎ ((e : Failure) × (s : S) × (r ≡ throw e s) × E e s)
Ends-cases Q E (ok a s) h = inl (a, s, refl, h)
Ends-cases Q E (throw e s) h = inr (e, s, refl, h)
Ends-cases Q E starved h = absurd h
Ends-cases Q E fault h = absurd h
Ends-cases Q E out_of_fuel h = absurd h

-- What holds of the state however a run leaves it, by a result or by an exception.
abbrev pub Keeps : {S A : Type 0} → (S → Type 0) → Run S A → Type 0
Keeps P (ok a s) = P s
Keeps P (throw e s) = P s
Keeps P starved = Unit {0}
Keeps P fault = Unit {0}
Keeps P out_of_fuel = Unit {0}

pub Keeps-and_then :
    {S A B : Type 0} (P : S → Type 0) (r : Run S A) (k : A → Cmd S B)
    → Keeps P r
    → ((a : A) (s : S) → P s → Keeps P (k a s))
    → Keeps P (and_then r k)
Keeps-and_then P (ok a s) k h next = next a s h
Keeps-and_then P (throw e s) k h next = h
Keeps-and_then P starved k h next = h
Keeps-and_then P fault k h next = h
Keeps-and_then P out_of_fuel k h next = h

pub Keeps-catch :
    {S A : Type 0} (P : S → Type 0) (r : Run S A) (k : Failure → Cmd S A)
    → Keeps P r
    → ((e : Failure) (s : S) → P s → Keeps P (k e s))
    → Keeps P (catch r k)
Keeps-catch P (ok a s) k h next = h
Keeps-catch P (throw e s) k h next = next e s h
Keeps-catch P starved k h next = h
Keeps-catch P fault k h next = h
Keeps-catch P out_of_fuel k h next = h

pub Keeps-ok :
    {S A : Type 0} (P : S → Type 0) (r : Run S A) (a : A) (s : S) → Keeps P r → r ≡ ok a s → P s
Keeps-ok P (ok a s) b t h e = let same : s ≡ t = cc in rw (← same) h
Keeps-ok P (throw f s) b t h e = cc
Keeps-ok P starved b t h e = cc
Keeps-ok P fault b t h e = cc
Keeps-ok P out_of_fuel b t h e = cc

-- A run without undefined behaviour that keeps a property of the state, by a result or by an
-- exception; `fuel` is what is known where it runs out of fuel, so `⊥` says that it does not.
abbrev pub Stays : {S A : Type 0} → Type 0 → (S → Type 0) → Run S A → Type 0
Stays fuel P (ok a s) = P s
Stays fuel P (throw e s) = P s
Stays fuel P starved = Unit {0}
Stays fuel P fault = ⊥
Stays fuel P out_of_fuel = fuel

pub Stays-and_then :
    {S A B : Type 0} (fuel : Type 0) (P : S → Type 0) (r : Run S A) (k : A → Cmd S B)
    → Stays fuel P r
    → ((a : A) (s : S) → P s → Stays fuel P (k a s))
    → Stays fuel P (and_then r k)
Stays-and_then fuel P (ok a s) k h next = next a s h
Stays-and_then fuel P (throw e s) k h next = h
Stays-and_then fuel P starved k h next = h
Stays-and_then fuel P fault k h next = h
Stays-and_then fuel P out_of_fuel k h next = h

pub Stays-catch :
    {S A : Type 0} (fuel : Type 0) (P : S → Type 0) (r : Run S A) (k : Failure → Cmd S A)
    → Stays fuel P r
    → ((e : Failure) (s : S) → P s → Stays fuel P (k e s))
    → Stays fuel P (catch r k)
Stays-catch fuel P (ok a s) k h next = h
Stays-catch fuel P (throw e s) k h next = next e s h
Stays-catch fuel P starved k h next = h
Stays-catch fuel P fault k h next = h
Stays-catch fuel P out_of_fuel k h next = h

pub Stays-mono :
    {S A : Type 0} (fuel enough : Type 0) (P Q : S → Type 0) (r : Run S A)
    → Stays fuel P r
    → (fuel → enough)
    → ((s : S) → P s → Q s)
    → Stays enough Q r
Stays-mono fuel enough P Q (ok a s) h more imp = imp s h
Stays-mono fuel enough P Q (throw e s) h more imp = imp s h
Stays-mono fuel enough P Q starved h more imp = h
Stays-mono fuel enough P Q fault h more imp = h
Stays-mono fuel enough P Q out_of_fuel h more imp = more h

-- What is safe and keeps a property stays defined with it.
pub Safe-Stays :
    {S A : Type 0} (Q : A → S → Type 0) (P : S → Type 0) (r : Run S A)
    → Safe Q r
    → Keeps P r
    → Stays ⊥ P r
Safe-Stays Q P (ok a s) h k = k
Safe-Stays Q P (throw e s) h k = k
Safe-Stays Q P starved h k = h
Safe-Stays Q P fault h k = h
Safe-Stays Q P out_of_fuel h k = h
