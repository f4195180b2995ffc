-- ===== src/Base/Monad.antt =====
-- What a stretch of C code does: it ends with a value and a new state, it follows a pointer that
-- leads nowhere (or reads past an array), or the fuel of one of its loops runs out.
use mathlib.Core.Option.{Option, none, some}

pub data Run {ℓ} (A : Type ℓ) : Type ℓ where
  ok : A → Run A
  fault : Run A
  out_of_fuel : Run A

-- A piece of code over the state `S`.
abbrev pub Code : Type 0 → Type 0 → Type 0
Code S A = S → Run (A × S)

abbrev pub and_then {ℓ κ} : {A : Type ℓ} {B : Type κ} → Run A → (A → Run B) → Run B
and_then (ok a) f = f a
and_then fault f = fault
and_then out_of_fuel f = out_of_fuel

abbrev pub pure : {S A : Type 0} → A → Code S A
pure a s = ok (a, s)

infixl 5 ◌>>=◌ ◌>>◌
abbrev pub ◌>>=◌ : {S A B : Type 0} → Code S A → (A → Code S B) → Code S B
◌>>=◌ m f s = and_then (m s) (λ r. f r.0 r.1)

abbrev pub ◌>>◌ : {S B : Type 0} → Code S (Unit {0}) → Code S B → Code S B
m >> k = m >>= λ _. k

abbrev pub get : {S : Type 0} → Code S S
get s = ok (s, s)

abbrev pub put : {S : Type 0} → S → Code S (Unit {0})
put s _ = ok (tt, s)

abbrev pub crash : {S A : Type 0} → Code S A
crash _ = fault

-- A value that is missing is a fault.
abbrev pub or_fault : {S A : Type 0} → Option A → Code S A
or_fault none s = fault
or_fault (some a) s = ok (a, s)
