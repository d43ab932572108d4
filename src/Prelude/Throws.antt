-- ===== src/Prelude/Throws.antt =====
-- Exceptions as values, and methods of an object as actions on its state. A throw keeps the
-- state that was reached, as a C++ throw does, so that what a handler undoes has to be proved.
use mathlib.Core.Bool.{Bool, true, false}
use cmarket.Prelude.Tests.{if◌then◌else◌}

-- The standard exception classes that the sources throw; their texts are not kept.
-- `undefined_behaviour` is an access outside a vector, `out_of_fuel` a loop that a model cut off.
pub data Error : Type 0 where
  invalid_argument overflow_error logic_error runtime_error out_of_range : Error
  undefined_behaviour out_of_fuel : Error

pub data Result {ℓ} (A : Type ℓ) : Type ℓ where
  ok : A → Result A
  err : Error → Result A

-- `std::invalid_argument` and its kin, thrown on a failed test.
abbrev pub throw_if : Bool → Error → Result (Unit {0})
throw_if c e = if c then err e else ok tt

-- Sequencing of computations that only return or throw.
abbrev pub and_then {ℓ κ} : {A : Type ℓ} {B : Type κ} → Result A → (A → Result B) → Result B
and_then (ok a) f = f a
and_then (err e) f = err e

abbrev pub Action : Type 0 → Type 0 → Type 0
Action S A = S → Result A × S

module _ {S A : Type 0} where
  abbrev pub pure : A → Action S A
  pure a s = (ok a, s)

  abbrev pub throw : Error → Action S A
  throw e s = (err e, s)

  abbrev pub gets : (S → A) → Action S A
  gets f s = (ok (f s), s)

  abbrev pub lift : Result A → Action S A
  lift r s = (r, s)

infixl 5 ◌>>=◌ ◌>>◌
abbrev pub ◌>>=◌ : {S A B : Type 0} → Action S A → (A → Action S B) → Action S B
◌>>=◌ m f s = let (r, s') = m s in elim r [ ok a ↦ f a s' | err e ↦ (err e, s') ]

abbrev pub ◌>>◌ : {S A B : Type 0} → Action S A → Action S B → Action S B
m >> k = m >>= λ _. k

abbrev pub modify : {S : Type 0} → (S → S) → Action S (Unit {0})
modify f s = (ok tt, f s)

abbrev pub when : {S : Type 0} → Bool → Action S (Unit {0}) → Action S (Unit {0})
when true m s = m s
when false m s = (ok tt, s)

-- `try { body } catch (...) { handler; throw; }`: what the handler throws replaces the exception.
abbrev pub rethrow_after : {S A : Type 0} → Error → Result (Unit {0}) × S → Result A × S
rethrow_after e (ok _, s) = (err e, s)
rethrow_after e (err e', s) = (err e', s)

abbrev pub on_throw : {S A : Type 0} → Action S A → Action S (Unit {0}) → Action S A
on_throw body handler s =
    let (r, s') = body s in elim r [ ok a ↦ (ok a, s') | err e ↦ rethrow_after e (handler s') ]
