-- ===== src/Base/Results.antt =====
-- Outcomes of code whose loops may not end and whose memory accesses may be out of range.
use Prim.Native.Nat.{ℕ}

-- `out_of_bounds` is an access outside an array (undefined behaviour), `length_error` the exception
-- of `std::string(p, n)` for a huge `n`, `deadlock_error` that of a mutex locked twice, `null_pointer`
-- a member of an object that is not there, and `not_owner` the unlocking of a mutex that the thread does
-- not hold (both undefined behaviour).
pub data Fault : Type 0 where
  out_of_bounds length_error deadlock_error null_pointer not_owner : Fault

-- `stuck` is no result of the program: the fuel of a `while` loop has run out.
pub data Outcome {ℓ} (A : Type ℓ) : Type ℓ where
  ok : A → Outcome A
  err : Fault → Outcome A
  stuck : Outcome A

infixl 5 ◌>>=◌
abbrev pub ◌>>=◌ {ℓ κ} : {A : Type ℓ} {B : Type κ} → Outcome A → (A → Outcome B) → Outcome B
ok a >>= f = f a
err e >>= f = err e
stuck >>= f = stuck

-- What code that can call `exit` does: it goes on, or ends the process with a status.
pub data Ends {ℓ} (A : Type ℓ) : Type ℓ where
  goes_on : A → Ends A
  exits : ℕ → Ends A

infixl 5 ◌>>>◌
abbrev pub ◌>>>◌ {ℓ κ} : {A : Type ℓ} {B : Type κ} → Ends A → (A → Ends B) → Ends B
goes_on a >>> f = f a
exits status >>> f = exits status
