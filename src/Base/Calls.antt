-- ===== src/Base/Calls.antt =====
-- What a call of a C function comes to, and the sequencing of calls over a state.
use mathlib.Core.Bool.{Bool, true, false}

-- `done` is a return. `blocked` is a call that waits, in the state in which it waits: on a
-- semaphore that is 0 or on a mutex that another thread owns. `fault` is undefined behaviour:
-- an access to memory that is not allocated.
pub data Outcome (S A : Type 0) : Type 0 where
  done : A → S → Outcome S A
  blocked : S → Outcome S A
  fault : Outcome S A

abbrev pub M : Type 0 → Type 0 → Type 0
M S A = S → Outcome S A

abbrev pub pure : {S A : Type 0} → A → M S A
pure a s = done a s

abbrev pub and_then : {S A B : Type 0} → Outcome S A → (A → M S B) → Outcome S B
and_then (done a s) k = k a s
and_then (blocked s) k = blocked s
and_then fault k = fault

infixl 5 ◌>>=◌ ◌>>◌
abbrev pub ◌>>=◌ : {S A B : Type 0} → M S A → (A → M S B) → M S B
m >>= k = λ s. and_then (m s) k

abbrev pub ◌>>◌ : {S A B : Type 0} → M S A → M S B → M S B
m >> n = m >>= λ _. n

-- An assignment to the state.
abbrev pub modify : {S : Type 0} → (S → S) → M S (Unit {0})
modify f s = done tt (f s)

abbrev pub get : {S A : Type 0} → (S → A) → M S A
get f s = done (f s) s

-- `if (c) m;`
abbrev pub when : {S : Type 0} → Bool → M S (Unit {0}) → M S (Unit {0})
when true m = m
when false m = pure tt
