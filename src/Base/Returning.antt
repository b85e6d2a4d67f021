-- ===== src/Base/Returning.antt =====
-- What every return of a call satisfies, whether or not it returns.
use mathlib.Core.Path.{◌≡◌, refl, subst}
use mathlib.Core.Bool.{Bool, true, false}
use bourse_server.Base.Calls.{M, Outcome, done, blocked, fault, and_then}
use bourse_server.Base.Tests.{if◌then◌else◌}

-- Whatever a call returns has the property.
abbrev pub Returns : {S A : Type 0} → (A → Type 0) → Outcome S A → Type 0
Returns P (done a s) = P a
Returns P (blocked s) = Unit {0}
Returns P fault = Unit {0}

pub and_then-Returns :
    {S A B : Type 0} (P : B → Type 0) (o : Outcome S A) (k : A → M S B)
    → ((a : A) (s : S) → Returns P (k a s))
    → Returns P (and_then o k)
and_then-Returns P (done a s) k h = h a s
and_then-Returns P (blocked s) k h = tt
and_then-Returns P fault k h = tt

-- The same with what is known of the first result.
pub next-Returns :
    {S A B : Type 0} (Q : A → Type 0) (P : B → Type 0) (o : Outcome S A) (k : A → M S B)
    → Returns Q o
    → ((a : A) (s : S) → Q a → Returns P (k a s))
    → Returns P (and_then o k)
next-Returns Q P (done a s) k q h = h a s q
next-Returns Q P (blocked s) k q h = tt
next-Returns Q P fault k q h = tt

pub done_state :
    {S A : Type 0} {a b : A} {s s' : S} → ◌≡◌ {A = Outcome S A} (done a s) (done b s') → s ≡ s'
done_state e = cc

pub if-Returns :
    {S A : Type 0} (P : A → Type 0) (b : Bool) (m n : M S A) (s : S)
    → (b ≡ true → Returns P (m s))
    → (b ≡ false → Returns P (n s))
    → Returns P ((if b then m else n) s)
if-Returns P true m n s h k = h refl
if-Returns P false m n s h k = k refl

pub Returns-done :
    {S A : Type 0} (P : A → Type 0) {o : Outcome S A} {a : A} {s : S}
    → Returns P o
    → o ≡ done a s
    → P a
Returns-done P h e = subst (Returns P) e h
