-- ===== src/Base/Preservation.antt =====
-- Calls that leave a part of the state as it is.
use mathlib.Core.Path.{◌≡◌, refl, subst}
use mathlib.Core.Bool.{Bool, true, false}
use bourse_server.Base.Calls.{Outcome, done, blocked, fault, M, pure, and_then, ◌>>=◌, modify, get}
use bourse_server.Base.Tests.{if◌then◌else◌}

-- If the call has returned, the part `part` of the state is `c`.
abbrev pub IsKept : {S A I : Type 0} → (S → I) → I → Outcome S A → Type 0
IsKept part c (done a s) = part s ≡ c
IsKept part c (blocked s) = Unit {0}
IsKept part c fault = Unit {0}

pub record Keeps {S A I : Type 0} (part : S → I) (m : M S A) : Type 0 where
  pub kept : (s : S) → IsKept part (part s) (m s)

module _ {S I : Type 0} {part : S → I} where
  pub bind-Keeps :
      {A B : Type 0} {m : M S A} {k : A → M S B}
      → Keeps part m
      → ((a : A) → Keeps part (k a))
      → Keeps part (m >>= k)
  bind-Keeps {A} {B} {m} {k} first next = record { kept = λ s. go s (m s) (first.kept s) }
    where
      go : (s : S) (o : Outcome S A) → IsKept part (part s) o → IsKept part (part s) (and_then o k)
      go s (done a s') e = subst (λ c. IsKept part c (k a s')) e ((next a).kept s')
      go s (blocked s') e = tt
      go s fault e = tt

  pub if-Keeps :
      {A : Type 0} {m n : M S A} (b : Bool)
      → Keeps part m
      → Keeps part n
      → Keeps part (if b then m else n)
  if-Keeps true then_ok else_ok = then_ok
  if-Keeps false then_ok else_ok = else_ok

  pub pure-Keeps : {A : Type 0} {a : A} → Keeps part (pure a)
  pure-Keeps = record { kept = λ s. refl }

  pub get-Keeps : {A : Type 0} {f : S → A} → Keeps part (get f)
  get-Keeps = record { kept = λ s. refl }

  pub modify-Keeps : {f : S → S} → ((s : S) → part (f s) ≡ part s) → Keeps part (modify f)
  modify-Keeps same = record { kept = same }

  pub fault-Keeps : {A : Type 0} → Keeps {A = A} part (λ s. fault)
  fault-Keeps = record { kept = λ s. tt }

  pub blocked-Keeps : {A : Type 0} → Keeps {A = A} part (λ s. blocked s)
  blocked-Keeps = record { kept = λ s. tt }
