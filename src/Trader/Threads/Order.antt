-- ===== src/Trader/Threads/Order.antt =====
-- src/trader.c: who has the mutex of a trader, and what it knows of the balance.
use bourse_server.Base.{
  move, move_self, move_ne, ℕ, ◌+◌, ◌-◌, ◌%◌, ◌^◌, ◌≤◌, ◌<◌, ◌≡◌, ◌==◌, ==_iff, refl, sym, ◌∙◌, ap,
  subst, inl, inr, false, Option, some, List, [], ◌∷◌, ◌++◌, ℤ, pos, minus_one, arith, Bool-cases,
  leb, if◌then◌else◌,
}
use bourse_server.Trader.Store.{Mutex, free, held, lock_mutex, unlock_mutex}
use bourse_server.Trader.Threads.Steps.{
  Change, increase, decrease, Counter, outside, testing, adding, taking, writing, leaving, Shared,
  Effect, at_counter, Step, lock_increase, lock_decrease, covered, short, read_adding, read_taking,
  write, unlock, Run, stop, step,
}

-- What a call by itself makes of a balance, and what it returns.
abbrev pub behind : Change → ℕ → ℕ
behind (increase n) b = (b + n) % 2 ^ 32
behind (decrease n) b = if leb n b then b - n else b

abbrev pub due : Change → ℕ → ℤ
due (increase n) b = pos 0
due (decrease n) b = if leb n b then pos 0 else minus_one

-- The calls one behind the other, from a balance to a balance.
abbrev pub Serial : ℕ → List Effect → ℕ → Type 0
Serial b [] b' = b' ≡ b
Serial b (e ∷ es) b' = (e.result ≡ due e.change b) × Serial (behind e.change b) es b'

-- What the thread that has the mutex knows of the balance.
abbrev pub Knows : Counter → ℕ → Type 0
Knows outside b = ⊥
Knows (testing n) b = Unit {0}
Knows (adding n) b = Unit {0}
Knows (taking n) b = n ≤ b
Knows (writing c new) b = (new ≡ behind c b) × (due c b ≡ pos 0)
Knows (leaving r) b = Unit {0}

-- The mutex is free and nobody is inside, or one thread has it, once, and everyone else is outside.
pub data Owner (s : Shared) : Type 0 where
  nobody : s.trader_mutex ≡ free → ((i : ℕ) → s.threads i ≡ outside) → Owner s
  one :
      (o : ℕ)
      → s.trader_mutex ≡ held o 0
      → Knows (s.threads o) s.balance
      → ((i : ℕ) → (i == o) ≡ false → s.threads i ≡ outside)
      → Owner s

pub record IsOrderly (s : Shared) : Type 0 where
  pub fits : s.balance < 2 ^ 32
  pub owner : Owner s

abbrev IsInside : Counter → Type 0
IsInside outside = ⊥
IsInside (testing n) = Unit {0}
IsInside (adding n) = Unit {0}
IsInside (taking n) = Unit {0}
IsInside (writing c new) = Unit {0}
IsInside (leaving r) = Unit {0}

module _ (me : ℕ) where
  -- A thread that is inside is the one that has the mutex.
  record Inside (s : Shared) : Type 0 where
    has : s.trader_mutex ≡ held me 0
    knows : Knows (s.threads me) s.balance
    alone : (i : ℕ) → (i == me) ≡ false → s.threads i ≡ outside

  inside_lem : (s : Shared) (c : Counter) → IsOrderly s → s.threads me ≡ c → IsInside c → Inside s
  inside_lem s c ok here inside = go ok.owner
    where
      go : Owner s → Inside s
      go (nobody unlocked all) = absurd (subst IsInside (sym here ∙ all me) inside)
      go (one o has knows alone) = elim (Bool-cases (me == o)) [
        | inl same ↦
            subst
              (λ x.
                (s.trader_mutex ≡ held x 0)
                → Knows (s.threads x) s.balance
                → ((i : ℕ) → (i == x) ≡ false → s.threads i ≡ outside)
                → Inside s)
              ((==_iff me o).0 same) (λ a b c. record { has = a; knows = b; alone = c }) has knows
              alone
        | inr other ↦ absurd (subst IsInside (sym here ∙ alone me other) inside)
      ]

  known : (s : Shared) (c : Counter) → s.threads me ≡ c → Inside s → Knows c s.balance
  known s c here i = subst (λ x. Knows x s.balance) here i.knows

  -- The thread goes on inside.
  goes_on :
      (s : Shared) (c : Counter) (b : ℕ)
      → Inside s
      → b < 2 ^ 32
      → Knows c b
      → IsOrderly (at_counter (record s { balance = b }) me c)
  goes_on s c b i fits knows = record {
    fits = fits;
    owner =
        one me i.has (subst (λ x. Knows x b) (sym (move_self me s.threads c)) knows)
          (λ j other. move_ne me s.threads c j other ∙ i.alone j other);
  }

  -- The thread comes in.
  comes_in :
      (s : Shared) (m : Mutex) (c : Counter)
      → IsOrderly s
      → s.threads me ≡ outside
      → lock_mutex me s.trader_mutex ≡ some m
      → Knows c s.balance
      → IsOrderly (at_counter (record s { trader_mutex = m }) me c)
  comes_in s m c ok out locks knows = go ok.owner
    where
      some_inj : {a b : Mutex} → ◌≡◌ {A = Option Mutex} (some a) (some b) → a ≡ b
      some_inj e = cc

      go : Owner s → IsOrderly (at_counter (record s { trader_mutex = m }) me c)
      go (nobody unlocked all) = record {
        fits = ok.fits;
        owner =
            one me (sym (some_inj (ap (lock_mutex me) (sym unlocked) ∙ locks)))
              (subst (λ x. Knows x s.balance) (sym (move_self me s.threads c)) knows)
              (λ j other. move_ne me s.threads c j other ∙ all j);
      }
      go (one o has inside alone) = elim (Bool-cases (o == me)) [
        | inl same ↦
            absurd
              (subst (λ x. Knows x s.balance) (ap s.threads ((==_iff o me).0 same) ∙ out) inside)
        | inr other ↦ absurd (refused other (ap (lock_mutex me) (sym has) ∙ locks))
      ]
        where
          refused : (o == me) ≡ false → lock_mutex me (held o 0) ≡ some m → ⊥
          refused other e = ground arith

  -- The thread leaves.
  goes_out :
      (s : Shared)
      → IsOrderly s
      → Inside s
      → IsOrderly
          (at_counter (record s { trader_mutex = unlock_mutex me s.trader_mutex }) me outside)
  goes_out s ok i = record {
    fits = ok.fits;
    owner = nobody (ap (unlock_mutex me) i.has ∙ rw ((==_iff me me).1 refl) refl) (λ j.
        elim (Bool-cases (j == me)) [
          | inl here ↦
              subst (λ x. move s.threads me outside x ≡ outside) (sym ((==_iff j me).0 here))
                (move_self me s.threads outside)
          | inr other ↦ move_ne me s.threads outside j other ∙ i.alone j other
        ]);
  }

  behind-lt : (c : Change) (b : ℕ) → b < 2 ^ 32 → behind c b < 2 ^ 32
  behind-lt (increase n) b h = omega arith
  behind-lt (decrease n) b h = ground arith

  -- A step keeps the order, and the effect in it is that of a call by itself.
  Step-IsOrderly :
      {s s' : Shared} {es : List Effect}
      → Step me s es s'
      → IsOrderly s
      → IsOrderly s' × Serial s.balance es s'.balance
  Step-IsOrderly (lock_increase s m n out locks) ok =
      (comes_in s m (adding n) ok out locks tt, refl)
  Step-IsOrderly (lock_decrease s m n out locks) ok =
      (comes_in s m (testing n) ok out locks tt, refl)
  Step-IsOrderly (covered s n here enough) ok =
      (goes_on s (taking n) s.balance (inside_lem s (testing n) ok here tt) ok.fits enough, refl)
  Step-IsOrderly (short s n here less) ok = (
    goes_on s (leaving minus_one) s.balance (inside_lem s (testing n) ok here tt) ok.fits tt,
    (ground arith, ground arith),
  )
  Step-IsOrderly (read_adding s n here) ok = (
    goes_on s (writing (increase n) _) s.balance (inside_lem s (adding n) ok here tt) ok.fits
        (refl, refl),
    refl,
  )
  Step-IsOrderly (read_taking s n here) ok =
      let i = inside_lem s (taking n) ok here tt in
      let enough : n ≤ s.balance = known s (taking n) here i in
      let fits = ok.fits in
      (goes_on s (writing (decrease n) _) s.balance i ok.fits (ground arith, ground arith), refl)
  Step-IsOrderly (write s c new here) ok =
      let i = inside_lem s (writing c new) ok here tt in
      let (same, paid) = known s (writing c new) here i in
      (
        goes_on s (leaving (pos 0)) new i
            (subst (λ b. b < 2 ^ 32) (sym same) (behind-lt c s.balance ok.fits)) tt,
        (sym paid, same),
      )
  Step-IsOrderly (unlock s r here) ok = (goes_out s ok (inside_lem s (leaving r) ok here tt), refl)

Serial-append :
    (b b₁ b₂ : ℕ) (es es' : List Effect)
    → Serial b es b₁
    → Serial b₁ es' b₂
    → Serial b (es ++ es') b₂
Serial-append b b₁ b₂ [] es' here rest = subst (λ x. Serial x es' b₂) here rest
Serial-append b b₁ b₂ (e ∷ es) es' (paid, here) rest =
    (paid, Serial-append (behind e.change b) b₁ b₂ es es' here rest)

-- From an orderly start, the threads stay in order, and the balance is that of the calls one behind
-- the other.
pub Run-IsOrderly :
    {s s' : Shared} {es : List Effect}
    → Run s es s'
    → IsOrderly s
    → IsOrderly s' × Serial s.balance es s'.balance
Run-IsOrderly (stop s) ok = (ok, refl)
Run-IsOrderly (step {s} {s₁} {s₂} {es} {es'} me one_step rest) ok =
    let (ok₁, serial) = Step-IsOrderly me one_step ok in
    let (ok₂, serial₂) = Run-IsOrderly rest ok₁ in
    (ok₂, Serial-append s.balance s₁.balance s₂.balance es es' serial serial₂)
