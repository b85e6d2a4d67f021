-- ===== src/Trader/Threads/Serial.antt =====
-- src/trader.c: the calls one behind the other, beside the steps of the threads.
use bourse_server.Base.{
  move_self, ℕ, ◌^◌, ◌<◌, ◌≡◌, refl, sym, ◌∙◌, ap, inl, inr, some, List, [], ◌∷◌, ◌++◌, map, ℤ, pos,
  minus_one, M, done, pure, ◌>>=◌, ◌>>◌, arith, leb, Bool-cases, ==_iff,
}
use bourse_server.Trader.Store.{free, held, unlock_mutex, Trader, Traders, put, update_self}
use bourse_server.Trader.RefCounts.{put-put, put_same}
use bourse_server.Trader.Account.{trader_increase_balance, trader_decrease_balance}
use bourse_server.Trader.Balances.{trader_increase_balance_lem, trader_decrease_balance_lem}
use bourse_server.Trader.Threads.Steps.{
  Change, increase, decrease, Counter, outside, testing, adding, taking, writing, leaving, Shared,
  Effect, Step, Run, stop, step, covered, short, read_adding, read_taking, write, unlock,
}
use bourse_server.Trader.Threads.Order.{
  Knows, behind, due, Serial, IsOrderly, Owner, nobody, one, Run-IsOrderly,
}

-- The whole call, by the thread `me` on the trader at `p`.
abbrev pub call : ℕ → ℕ → Change → M Traders ℤ
call me p (increase n) = trader_increase_balance me p n >> pure (pos 0)
call me p (decrease n) = trader_decrease_balance me p n

-- The calls one behind the other, in the order of their effects.
unfoldable pub one_by_one : ℕ → List Effect → M Traders (List ℤ)
one_by_one p [] = pure []
one_by_one p (e ∷ es) = do r ← call e.thread p e.change; rs ← one_by_one p es; pure (r ∷ rs)

abbrev pub result_of : Effect → ℤ
result_of e = e.result

module _ (p : ℕ) where
  call_lem :
      (me : ℕ) (c : Change) (s : Traders) (t : Trader)
      → s.heap p ≡ some t
      → t.trader_mutex ≡ free
      → call me p c s ≡ done (due c t.balance) (put p (record t { balance = behind c t.balance }) s)
  call_lem me (increase n) s t live idle =
      rw (trader_increase_balance_lem me p s t (held me 0) live (rw idle refl) n) refl
  call_lem me (decrease n) s t live idle = elim (Bool-cases (leb n t.balance)) [
    | inl enough ↦
        trader_decrease_balance_lem me p s t (held me 0) live (rw idle refl) n ∙ rw enough refl
    | inr less ↦
        trader_decrease_balance_lem me p s t (held me 0) live (rw idle refl) n
        ∙ rw less (ap (done minus_one) (sym (put_same p t s live)))
  ]

  one_by_one_lem :
      (es : List Effect) (s : Traders) (t : Trader) (b : ℕ)
      → s.heap p ≡ some t
      → t.trader_mutex ≡ free
      → Serial t.balance es b
      → one_by_one p es s ≡ done (map result_of es) (put p (record t { balance = b }) s)
  unfolding one_by_one
  one_by_one_lem [] s t b live idle same =
      ap (done []) (sym (ap (λ n. put p (record t { balance = n }) s) same ∙ put_same p t s live))
  one_by_one_lem (e ∷ es) s t b live idle (paid, rest) =
      let t₁ : Trader = record t { balance = behind e.change t.balance } in
      rw
        (
          call_lem e.thread e.change s t live idle,
          one_by_one_lem es (put p t₁ s) t₁ b (update_self s.heap p _) idle rest,
          put-put p t₁ (record t { balance = b }) s,
        )
        (ap (λ r. done (r ∷ map result_of es) (put p (record t { balance = b }) s)) (sym paid))

-- The trader when no thread is inside.
abbrev pub start_of : Trader → Shared
start_of t = record { balance = t.balance; trader_mutex = t.trader_mutex; threads = λ i. outside }

-- The threads can go on to a state with the mutex free.
abbrev pub Finishes : Shared → Type 0
Finishes s = (es : List Effect) × (s' : Shared) × Run s es s' × (s'.trader_mutex ≡ free)

module _ (me : ℕ) where
  then_finish : {s s₁ : Shared} {es : List Effect} → Step me s es s₁ → Finishes s₁ → Finishes s
  then_finish {es = es} one_step (es', s', ran, unlocked) =
      (es ++ es', s', step me one_step ran, unlocked)

  from_leaving :
      (s : Shared) (r : ℤ) → s.trader_mutex ≡ held me 0 → s.threads me ≡ leaving r → Finishes s
  from_leaving s r has here =
      then_finish (unlock s r here)
        ([], _, stop _, ap (unlock_mutex me) has ∙ rw ((==_iff me me).1 refl) refl)

  from_writing :
      (s : Shared) (c : Change) (new : ℕ)
      → s.trader_mutex ≡ held me 0
      → s.threads me ≡ writing c new
      → Finishes s
  from_writing s c new has here =
      then_finish (write s c new here)
        (from_leaving _ (pos 0) has (move_self me s.threads (leaving (pos 0))))

  from_adding :
      (s : Shared) (n : ℕ) → s.trader_mutex ≡ held me 0 → s.threads me ≡ adding n → Finishes s
  from_adding s n has here =
      then_finish (read_adding s n here) (from_writing _ _ _ has (move_self me s.threads _))

  from_taking :
      (s : Shared) (n : ℕ) → s.trader_mutex ≡ held me 0 → s.threads me ≡ taking n → Finishes s
  from_taking s n has here =
      then_finish (read_taking s n here) (from_writing _ _ _ has (move_self me s.threads _))

  from_testing :
      (s : Shared) (n : ℕ) → s.trader_mutex ≡ held me 0 → s.threads me ≡ testing n → Finishes s
  from_testing s n has here = elim (Bool-cases (leb n s.balance)) [
    | inl enough ↦
        then_finish (covered s n here (ground arith))
          (from_taking _ n has (move_self me s.threads (taking n)))
    | inr less ↦
        then_finish (short s n here (ground arith))
          (from_leaving _ minus_one has (move_self me s.threads (leaving minus_one)))
  ]

  from_inside :
      (s : Shared) (c : Counter)
      → s.trader_mutex ≡ held me 0
      → s.threads me ≡ c
      → Knows c s.balance
      → Finishes s
  from_inside s outside has here knows = absurd knows
  from_inside s (testing n) has here knows = from_testing s n has here
  from_inside s (adding n) has here knows = from_adding s n has here
  from_inside s (taking n) has here knows = from_taking s n has here
  from_inside s (writing c new) has here knows = from_writing s c new has here
  from_inside s (leaving r) has here knows = from_leaving s r has here

IsOrderly-Finishes : (s : Shared) → IsOrderly s → Finishes s
IsOrderly-Finishes s ok = go ok.owner
  where
    go : Owner s → Finishes s
    go (nobody unlocked all) = ([], s, stop s, unlocked)
    go (one o has knows alone) = from_inside o s (s.threads o) has refl knows

module _ (p : ℕ) where
  -- Whatever steps any threads make on a trader, from a start with a balance below 2^32, nobody
  -- inside and the mutex free, the calls that have had their effect on the balance give the
  -- results and leave the balance that the calls of trader.c give one behind the other, in the
  -- order of their effects. At most one thread is inside, and the threads can always go on
  -- until the mutex is free.
  pub Run-one_by_one :
      (s : Traders) (t : Trader) (es : List Effect) (sh : Shared)
      → s.heap p ≡ some t
      → t.trader_mutex ≡ free
      → t.balance < 2 ^ 32
      → Run (start_of t) es sh
      → (one_by_one p es s ≡ done (map result_of es) (put p (record t { balance = sh.balance }) s))
        × IsOrderly sh
        × Finishes sh
  Run-one_by_one s t es sh live idle fits ran =
      let (ok, serial) =
        Run-IsOrderly ran (record { fits = fits; owner = nobody idle (λ i. refl) }) in
      (one_by_one_lem p es s t sh.balance live idle serial, ok, IsOrderly-Finishes sh ok)
