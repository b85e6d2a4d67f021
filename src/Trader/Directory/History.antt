-- ===== src/Trader/Directory/History.antt =====
-- src/trader.c: sequences of calls, beside the directory of include/trader.h.
use bourse_server.Base.{
  ℕ, ◌≡◌, refl, sym, ◌∙◌, ap, subst, inl, inr, Option, some, none, List, [], ◌∷◌, ℤ, done,
  replicate, length-replicate, zero, suc, pos, ◌≤◌, arith,
}
use bourse_server.Trader.Store.{Trader, Traders}
use bourse_server.Trader.Table.{at, nowhere, find_trader, max_traders, trader_init}
use mathlib.Core.Path.{fun_ext}
use bourse_server.Trader.Finish.{search-empty}
use bourse_server.Trader.Entries.{IsSettled, Entries, taken, find_named-cases}
use bourse_server.Trader.Directory.Spec.{
  Account, Directory, Operation, login, logout, increase_balance, decrease_balance,
  increase_inventory, decrease_inventory, Reply, refused, apply, apply_all, no_accounts, on_account,
  deposit, withdraw, escrow, release,
}
use bourse_server.Trader.Directory.Calls.{perform, perform_all}
use bourse_server.Trader.Directory.View.{IsSound, view, account_at, account_at_live, account_of}
use bourse_server.Trader.Directory.Refines.{
  IsUsable, IsAllowed, Meets, increase_balance-Meets, decrease_balance-Meets,
  increase_inventory-Meets, decrease_inventory-Meets, logout-Meets, login-Meets,
}
use bourse_server.Trader.Directory.Joins.{first_login-Meets}

module _ (junk : Trader) (me : ℕ) (s : Traders) (sound : IsSound s) where
  -- A call on a name that the directory does not have.
  unknown-Meets :
      (op : Operation) (name : List ℕ)
      → perform junk me op s ≡ done refused s
      → apply op (view s) ≡ (refused, view s)
      → Meets junk me op s
  unknown-Meets op name ran spec =
      (s, ran ∙ ap (λ x. done x.0 s) (sym spec), sound, ap (λ x. x.1) (sym spec))

  unknown_call :
      (name : List ℕ) (call : Account → Directory → Reply × Directory)
      → find_trader name s ≡ nowhere
      → on_account ((view s).accounts name) call (view s) ≡ (refused, view s)
  unfolding view
  unknown_call name call gone = rw gone refl

  -- Cases on whether the directory has the name.
  by_name :
      (op : List ℕ → Operation) (name : List ℕ)
      → (find_trader name s ≡ nowhere → Meets junk me (op name) s)
      → ((i p : ℕ) (t : Trader)
          → find_trader t.name s ≡ at i p
          → s.heap p ≡ some t
          → IsSettled t
          → t.name ≡ name
          → Meets junk me (op t.name) s)
      → Meets junk me (op name) s
  by_name op name missing known =
      elim (find_named-cases s.heap s.all_traders 0 name sound.entries) [
        | inl gone ↦ missing gone
        | inr (i, p, t, found, live, named, ok) ↦
            subst (λ n. Meets junk me (op n) s) named
              (known i p t (ap (λ n. find_trader n s) named ∙ found) live ok named)
      ]

  not_missing :
      (name : List ℕ) (a : Account)
      → find_trader name s ≡ nowhere
      → (view s).accounts name ≡ some a
      → ⊥
  unfolding view
  not_missing name a gone member = no_account a (rw gone at member)
    where
      no_account : (a : Account) → ◌≡◌ {A = Option Account} none (some a) → ⊥
      no_account a e = cc

  shown :
      (i p : ℕ) (t : Trader)
      → find_trader t.name s ≡ at i p
      → s.heap p ≡ some t
      → (view s).accounts t.name ≡ some (account_of t)
  unfolding view
  shown i p t found live = rw found (account_at_live s.heap i p t live)

  abbrev session_in : Option Account → Option ℤ
  session_in none = none
  session_in (some a) = a.session

  -- A call that its caller may make, on a sound state, returns the reply that the directory
  -- gives, and the sound state in which it returns shows the directory as the operation leaves
  -- it.
  pub perform-Meets : (op : Operation) → IsUsable junk → IsAllowed op (view s) → Meets junk me op s
  unfolding perform apply
  perform-Meets (login fd name) usable real =
      by_name (login fd) name (first_login-Meets junk me usable s sound fd name real)
        (λ i p t found live ok named. login-Meets junk me s sound i p t found live ok fd real)
  perform-Meets (logout name) usable (a, fd, member, online) =
      by_name logout name (λ gone. absurd (not_missing name a gone member))
        (λ i p t found live ok named. logout-Meets junk me s sound i p t found live ok fd (
          sym
            (ap session_in (sym member ∙ ap (view s).accounts (sym named) ∙ shown i p t found live))
          ∙ online))
  perform-Meets (increase_balance name n) usable h =
      by_name (λ x. increase_balance x n) name
        (λ gone.
          unknown-Meets (increase_balance name n) name (rw gone refl)
            (unknown_call name (deposit n name) gone))
        (λ i p t found live ok named. increase_balance-Meets junk me s sound i p t found live ok n)
  perform-Meets (decrease_balance name n) usable h =
      by_name (λ x. decrease_balance x n) name
        (λ gone.
          unknown-Meets (decrease_balance name n) name (rw gone refl)
            (unknown_call name (withdraw n name) gone))
        (λ i p t found live ok named. decrease_balance-Meets junk me s sound i p t found live ok n)
  perform-Meets (increase_inventory name n) usable h =
      by_name (λ x. increase_inventory x n) name
        (λ gone.
          unknown-Meets (increase_inventory name n) name (rw gone refl)
            (unknown_call name (escrow n name) gone))
        (λ i p t found live ok named.
          increase_inventory-Meets junk me s sound i p t found live ok n)
  perform-Meets (decrease_inventory name n) usable h =
      by_name (λ x. decrease_inventory x n) name
        (λ gone.
          unknown-Meets (decrease_inventory name n) name (rw gone refl)
            (unknown_call name (release n name) gone))
        (λ i p t found live ok named.
          decrease_inventory-Meets junk me s sound i p t found live ok n)

-- Every call of a sequence is one that its caller may make of the directory as it is then.
abbrev pub AllAllowed : List Operation → Directory → Type 0
AllAllowed [] d = Unit {0}
AllAllowed (op ∷ ops) d = IsAllowed op d × AllAllowed ops (apply op d).1

module _ (junk : Trader) (me : ℕ) (usable : IsUsable junk) where
  -- From a sound state, any sequence of logins, logouts, deposits, withdrawals, escrows and
  -- releases, each one that its caller may make at that point, returns without waiting, with
  -- the replies that the directory of include/trader.h gives; the state at the end is sound,
  -- and shows the directory as the sequence leaves it. The mutex in a new block can be locked,
  -- and the count of references there is not negative.
  pub perform_all_lem :
      (ops : List Operation) (s : Traders)
      → IsSound s
      → AllAllowed ops (view s)
      → (s' : Traders) × (perform_all junk me ops s ≡ done (apply_all ops (view s)).0 s')
        × IsSound s'
        × (view s' ≡ (apply_all ops (view s)).1)
  unfolding perform_all apply_all
  perform_all_lem [] s sound h = (s, refl, sound, refl)
  perform_all_lem (op ∷ ops) s sound (allowed, rest) =
      let (s₁, ran, sound₁, seen) = perform-Meets junk me s sound op usable allowed in
      let (s₂, ran₂, sound₂, seen₂) =
        perform_all_lem ops s₁ sound₁ (subst (AllAllowed ops) (sym seen) rest) in
      (
        s₂,
        rw (ran, ran₂) (ap (λ d. done ((apply op (view s)).0 ∷ (apply_all ops d).0) s₂) seen),
        sound₂,
        seen₂ ∙ ap (λ d. (apply_all ops d).1) seen,
      )

Entries-replicate : (h : ℕ → Option Trader) (n : ℕ) → Entries h (replicate n none)
Entries-replicate h zero = tt
Entries-replicate h (suc n) = Entries-replicate h n

taken-replicate : (n : ℕ) → taken (replicate n none) ≡ 0
taken-replicate zero = refl
taken-replicate (suc n) = taken-replicate n

-- From a count of 0 and a memory that is empty above the next address, `trader_init` returns 0
-- in a sound state, which shows the directory with no accounts.
pub trader_init-IsSound :
    (s : Traders)
    → s.count ≡ 0
    → ((q : ℕ) → s.next ≤ q → s.heap q ≡ none)
    → (s' : Traders) × (trader_init s ≡ done (pos 0) s') × IsSound s' × (view s' ≡ no_accounts)
unfolding trader_init view
trader_init-IsSound s start unused = (
  record s { all_traders = replicate max_traders none },
  refl,
  record {
    size = length-replicate {A = Option ℕ} max_traders none;
    entries = Entries-replicate s.heap max_traders;
    counted = omega (arith, taken-replicate max_traders);
    unused = unused;
  },
  λ i. record {
    accounts = fun_ext (λ name. ap (account_at s.heap) (search-empty s.heap max_traders 0 name)) i;
    members = start i;
  },
)
