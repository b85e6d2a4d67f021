-- ===== src/Trader/Directory/Refines.antt =====
-- src/trader.c: each call, beside the operation of the directory.
use mathlib.Core.Path.{fun_ext}
use bourse_server.Base.{
  ℕ, zero, suc, ◌+◌, ◌-◌, ◌%◌, ◌^◌, ◌≤◌, ◌≡◌, ◌≢◌, refl, sym, ◌∙◌, ap, inl, inr, false, Option,
  some, none, List, ℤ, pos, negsuc, minus_one, int_eq, int_eq_iff, inc, dec, arith, if◌then◌else◌,
  Bool-cases, leb, done,
}
use bourse_server.Trader.Store.{free, held, Trader, Traders, put}
use bourse_server.Trader.Table.{at, find_trader, same_name}
use bourse_server.Trader.Lookup.{same_name_iff}
use bourse_server.Trader.Login.{login_returning, login_again}
use bourse_server.Trader.LoginLogout.{trader_logout_lem}
use bourse_server.Trader.Balances.{
  trader_increase_balance_lem, trader_decrease_balance_lem, trader_increase_inventory_lem,
  trader_decrease_inventory_lem,
}
use bourse_server.Trader.Entries.{IsSettled, owners, references}
use bourse_server.Trader.Directory.Spec.{
  Account, Directory, Operation, login, logout, increase_balance, decrease_balance,
  increase_inventory, decrease_inventory, Reply, accepted, refused, set_account, apply, on_account,
  deposit, withdraw, escrow, release, log_in, log_out, relogin,
}
use bourse_server.Trader.Directory.Calls.{perform}
use bourse_server.Trader.Directory.View.{
  IsSound, view, account_of, account_at_live, session_of, put-IsSound, view-put,
}

-- What malloc(3) gives has a mutex that can be locked, and no negative number for a count.
pub record IsUsable (junk : Trader) : Type 0 where
  pub unlocked : junk.trader_mutex ≡ free
  pub garbage : ℕ
  pub counts : junk.ref ≡ pos garbage

-- What a caller sees to: a login has a connection, and only a trader who is logged in is logged out.
abbrev pub IsAllowed : Operation → Directory → Type 0
IsAllowed (login fd name) d = fd ≢ minus_one
IsAllowed (logout name) d =
    (a : Account) × (fd : ℤ) × (d.accounts name ≡ some a) × (a.session ≡ some fd)
IsAllowed (increase_balance name n) d = Unit {0}
IsAllowed (decrease_balance name n) d = Unit {0}
IsAllowed (increase_inventory name n) d = Unit {0}
IsAllowed (decrease_inventory name n) d = Unit {0}

-- The call returns what the directory says, and what it leaves stands for what the directory is then.
abbrev pub Meets : Trader → ℕ → Operation → Traders → Type 0
Meets junk me op s =
    (s' : Traders) × (perform junk me op s ≡ done (apply op (view s)).0 s')
    × IsSound s'
    × (view s' ≡ (apply op (view s)).1)

references-inc : (r : ℤ) → 1 ≤ references r → references (inc r) ≡ suc (references r)
references-inc (pos n) h = refl
references-inc (negsuc n) h = absurd (omega arith)

references-dec : (r : ℤ) → 1 ≤ references r → suc (references (dec r)) ≡ references r
references-dec (pos zero) h = absurd (omega arith)
references-dec (pos (suc n)) h = refl
references-dec (negsuc n) h = absurd (omega arith)

owners-le : (t : Trader) → owners t ≤ 2
owners-le t = ground arith

owners-ge : (t : Trader) → 1 ≤ owners t
owners-ge t = ground arith

owners-online : (t : Trader) → int_eq t.fd minus_one ≡ false → owners t ≡ 2
owners-online t e = ground arith

session_of-some : (x fd : ℤ) → session_of x ≡ some fd → int_eq x minus_one ≡ false
session_of-some x fd e = elim (Bool-cases (int_eq x minus_one)) [
  | inl gone ↦ absurd (no_session fd (rw gone at e))
  | inr there ↦ there
]
  where
    no_session : (fd : ℤ) → ◌≡◌ {A = Option ℤ} none (some fd) → ⊥
    no_session fd e = cc

-- An account that is set to what it is.
set_account-same :
    (name : List ℕ) (a : Account) (d : Directory)
    → d.accounts name ≡ some a
    → set_account name a d ≡ d
unfolding set_account
set_account-same name a d e = λ i. record d { accounts = fun_ext same i }
  where
    same : (n : List ℕ) → (if same_name n name then some a else d.accounts n) ≡ d.accounts n
    same n = elim (Bool-cases (same_name n name)) [
      | inl hit ↦ rw (hit, (same_name_iff n name).0 hit) (sym e)
      | inr miss ↦ rw miss refl
    ]

module _ (junk : Trader) (me : ℕ) (s : Traders) (sound : IsSound s) (i p : ℕ) (t : Trader)
    (found : find_trader t.name s ≡ at i p) (live : s.heap p ≡ some t) (ok : IsSettled t) where
  known : (view s).accounts t.name ≡ some (account_of t)
  unfolding view
  known = rw found (account_at_live s.heap i p t live)

  known_call :
      (call : Account → Directory → Reply × Directory)
      → on_account ((view s).accounts t.name) call (view s) ≡ call (account_of t) (view s)
  known_call call = ap (λ o. on_account o call (view s)) known

  open ok use {idle, owned}

  -- A call that makes the trader `u`.
  Meets-put :
      (op : Operation) (r : Reply) (u : Trader)
      → u.name ≡ t.name
      → IsSettled u
      → perform junk me op s ≡ done r (put p u s)
      → apply op (view s) ≡ (r, set_account t.name (account_of u) (view s))
      → Meets junk me op s
  Meets-put op r u same good ran spec = (
    put p u s,
    ran ∙ ap (λ x. done x.0 (put p u s)) (sym spec),
    put-IsSound s sound i p t u found live same good,
    view-put s sound i p t u found live same ∙ ap (λ x. x.1) (sym spec),
  )

  Meets-same :
      (op : Operation) (r : Reply)
      → perform junk me op s ≡ done r s
      → apply op (view s) ≡ (r, view s)
      → Meets junk me op s
  Meets-same op r ran spec =
      (s, ran ∙ ap (λ x. done x.0 s) (sym spec), sound, ap (λ x. x.1) (sym spec))

  pub increase_balance-Meets : (n : ℕ) → Meets junk me (increase_balance t.name n) s
  unfolding perform apply
  increase_balance-Meets n =
      Meets-put (increase_balance t.name n) accepted
        (record t { balance = (t.balance + n) % 2 ^ 32 }) refl
        (record { idle = idle; owned = owned })
        (rw (found, trader_increase_balance_lem me p s t (held me 0) live (rw idle refl) n) refl)
        (known_call (deposit n t.name))

  pub increase_inventory-Meets : (n : ℕ) → Meets junk me (increase_inventory t.name n) s
  unfolding perform apply
  increase_inventory-Meets n =
      Meets-put (increase_inventory t.name n) accepted
        (record t { inventory = (t.inventory + n) % 2 ^ 32 }) refl
        (record { idle = idle; owned = owned })
        (rw (found, trader_increase_inventory_lem me p s t (held me 0) live (rw idle refl) n) refl)
        (known_call (escrow n t.name))

  pub decrease_balance-Meets : (n : ℕ) → Meets junk me (decrease_balance t.name n) s
  unfolding perform apply
  decrease_balance-Meets n = elim (Bool-cases (leb n t.balance)) [
    | inl covered ↦
        Meets-put (decrease_balance t.name n) accepted (record t { balance = t.balance - n }) refl
          (record { idle = idle; owned = owned })
          (rw
            (found, trader_decrease_balance_lem me p s t (held me 0) live (rw idle refl) n, covered)
            refl)
          (known_call (withdraw n t.name) ∙ rw covered refl)
    | inr short ↦
        Meets-same (decrease_balance t.name n) refused
          (rw (found, trader_decrease_balance_lem me p s t (held me 0) live (rw idle refl) n, short)
            refl)
          (known_call (withdraw n t.name) ∙ rw short refl)
  ]

  pub decrease_inventory-Meets : (n : ℕ) → Meets junk me (decrease_inventory t.name n) s
  unfolding perform apply
  decrease_inventory-Meets n = elim (Bool-cases (leb n t.inventory)) [
    | inl covered ↦
        Meets-put (decrease_inventory t.name n) accepted (record t { inventory = t.inventory - n })
          refl (record { idle = idle; owned = owned })
          (rw
            (
              found,
              trader_decrease_inventory_lem me p s t (held me 0) live (rw idle refl) n,
              covered,
            )
            refl)
          (known_call (release n t.name) ∙ rw covered refl)
    | inr short ↦
        Meets-same (decrease_inventory t.name n) refused
          (rw
            (found, trader_decrease_inventory_lem me p s t (held me 0) live (rw idle refl) n, short)
            refl)
          (known_call (release n t.name) ∙ rw short refl)
  ]

  pub logout-Meets : (fd : ℤ) → session_of t.fd ≡ some fd → Meets junk me (logout t.name) s
  unfolding perform apply
  logout-Meets fd online =
      Meets-put (logout t.name) accepted (record t { ref = dec t.ref; fd = minus_one }) refl
        (record { idle = idle; owned = left })
        (rw
          (
            found,
            trader_logout_lem me p i s t (held me 0) found live (rw idle refl)
                (λ e. absurd (omega (arith, left, ap references e))),
          )
          refl)
        (known_call (log_out t.name))
    where
      left : 1 ≤ references (dec t.ref)
      left = omega (
        arith,
        owned,
        owners-online t (session_of-some t.fd fd online),
        references-dec t.ref (omega (arith, owned, owners-ge t)),
      )

  known_login :
      (fd : ℤ)
      → log_in fd t.name ((view s).accounts t.name) (view s)
        ≡ relogin fd t.name (account_of t) (session_of t.fd) (view s)
  known_login fd = ap (λ o. log_in fd t.name o (view s)) known

  more : owners t ≤ references (inc t.ref)
  more = omega (arith, owned, owners-ge t, references-inc t.ref (omega (arith, owned, owners-ge t)))

  two : 2 ≤ references (inc t.ref)
  two = omega (arith, owned, owners-ge t, references-inc t.ref (omega (arith, owned, owners-ge t)))

  pub login-Meets : (fd : ℤ) → fd ≢ minus_one → Meets junk me (login fd t.name) s
  unfolding perform apply
  login-Meets fd real = elim (Bool-cases (int_eq t.fd minus_one)) [
    | inl gone ↦
        Meets-put (login fd t.name) accepted (record t { ref = inc t.ref; fd = fd }) refl
          (record { idle = idle; owned = omega (arith, two, owners-le (record t { fd = fd })) })
          (rw
            (login_returning junk me p i s t (held me 0) fd t.name found live (rw idle refl)
              ((int_eq_iff t.fd minus_one).0 gone))
            refl)
          (known_login fd ∙ rw (gone, connected) refl)
    | inr there ↦
        Meets-put (login fd t.name) refused (record t { ref = inc t.ref }) refl
          (record { idle = idle; owned = more })
          (rw
            (login_again junk me p i s t (held me 0) fd t.name found live (rw idle refl)
              (λ e. absurd (ground (arith, int_eq_iff t.fd minus_one))))
            refl)
          (known_login fd
            ∙ rw there refl
            ∙ ap (λ d. (refused, d)) (sym (set_account-same t.name (account_of t) (view s) known)))
  ]
    where
      connected : int_eq fd minus_one ≡ false
      connected = ground (arith, int_eq_iff fd minus_one)
